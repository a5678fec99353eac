-- ===== src/Compliance/Disposal/Files.antt =====
-- compliance/workflows.py: the closed files of a customer and their contents, `_content_rows`, the
-- selection in `_eligible_rows`, and `_digest`.
use fireisp.Prelude.{
  ℕ, Bool, true, false, not, ◌&&◌, none, some, List, [], ◌∷◌, map, leb, ◌==◌, any, select,
  if◌then◌else◌,
}
use fireisp.Prelude.Text.{Text, codes, text_eq}
use fireisp.Prelude.Sort.{order_by}
use fireisp.Calendar.{Date}
use fireisp.Store.{Customer, Ticket, Operations, Db, Result, ok, err, Env}
use fireisp.Store.Compliance.{
  ArcoRequest, ArcoStatus, completed, ArcoExtension, Category, support_ticket_content,
  arco_request_content, Closing, at_instant, on_day, Content, Compliance,
}
use fireisp.Operations.{is_billing, is_resolved}
use fireisp.Compliance.Retention.{can_dispose}

abbrev pub redacted : Text
redacted = codes "[Contenido suprimido conforme a política de conservación]"

-- A closed record, as the key and the contents that `_digest` reads.
abbrev pub File : Type 0
File = Content

unfoldable pub category_name : Category → Text
category_name support_ticket_content = codes "support_ticket_content"
category_name arco_request_content = codes "arco_request_content"

-- An open complaint about a bill keeps all files of the customer.
unfoldable pub has_complaint : Operations → ℕ → Bool
has_complaint o customer =
    any (λ t. t.customer == customer && is_billing t.kind && not (is_resolved t.status)) o.tickets

abbrev pub by_key : File → File → Bool
by_key a b = leb a.pk b.pk

unfoldable pub ticket_files : List Ticket → ℕ → List File
ticket_files [] customer = []
ticket_files (t ∷ ts) customer =
    let rest = ticket_files ts customer in
    elim t.resolved_at [
      | none ↦ rest
      | some at ↦
          if t.customer == customer && is_resolved t.status && not (text_eq t.description redacted)
          then record {
            pk = t.pk;
            closed = at_instant at;
            texts = t.subject ∷ t.description ∷ t.resolution ∷ [];
            extensions = [];
          }
            ∷ rest
          else rest
    ]

abbrev pub is_completed : ArcoStatus → Bool
is_completed completed = true
is_completed _ = false

abbrev pub earlier : ArcoExtension → ArcoExtension → Bool
earlier a b = leb a.pk b.pk

unfoldable pub extension_texts : List ArcoExtension → ℕ → List (ℕ × Text × Text)
extension_texts es request =
    map (λ e. (e.pk, e.reason, e.notification_evidence))
      (order_by earlier (select (λ e. e.request == request) es))

unfoldable pub request_files : List ArcoExtension → List ArcoRequest → ℕ → List File
request_files es [] customer = []
request_files es (r ∷ rs) customer =
    let rest = request_files es rs customer in
    elim r.completed_on [
      | none ↦ rest
      | some day ↦
          if r.customer == customer && is_completed r.status && not (text_eq r.description redacted)
          then record {
            pk = r.pk;
            closed = on_day day;
            texts =
                r.description ∷ r.identity_evidence ∷ r.decision ∷ r.implementation_evidence ∷ [];
            extensions = extension_texts es r.pk;
          }
            ∷ rest
          else rest
    ]

-- `_content_rows`, in the order of the keys.
unfoldable pub content_rows : Db → ℕ → Category → List File
content_rows db customer support_ticket_content =
    order_by by_key (ticket_files db.operations.tickets customer)
content_rows db customer arco_request_content =
    order_by by_key (request_files db.compliance.extensions db.compliance.arco_requests customer)

-- The day that `can_dispose` counts from.
unfoldable pub closing_day : Env → Closing → Date
closing_day env (at_instant t) = env.utc_date t
closing_day env (on_day d) = d

-- The list comprehension of `_eligible_rows`.
unfoldable pub disposable : Env → Compliance → Customer → Category → List File → Result (List File)
disposable env c customer category [] = ok []
disposable env c customer category (f ∷ fs) =
    elim (can_dispose c customer (category_name category) (some (closing_day env f.closed)) true
      (env.local_date env.now)) [
        | err e ↦ err e
        | ok keep ↦ elim (disposable env c customer category fs) [
          | err e ↦ err e
          | ok rest ↦ ok (if keep then f ∷ rest else rest)
        ]
      ]

-- `_digest`
unfoldable pub digest : Env → List File → Text
digest env rows = env.sha256_hex (env.dumps rows)

-- ===== src/Compliance/Disposal/Records.antt =====
-- The closed records of a customer and the complaints about a bill, as statements about the rows.
use fireisp.Prelude.{
  ℕ, ◌≡◌, ◌≢◌, refl, inl, inr, true, false, not, ◌&&◌, some, List, [], ◌∷◌, ◌==◌, arith, All,
  All-map, Bool-cases, Option-cases,
}
use fireisp.Prelude.Exists.{Exists, Reflects, any-Reflects, refuted, refutes}
use fireisp.Prelude.Sort.{order_by-All}
use fireisp.Prelude.Text.{text_eq}
use fireisp.Calendar.{Date}
use fireisp.Store.{Db, Ticket, Operations, billing, resolved}
use fireisp.Store.Compliance.{
  Category, support_ticket_content, arco_request_content, ArcoRequest, ArcoStatus, completed,
  ArcoExtension, at_instant, on_day,
}
use fireisp.Operations.Reasons.{is_billing-Reflects, is_resolved-Reflects}
use fireisp.Operations.{is_resolved}
use fireisp.Compliance.Disposal.Files.{
  File, has_complaint, redacted, by_key, ticket_files, is_completed, extension_texts, request_files,
  content_rows,
}

-- The file is that of a resolved ticket of the customer whose contents are still there.
pub record TicketFile (customer : ℕ) (f : File) (t : Ticket) : Type 0 where
  pub owner : t.customer ≡ customer
  pub closed : t.status ≡ resolved
  pub end : ℕ
  pub ended : t.resolved_at ≡ some end
  pub present : text_eq t.description redacted ≡ false
  pub is_file : f ≡ record {
    pk = t.pk;
    closed = at_instant end;
    texts = t.subject ∷ t.description ∷ t.resolution ∷ [];
    extensions = [];
  }

-- The file is that of a completed request of the customer whose contents are still there.
pub record RequestFile (es : List ArcoExtension) (customer : ℕ) (f : File) (r : ArcoRequest)
    : Type 0 where
  pub owner : r.customer ≡ customer
  pub closed : r.status ≡ completed
  pub end : Date
  pub ended : r.completed_on ≡ some end
  pub present : text_eq r.description redacted ≡ false
  pub is_file : f ≡ record {
    pk = r.pk;
    closed = on_day end;
    texts = r.description ∷ r.identity_evidence ∷ r.decision ∷ r.implementation_evidence ∷ [];
    extensions = extension_texts es r.pk;
  }

-- A closed record of the customer stands behind the file.
abbrev pub IsStored : Db → ℕ → Category → File → Type 0
IsStored db customer support_ticket_content f = Exists (TicketFile customer f) db.operations.tickets
IsStored db customer arco_request_content f =
    Exists (RequestFile db.compliance.extensions customer f) db.compliance.arco_requests

-- A complaint of the customer about a bill that is not resolved.
pub record Complains (customer : ℕ) (t : Ticket) : Type 0 where
  pub owner : t.customer ≡ customer
  pub kind : t.kind ≡ billing
  pub unresolved : t.status ≢ resolved

pub has_complaint-Reflects :
    (o : Operations) (customer : ℕ)
    → Reflects (has_complaint o customer) (Exists (Complains customer) o.tickets)
unfolding has_complaint
has_complaint-Reflects o customer = any-Reflects _ (Complains customer) o.tickets λ t. (
  λ h. record {
    owner = ground (arith, h);
    kind = (is_billing-Reflects t.kind).0 (ground (arith, h));
    unresolved = refuted (is_resolved-Reflects t.status) (ground (arith, h));
  },
  λ c.
      let b = (is_billing-Reflects t.kind).1 c.kind in
      let r = refutes (is_resolved-Reflects t.status) c.unresolved in ground (arith, c.owner, b, r),
)

is_completed-eq : (s : ArcoStatus) → is_completed s ≡ true → s ≡ completed
is_completed-eq completed h = refl
is_completed-eq _ h = cc

ticket_files-All :
    (Q : File → Type 0) (t : Ticket) (ts : List Ticket) (customer : ℕ)
    → ((end : ℕ)
        → t.resolved_at ≡ some end
        → (t.customer == customer && is_resolved t.status && not (text_eq t.description redacted))
          ≡ true
        → Q (record {
          pk = t.pk;
          closed = at_instant end;
          texts = t.subject ∷ t.description ∷ t.resolution ∷ [];
          extensions = [];
        }))
    → All Q (ticket_files ts customer)
    → All Q (ticket_files (t ∷ ts) customer)
unfolding ticket_files
ticket_files-All Q t ts customer this others = elim (Option-cases t.resolved_at) [
  | inl never ↦ rw (never, ticket_files) others
  | inr (end, ended) ↦
      elim (Bool-cases
        (t.customer == customer && is_resolved t.status && not (text_eq t.description redacted))) [
          | inr other ↦ rw (ended, other, ticket_files) others
          | inl passed ↦ rw (ended, passed, ticket_files) (this end ended passed, others)
        ]
]

ticket_files-IsStored :
    (ts : List Ticket) (customer : ℕ)
    → All (λ f. Exists (TicketFile customer f) ts) (ticket_files ts customer)
ticket_files-IsStored [] customer = unfold ticket_files in tt
ticket_files-IsStored (t ∷ ts) customer =
    let P : File → Type 0 = λ f. Exists (TicketFile customer f) (t ∷ ts) in
    ticket_files-All P t ts customer
      (λ end ended passed. inl (record {
        owner = ground (arith, passed);
        closed = (is_resolved-Reflects t.status).0 (ground (arith, passed));
        end = end;
        ended = ended;
        present = ground (arith, passed);
        is_file = refl;
      }))
      (All-map (λ f. Exists (TicketFile customer f) ts) P (ticket_files ts customer) (λ _ e. inr e)
        (ticket_files-IsStored ts customer))

request_files-All :
    (Q : File → Type 0) (es : List ArcoExtension) (r : ArcoRequest) (rs : List ArcoRequest)
    (customer : ℕ)
    → ((end : Date)
        → r.completed_on ≡ some end
        → (r.customer == customer && is_completed r.status && not (text_eq r.description redacted))
          ≡ true
        → Q (record {
          pk = r.pk;
          closed = on_day end;
          texts = r.description ∷ r.identity_evidence ∷ r.decision ∷ r.implementation_evidence ∷ [];
          extensions = extension_texts es r.pk;
        }))
    → All Q (request_files es rs customer)
    → All Q (request_files es (r ∷ rs) customer)
unfolding request_files
request_files-All Q es r rs customer this others = elim (Option-cases r.completed_on) [
  | inl never ↦ rw (never, request_files) others
  | inr (end, ended) ↦
      elim (Bool-cases
        (r.customer == customer && is_completed r.status && not (text_eq r.description redacted))) [
          | inr other ↦ rw (ended, other, request_files) others
          | inl passed ↦ rw (ended, passed, request_files) (this end ended passed, others)
        ]
]

request_files-IsStored :
    (es : List ArcoExtension) (rs : List ArcoRequest) (customer : ℕ)
    → All (λ f. Exists (RequestFile es customer f) rs) (request_files es rs customer)
request_files-IsStored es [] customer = unfold request_files in tt
request_files-IsStored es (r ∷ rs) customer =
    let P : File → Type 0 = λ f. Exists (RequestFile es customer f) (r ∷ rs) in
    request_files-All P es r rs customer
      (λ end ended passed. inl (record {
        owner = ground (arith, passed);
        closed = is_completed-eq r.status (ground (arith, passed));
        end = end;
        ended = ended;
        present = ground (arith, passed);
        is_file = refl;
      }))
      (All-map (λ f. Exists (RequestFile es customer f) rs) P (request_files es rs customer)
        (λ _ e. inr e) (request_files-IsStored es rs customer))

pub content_rows-IsStored :
    (db : Db) (customer : ℕ) (category : Category)
    → All (IsStored db customer category) (content_rows db customer category)
unfolding content_rows
content_rows-IsStored db customer support_ticket_content =
    order_by-All by_key _ _ (ticket_files-IsStored db.operations.tickets customer)
content_rows-IsStored db customer arco_request_content =
    order_by-All by_key _ _
      (request_files-IsStored db.compliance.extensions db.compliance.arco_requests customer)

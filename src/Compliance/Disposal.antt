-- ===== src/Compliance/Disposal.antt =====
-- compliance/workflows.py: the disposal of the contents of closed files, a review of what may go
-- (`preview_retention_disposal`) and its execution (`execute_retention_disposal`). A category that
-- the code does not know is not modelled: the column has these two.
pub mod Files
pub mod Records
pub mod Effects
pub mod Laws
use fireisp.Prelude.{
  ℕ, ◌+◌, ◌*◌, Bool, true, false, not, ◌&&◌, ◌||◌, Option, none, some, List, [], ◌∷◌, map, leb,
  ◌==◌, if◌then◌else◌, find, any, select, is_some, update_where,
}
use fireisp.Prelude.Text.{Text, codes, text_eq, is_blank, strip}
use fireisp.Store.{
  Customer, M, ◌>>=◌, ◌>>◌, pure, gets, modify, raise_if, or_raise, lift, fresh, with_compliance,
  with_operations, does_not_exist, open_complaint, nothing_to_dispose, not_confirmed,
  expired_review, file_changed, Env,
}
use fireisp.Store.Compliance.{
  Category, support_ticket_content, arco_request_content, RetentionDisposal,
}
use fireisp.Core.{audit, get_customer, get_organization}
use fireisp.Core.Actors.{Actor, signed_in, key_of, staff}
use Files.{File, redacted, has_complaint, content_rows, disposable, digest}

-- `_eligible_rows`
unfoldable pub eligible_rows : Env → Customer → Category → M (List File)
eligible_rows env customer category = do
  complaint ← gets (λ db. has_complaint db.operations customer.pk)
  raise_if complaint open_complaint
  rows ← gets (λ db. content_rows db customer.pk category)
  found ← gets (λ db. disposable env db.compliance customer category rows)
  lift found

-- `_lock_retention_context`: the rows that it locks must be there.
unfoldable pub lock_context : ℕ → M Customer
lock_context customer = do c ← get_customer customer; _ ← get_organization c.organization; pure c

abbrev pub is_nil : List File → Bool
is_nil [] = true
is_nil (_ ∷ _) = false

unfoldable pub new_preview :
    Env → ℕ → Customer → Category → List File → Option Actor → RetentionDisposal
new_preview env pk customer category rows actor = record {
  pk = pk;
  customer = customer.pk;
  category = category;
  record_ids = map (λ f. f.pk) rows;
  snapshot_hash = digest env rows;
  expires_at = env.now + 24 * 3600;
  created_by = key_of actor;
  performed_at = none;
  performed_by = none;
  external_copies_evidence = [];
}

unfoldable pub preview_retention_disposal :
    Env → Customer → Category → Option Actor → M RetentionDisposal
preview_retention_disposal env customer category actor = do
  staff actor
  c ← lock_context customer.pk
  rows ← eligible_rows env c category
  raise_if (is_nil rows) nothing_to_dispose
  pk ← fresh
  let p = new_preview env pk c category rows actor
  modify (with_compliance λ t. record t { disposals = p ∷ t.disposals })
  audit env (signed_in actor) (codes "retention.disposal_previewed") pk
  pure p

abbrev pub is_member : List ℕ → ℕ → Bool
is_member ks k = any (λ j. j == k) ks

unfoldable pub keys_eq : List ℕ → List ℕ → Bool
keys_eq [] [] = true
keys_eq (a ∷ js) (b ∷ ks) = a == b && keys_eq js ks
keys_eq _ _ = false

-- The updates that suppress the contents.
unfoldable pub redact_tickets : List ℕ → M (Unit {0})
redact_tickets ids = modify (
    with_operations λ o. record o {
      tickets =
          update_where (λ t. is_member ids t.pk)
            (λ t. record t {
              subject = codes "Ticket archivado";
              description = redacted;
              resolution = redacted;
            })
            o.tickets;
    })

unfoldable pub redact_requests : List ℕ → M (Unit {0})
redact_requests ids = modify (
    with_compliance λ c. record c {
      arco_requests =
          update_where (λ r. is_member ids r.pk)
            (λ r. record r {
              description = redacted;
              identity_evidence = redacted;
              decision = redacted;
              implementation_evidence = redacted;
            })
            c.arco_requests;
      extensions =
          update_where (λ e. is_member ids e.request)
            (λ e. record e { reason = redacted; notification_evidence = redacted }) c.extensions;
    })

unfoldable pub redact : Category → List ℕ → M (Unit {0})
redact support_ticket_content ids = redact_tickets ids
redact arco_request_content ids = redact_requests ids

unfoldable pub performed : RetentionDisposal → Env → Option Actor → Text → RetentionDisposal
performed p env actor evidence = record p {
  performed_at = some env.now;
  performed_by = key_of actor;
  external_copies_evidence = strip evidence;
}

unfoldable pub save_disposal : RetentionDisposal → M (Unit {0})
save_disposal p = modify (
    with_compliance
      λ c. record c { disposals = update_where (λ x. x.pk == p.pk) (λ _. p) c.disposals })

-- The contents go, and the review is closed.
unfoldable pub suppress : Env → RetentionDisposal → Option Actor → Text → M RetentionDisposal
suppress env p actor evidence = do
  redact p.category p.record_ids
  let p' = performed p env actor evidence
  save_disposal p'
  audit env (signed_in actor) (codes "retention.content_redacted") p.pk
  pure p'

-- From the test of the list on.
unfoldable pub carry_out :
    Env → RetentionDisposal → List File → Option Actor → Text → M RetentionDisposal
carry_out env p rows actor evidence = do
  raise_if
      (not (keys_eq (map (λ f. f.pk) rows) p.record_ids)
        || not (text_eq (digest env rows) p.snapshot_hash))
      file_changed
  suppress env p actor evidence

-- The part of `execute_retention_disposal` for a review that was not carried out yet.
unfoldable pub execute_new : Env → RetentionDisposal → Option Actor → Text → M RetentionDisposal
execute_new env p actor evidence = do
  raise_if (leb p.expires_at env.now) expired_review
  customer ← lock_context p.customer
  rows ← eligible_rows env customer p.category
  carry_out env p (select (λ f. is_member p.record_ids f.pk) rows) actor evidence

unfoldable pub get_disposal : ℕ → M RetentionDisposal
get_disposal pk = do
  row ← gets (λ db. find (λ p. p.pk == pk) db.compliance.disposals)
  or_raise does_not_exist row

unfoldable pub execute_retention_disposal :
    Env → ℕ → Option Actor → Bool → Text → M RetentionDisposal
execute_retention_disposal env pk actor confirmed evidence = do
  staff actor
  raise_if (not confirmed || is_blank evidence) not_confirmed
  p ← get_disposal pk
  if is_some p.performed_at then pure p else execute_new env p actor evidence

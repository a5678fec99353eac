-- ===== src/Fiscal/Cancel.antt =====
-- `cancel_document` and `refresh_cancellation` of fiscal/services.py: one transaction before the
-- remote call and one after.
use fireisp.Prelude.{
  ℕ, Bool, true, false, not, ◌&&◌, ◌||◌, Option, none, some, ◌==◌, if◌then◌else◌, any, opt_eq,
}
use fireisp.Prelude.Text.{Text, codes, text_eq, is_empty}
use fireisp.Store.{
  M, ◌>>=◌, ◌>>◌, pure, gets, raise_if, bad_cancellation, not_stamped, related_documents, Env,
}
use fireisp.Store.Fiscal.{
  FiscalDocument, DocumentKind, income, global, DocumentStatus, stamped, submitting, uncertain,
  cancel_pending, cancelled, Fiscal, FiscalJob,
}
use fireisp.Core.{audit}
use fireisp.Fiscal.{claim_transaction, get_document, update_document, get_profile}
use fireisp.Fiscal.Queue.{is_reason}

-- `{'cancelled','cancel_pending'}`
abbrev pub is_cancelling : DocumentStatus → Bool
is_cancelling cancel_pending = true
is_cancelling cancelled = true
is_cancelling _ = false

abbrev pub is_exactly_stamped : DocumentStatus → Bool
is_exactly_stamped stamped = true
is_exactly_stamped _ = false

-- `{'stamped','submitting','uncertain','cancel_pending'}`
abbrev pub is_in_force : DocumentStatus → Bool
is_in_force stamped = true
is_in_force submitting = true
is_in_force uncertain = true
is_in_force cancel_pending = true
is_in_force _ = false

abbrev pub is_principal : DocumentKind → Bool
is_principal income = true
is_principal global = true
is_principal _ = false

-- The invoice is the document's own, or one of its batch.
unfoldable pub is_related_invoice : Fiscal → FiscalDocument → Option ℕ → Bool
is_related_invoice s d none = false
is_related_invoice s d (some v) = elim d.invoice [
  | none ↦ any (λ i. opt_eq d.global_batch (some i.batch) && i.invoice == v) s.global_items
  | some k ↦ k == v
]

-- A complement or a credit note in force of an invoice of the document.
unfoldable pub has_related : Fiscal → FiscalDocument → Bool
has_related s d =
    any (λ r. is_related_invoice s d r.invoice && not (is_principal r.kind) && is_in_force r.status)
      s.documents

-- The part of `cancel_document` before the PAC: whether a request goes out.
unfoldable pub begin_cancel : Env → ℕ → Text → Text → Option FiscalJob → M Bool
begin_cancel env pk reason replacement claim = do
  raise_if (not (is_reason reason) || text_eq reason (codes "01") && is_empty replacement)
      bad_cancellation
  claim_transaction env claim
  d ← get_document pk
  if is_cancelling d.status then pure false else do
    raise_if (not (is_exactly_stamped d.status)) not_stamped
    related ← gets (λ db. has_related db.fiscal d)
    raise_if (is_principal d.kind && related) related_documents
    _ ← get_profile d.organization
    update_document pk (λ r. record r {
      status = cancel_pending;
      cancellation_reason = reason;
      cancellation_replacement = replacement;
    })
    pure true

-- The acknowledgement with its code, a `ResponseError` of the PAC, or any other exception.
pub data CancelReply : Type 0 where
  acknowledged : Text → Text → CancelReply
  refused unanswered : CancelReply

-- The part of `cancel_document` after the PAC.
unfoldable pub settle_cancel : Env → ℕ → Option FiscalJob → Option ℕ → CancelReply → M Bool
settle_cancel env pk claim actor (acknowledged xml number) = do
  claim_transaction env claim
  update_document pk (λ r. record r { cancellation_xml = xml; cancellation_code = number })
  audit env actor (codes "fiscal.cancellation.requested") pk
  pure true
settle_cancel env pk claim actor refused = do
  claim_transaction env claim
  update_document pk (λ r. record r { status = stamped })
  pure false
settle_cancel env pk claim actor unanswered = do claim_transaction env claim; pure false

-- The part of `refresh_cancellation` after the SAT: whether it answered `Cancelado`.
unfoldable pub refresh_cancellation : Env → ℕ → Option FiscalJob → Option ℕ → Bool → M Bool
refresh_cancellation env pk claim actor true = do
  claim_transaction env claim
  update_document pk (λ r. record r { status = cancelled })
  audit env actor (codes "fiscal.cancellation.confirmed") pk
  pure true
refresh_cancellation env pk claim actor false = pure false

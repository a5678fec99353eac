-- ===== src/Fiscal/Stamp.antt =====
-- `_prepare_for_stamp` of fiscal/jobs.py and `stamp_document` of fiscal/services.py: one transaction
-- before the PAC is called and one after.
use fireisp.Prelude.{ℕ, Bool, true, false, not, ◌&&◌, Option, ◌∷◌, ltb, if◌then◌else◌}
use fireisp.Prelude.Text.{Text, codes, text_eq, is_empty}
use fireisp.Store.{
  M, ◌>>=◌, ◌>>◌, done, pure, raise_if, modify, with_fiscal, maybe_stamped, not_prepared, not_draft,
  Env,
}
use fireisp.Store.Fiscal.{
  FiscalDocument, DocumentStatus, draft, submitting, stamped, rejected, uncertain, cancel_pending,
  cancelled, FiscalJob,
}
use fireisp.Core.{audit}
use fireisp.Fiscal.{
  claim_transaction, get_document, update_document, get_profile, max_xml, utf8_length, bounded_xml,
}

abbrev pub is_draft : DocumentStatus → Bool
is_draft draft = true
is_draft _ = false

-- `{'stamped','cancelled','cancel_pending'}`
abbrev pub is_stamped : DocumentStatus → Bool
is_stamped stamped = true
is_stamped cancel_pending = true
is_stamped cancelled = true
is_stamped _ = false

-- `{'submitting','uncertain'}`
abbrev pub may_be_stamped : DocumentStatus → Bool
may_be_stamped submitting = true
may_be_stamped uncertain = true
may_be_stamped _ = false

unfoldable pub write_signed : Env → ℕ → Option ℕ → Text → ℕ → M (Unit {0})
write_signed env pk actor signed organization = do
  _ ← get_profile organization
  xml ← bounded_xml signed
  update_document pk (λ r. record r { request_xml = xml })
  audit env actor (codes "fiscal.document.signed") pk

unfoldable pub sign_document : Env → ℕ → Option ℕ → Text → FiscalDocument → M (Unit {0})
sign_document env pk actor signed d = if not (is_empty d.request_xml) then done else do
  raise_if (not (is_draft d.status)) not_draft
  write_signed env pk actor signed d.organization

-- `_prepare_for_stamp`, with the XML that the signer builds.
unfoldable pub prepare_for_stamp : Env → ℕ → Option ℕ → Option FiscalJob → Text → M (Unit {0})
prepare_for_stamp env pk actor claim signed = do
  claim_transaction env claim
  d ← get_document pk
  sign_document env pk actor signed d

unfoldable pub send_document : ℕ → Bool → FiscalDocument → M Bool
send_document pk recover d = if is_stamped d.status then pure false else do
  raise_if (may_be_stamped d.status && not recover) maybe_stamped
  raise_if (is_empty d.request_xml) not_prepared
  _ ← get_profile d.organization
  update_document pk (λ r. record r { status = submitting })
  pure true

-- The part of `stamp_document` before the PAC: whether a request goes out.
unfoldable pub begin_stamp : Env → ℕ → Bool → Option FiscalJob → M Bool
begin_stamp env pk recover claim = do
  claim_transaction env claim
  d ← get_document pk
  send_document pk recover d

-- What came of the request: the XML with its UUID and the one that the answer names, a
-- `ResponseError` of the PAC, or any other exception.
pub data Reply : Type 0 where
  returned : Text → Text → Text → Reply
  response_error failure : Reply

-- The status after an answer that does not stamp.
abbrev pub failed_status : Bool → Reply → DocumentStatus
failed_status false response_error = rejected
failed_status _ _ = uncertain

unfoldable pub record_stamp : Env → ℕ → Option FiscalJob → Option ℕ → Text → Text → M Bool
record_stamp env pk claim actor xml uuid = do
  claim_transaction env claim
  _ ← get_document pk
  update_document pk (λ r. record r { xml = xml; uuid = uuid; status = stamped })
  audit env actor (codes "fiscal.document.stamped") pk
  pure true

unfoldable pub record_failure : Env → ℕ → Option FiscalJob → DocumentStatus → M Bool
record_failure env pk claim status = do
  claim_transaction env claim
  modify (
      with_fiscal λ s. record s {
        fiscal_attempts = record { document = pk; outcome = status } ∷ s.fiscal_attempts;
      })
  update_document pk (λ r. record r { status = status })
  pure false

-- The part after the PAC: `true` where the document is stamped, `false` where the exception that is
-- raised at the end leaves the failure in the database.
unfoldable pub settle_stamp : Env → ℕ → Bool → Option FiscalJob → Option ℕ → Reply → M Bool
settle_stamp env pk recover claim actor (returned xml uuid document_id) =
    if not (ltb max_xml (utf8_length xml)) && text_eq (env.upper uuid) (env.upper document_id)
    then record_stamp env pk claim actor xml uuid
    else record_failure env pk claim uncertain
settle_stamp env pk recover claim actor response_error =
    record_failure env pk claim (failed_status recover response_error)
settle_stamp env pk recover claim actor failure =
    record_failure env pk claim (failed_status recover failure)

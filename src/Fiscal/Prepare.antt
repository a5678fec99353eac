-- ===== src/Fiscal/Prepare.antt =====
-- `prepare_document` of fiscal/services.py. The XML that the signer would build is an argument.
use fireisp.Prelude.{
  ℕ, Bool, true, false, not, ◌&&◌, ◌||◌, Option, none, some, [], ◌∷◌, ◌==◌, if◌then◌else◌, find,
  any, opt_eq,
}
use fireisp.Prelude.Text.{Text, codes, text_eq, is_empty}
use fireisp.Store.{
  M, ◌>>=◌, ◌>>◌, maybe, done, pure, gets, modify, raise_if, fresh, with_fiscal, void_invoice,
  reserved_global, bad_payment_method, unknown_form, foreign_allocation, pending_operation, Env,
}
use fireisp.Store.Fiscal.{
  FiscalDocument, DocumentKind, income, complement, DocumentStatus, draft, rejected, on_document,
}
use fireisp.Core.{audit, get_customer, get_invoice}
use fireisp.Fiscal.{
  is_active_job, target_eq, get_document, update_document, get_profile, bounded_xml,
}
use fireisp.Billing.Account.{is_void}

-- The allocation's key and its invoice.
abbrev pub AllocationRef : Type 0
AllocationRef = Option (ℕ × ℕ)

abbrev pub is_none : {A : Type 0} → Option A → Bool
is_none none = true
is_none (some _) = false

abbrev pub is_income : DocumentKind → Bool
is_income income = true
is_income _ = false

abbrev pub is_rejected : DocumentStatus → Bool
is_rejected rejected = true
is_rejected _ = false

-- `{'01','03','04','28','99'}`
unfoldable pub is_form : Text → Bool
is_form t =
    text_eq t (codes "01")
    || text_eq t (codes "03")
    || text_eq t (codes "04")
    || text_eq t (codes "28")
    || text_eq t (codes "99")

-- The document of an allocation, or the income document of an invoice.
unfoldable pub is_document_of : ℕ → AllocationRef → FiscalDocument → Bool
is_document_of invoice none d = is_income d.kind && opt_eq d.invoice (some invoice)
is_document_of invoice (some a) d = opt_eq d.allocation (some a.0)

-- The row that `get_or_create` writes.
abbrev pub new_document : ℕ → ℕ → ℕ → Text → Text → AllocationRef → FiscalDocument
new_document pk organization invoice method form allocation = record {
  pk = pk;
  kind = elim allocation [ none ↦ income | some _ ↦ complement ];
  organization = organization;
  invoice = some invoice;
  global_batch = none;
  allocation = elim allocation [ none ↦ none | some a ↦ some a.0 ];
  credit_memo = none;
  uuid = [];
  status = draft;
  payment_method = elim allocation [ none ↦ method | some _ ↦ codes "PPD" ];
  payment_form = elim allocation [ none ↦ form | some _ ↦ codes "99" ];
  request_xml = [];
  xml = [];
  pdf_content = [];
  pdf_source_sha256 = [];
  cancellation_xml = [];
  cancellation_reason = [];
  cancellation_replacement = [];
  cancellation_code = [];
}

unfoldable pub get_or_create : ℕ → ℕ → Text → Text → AllocationRef → M FiscalDocument
get_or_create organization invoice method form allocation = do
  known ← gets (λ db. find (is_document_of invoice allocation) db.fiscal.documents)
  maybe known
      (do
        pk ← fresh
        let d = let r = new_document pk organization invoice method form allocation in r
        modify (with_fiscal λ s. record s { documents = d ∷ s.documents })
        pure d)
      (λ d. pure d)

abbrev pub rebuilt : Text → Text → AllocationRef → Text → FiscalDocument → FiscalDocument
rebuilt method form allocation xml r = record r {
  payment_method = if is_none allocation then method else codes "PPD";
  payment_form = form;
  request_xml = xml;
  status = draft;
}

unfoldable pub write_rebuilt :
    Env → FiscalDocument → Option ℕ → (FiscalDocument → FiscalDocument) → M FiscalDocument
write_rebuilt env d actor f = do
  update_document d.pk f
  audit env actor (codes "fiscal.document.prepared") d.pk
  get_document d.pk

-- A document without a signed XML, or one that the PAC rejected, is built again.
unfoldable pub rebuild :
    Env → FiscalDocument → Text → Text → AllocationRef → Option ℕ → Bool → Text → M FiscalDocument
rebuild env d method form allocation actor defer_build signed =
    if is_empty d.request_xml || is_rejected d.status
    then (do
      xml ← if defer_build then pure [] else bounded_xml signed
      write_rebuilt env d actor (rebuilt method form allocation xml))
    else pure d

unfoldable pub keep_pending : FiscalDocument → Text → Text → AllocationRef → M FiscalDocument
keep_pending d method form allocation = do
  raise_if
      (is_none allocation && not (text_eq d.payment_method method && text_eq d.payment_form form))
      pending_operation
  pure d

-- `defer_build` with a request under way returns the document as it is.
unfoldable pub rebuild_unless_pending :
    Env → FiscalDocument → Text → Text → AllocationRef → Option ℕ → Bool → Text → M FiscalDocument
rebuild_unless_pending env d method form allocation actor defer_build signed = do
  pending ← gets (λ db.
      any (λ j. target_eq j.target (on_document d.pk) && is_active_job j.status) db.fiscal.jobs)
  if defer_build && pending
      then keep_pending d method form allocation
      else rebuild env d method form allocation actor defer_build signed

unfoldable pub check_terms : ℕ → Text → Text → AllocationRef → M (Unit {0})
check_terms invoice method form allocation = do
  reserved ← gets (λ db. any (λ i. i.invoice == invoice) db.fiscal.global_items)
  raise_if (is_none allocation && reserved) reserved_global
  raise_if
      (not (text_eq method (codes "PUE") || text_eq method (codes "PPD")) || not (is_form form))
      bad_payment_method
  raise_if (text_eq method (codes "PUE") && text_eq form (codes "99")) unknown_form
  maybe allocation done (λ a. raise_if (not (a.1 == invoice)) foreign_allocation)

unfoldable pub prepare_document :
    Env → ℕ → Option ℕ → Text → Text → AllocationRef → Bool → Text → M FiscalDocument
prepare_document env invoice actor method form allocation defer_build signed = do
  v ← get_invoice invoice
  raise_if (is_void v.status) void_invoice
  c ← get_customer v.customer
  _ ← get_profile c.organization
  check_terms v.pk method form allocation
  d ← get_or_create c.organization v.pk method form allocation
  rebuild_unless_pending env d method form allocation actor defer_build signed

-- ===== src/Fiscal.antt =====
-- fiscal/services.py and fiscal/jobs.py: fiscal documents and the durable jobs that stamp, cancel
-- and print them. The PAC, the SAT, the signer and the renderer are remote or third-party code: their
-- answers are arguments.
pub mod Queue
pub mod Jobs
pub mod Stamp
pub mod Cancel
pub mod Prepare
pub mod Machine
mod Tests
use fireisp.Prelude.{
  ℕ, ◌≡◌, refl, Bool, true, false, not, ◌&&◌, ◌||◌, Option, none, some, List, [], ◌∷◌, ltb, ◌==◌,
  if◌then◌else◌, find, update_where, ◌+◌, ◌*◌, opt_eq,
}
use fireisp.Prelude.Text.{Text, is_empty}
use fireisp.Store.{
  M, ◌>>=◌, ◌>>◌, maybe, done, pure, gets, modify, or_raise, raise_if, with_fiscal, does_not_exist,
  stale_claim, not_demo, no_credentials, xml_too_large, Env,
}
use fireisp.Store.Fiscal.{
  FiscalDocument, DocumentStatus, FiscalProfile, FiscalJob, JobStatus, queued, running, succeeded,
  failed, review, Operation, stamp, recover, cancel, cancellation_status, verify, pdf, Target,
  on_document, on_profile,
}

abbrev pub is_running : JobStatus → Bool
is_running running = true
is_running _ = false

-- `ACTIVE = ('queued', 'running')`
abbrev pub is_active_job : JobStatus → Bool
is_active_job queued = true
is_active_job running = true
is_active_job _ = false

abbrev pub target_eq : Target → Target → Bool
target_eq (on_document a) (on_document b) = a == b
target_eq (on_profile a) (on_profile b) = a == b
target_eq _ _ = false

-- `document_id`
abbrev pub document_of : Target → Option ℕ
document_of (on_document k) = some k
document_of (on_profile k) = none

-- A lease that ends after `now`.
abbrev pub is_leased : ℕ → Option ℕ → Bool
is_leased now none = false
is_leased now (some t) = ltb now t

-- The row of a job still belongs to the claim.
unfoldable pub holds : ℕ → FiscalJob → FiscalJob → Bool
holds now claim j =
    is_running j.status && opt_eq j.claim_token claim.claim_token && is_leased now j.lease_until

-- The fence of `claim_transaction`, at the head of each transaction of a worker.
unfoldable pub claim_transaction : Env → Option FiscalJob → M (Unit {0})
claim_transaction env none = done
claim_transaction env (some claim) = do
  row ← gets (λ db. find (λ j. j.pk == claim.pk) db.fiscal.jobs)
  maybe row (raise_if true stale_claim) (λ j. raise_if (not (holds env.now claim j)) stale_claim)

-- `FiscalDocument.objects.select_for_update().get(pk=...)`
unfoldable pub get_document : ℕ → M FiscalDocument
get_document pk = do
  row ← gets (λ db. find (λ d. d.pk == pk) db.fiscal.documents)
  or_raise does_not_exist row

-- `FiscalDocument.objects.filter(pk=pk).update(...)`
unfoldable pub update_document : ℕ → (FiscalDocument → FiscalDocument) → M (Unit {0})
update_document pk f =
    modify (with_fiscal λ s. record s { documents = update_where (λ d. d.pk == pk) f s.documents })

unfoldable pub update_job : ℕ → (FiscalJob → FiscalJob) → M (Unit {0})
update_job pk f =
    modify (with_fiscal λ s. record s { jobs = update_where (λ j. j.pk == pk) f s.jobs })

-- `_profile(organization)`
unfoldable pub get_profile : ℕ → M FiscalProfile
get_profile organization = do
  row ← gets (λ db. find (λ p. p.organization == organization) db.fiscal.profiles)
  p ← or_raise does_not_exist row
  raise_if (not p.is_demo || not p.demo_mode) not_demo
  raise_if (not p.has_credentials) no_credentials
  pure p

-- `MAX_XML_BYTES`, `bounded_xml`
abbrev pub max_xml : ℕ
max_xml = 2 * 1024 * 1024

-- `len(value.encode())`
unfoldable pub utf8_length : Text → ℕ
utf8_length [] = 0
utf8_length (c ∷ s) =
    (if ltb c 128 then 1 else if ltb c 2048 then 2 else if ltb c 65536 then 3 else 4)
    + utf8_length s

unfoldable pub bounded_xml : Text → M Text
bounded_xml xml = do raise_if (ltb max_xml (utf8_length xml)) xml_too_large; pure xml

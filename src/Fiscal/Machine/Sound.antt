-- ===== src/Fiscal/Machine/Sound.antt =====
-- The invariant of the workers: what the rows, and the rows with the workers, always satisfy.
pub mod Rows
pub mod Documents
pub mod Fence
pub mod Queue
pub mod Prepare
pub mod Leases
pub mod Hire
pub mod Stamp
pub mod Send
pub mod Settle
pub mod Answer
use fireisp.Prelude.{
  ℕ, ◌<◌, ◌≡◌, ◌≢◌, Bool, true, false, not, ◌&&◌, ◌||◌, Option, none, some, List, All,
}
use fireisp.Prelude.Text.{is_empty}
use fireisp.Prelude.Sort.{Distinct}
use fireisp.Prelude.Keys.{Pairwise}
use fireisp.Store.{Db}
use fireisp.Store.Fiscal.{
  FiscalDocument, DocumentStatus, draft, submitting, rejected, FiscalJob, Fiscal,
}
use fireisp.Fiscal.{document_of, is_running, is_active_job}
use fireisp.Fiscal.Jobs.{is_stamp}
use fireisp.Fiscal.Stamp.{is_stamped}
use fireisp.Fiscal.Machine.{
  Phase, ready, skipped, sending, answered, dismissed, Worker, is_recover, is_sending, Machine,
}

-- A document that may be sent to be stamped: it never was, or the PAC rejected it.
abbrev pub is_open : DocumentStatus → Bool
is_open draft = true
is_open rejected = true
is_open _ = false

-- A request to stamp that went out and was not rejected.
abbrev pub has_sent : Worker → Bool
has_sent w =
    is_stamp w.job.operation && (elim w.phase [ sending ↦ true | answered ↦ true | _ ↦ false ])

abbrev pub RunsFor : ℕ → FiscalJob → Type 0
RunsFor token j = (is_running j.status ≡ true) × (j.claim_token ≡ some token)

-- `finals` are keys of documents that are known to be stamped.
pub record DocumentOk (finals : ℕ → Bool) (next : ℕ) (d : FiscalDocument) : Type 0 where
  pub below : d.pk < next
  pub signed : is_empty d.request_xml ≡ true → is_open d.status ≡ true
  pub kept : finals d.pk ≡ true → is_stamped d.status ≡ true

pub record JobOk (next : ℕ) (j : FiscalJob) : Type 0 where
  pub below : j.pk < next
  pub token_below : (t : ℕ) → j.claim_token ≡ some t → t < next
  pub target_below : (d : ℕ) → document_of j.target ≡ some d → d < next

-- The unique constraint `one_active_fiscal_document_job`.
abbrev pub Apart : FiscalJob → FiscalJob → Type 0
Apart i j =
    (d : ℕ)
    → is_active_job i.status ≡ true
    → is_active_job j.status ≡ true
    → document_of i.target ≡ some d
    → document_of j.target ≢ some d

abbrev pub IsSubmitting : ℕ → List FiscalDocument → Type 0
IsSubmitting k = All (λ d. d.pk ≡ k → d.status ≡ submitting)

pub record WorkerOk (next : ℕ) (s : Fiscal) (w : Worker) : Type 0 where
  pub below : w.token < next
  pub document_below : w.document < next
  pub held : w.job.claim_token ≡ some w.token
  pub owned :
      All (λ j. j.claim_token ≡ some w.token → document_of j.target ≡ some w.document) s.jobs
  -- While the lease lasts nobody else touches the document of a request that is out.
  pub alone :
      is_sending w.phase ≡ true
      → All (λ j. RunsFor w.token j → IsSubmitting w.document s.documents) s.jobs
  pub sent : has_sent w ≡ true → All (λ d. d.pk ≡ w.document → is_open d.status ≡ false) s.documents

-- Two requests to stamp that were not rejected are for two documents.
abbrev pub OnlyOnce : Worker → Worker → Type 0
OnlyOnce w v = has_sent w ≡ true → has_sent v ≡ true → v.document ≢ w.document

pub record SoundAt (finals : ℕ → Bool) (ws : List Worker) (next : ℕ) (s : Fiscal) : Type 0 where
  pub finals_below : (k : ℕ) → finals k ≡ true → k < next
  pub documents : All (DocumentOk finals next) s.documents
  pub documents_apart : Distinct (λ d. d.pk) s.documents
  pub jobs : All (JobOk next) s.jobs
  pub jobs_apart : Distinct (λ j. j.pk) s.jobs
  pub active_apart : Pairwise Apart s.jobs
  pub workers : All (WorkerOk next s) ws
  pub workers_apart : Distinct (λ w. w.token) ws
  pub once : Pairwise OnlyOnce ws

abbrev pub Sound : (ℕ → Bool) → List Worker → Db → Type 0
Sound finals ws db = SoundAt finals ws db.next_pk db.fiscal

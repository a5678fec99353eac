-- ===== src/Fiscal/Jobs.antt =====
-- fiscal/jobs.py: the lease of a job, from its claim to its end or its recovery.
use fireisp.Prelude.{
  ℕ, zero, suc, ◌+◌, Bool, true, false, not, ◌&&◌, ◌||◌, Option, none, some, List, [], ◌∷◌, ltb,
  ◌==◌, if◌then◌else◌, find, select, map,
}
use fireisp.Prelude.Text.{codes, is_empty}
use fireisp.Store.{M, ◌>>=◌, ◌>>◌, maybe, done, pure, gets, or_raise, fresh, does_not_exist, Env}
use fireisp.Store.Fiscal.{
  FiscalDocument, DocumentStatus, submitting, uncertain, FiscalJob, JobStatus, queued, running,
  review, Operation, stamp, recover, cancel, cancellation_status,
}
use fireisp.Core.{audit}
use fireisp.Fiscal.{is_running, holds, document_of, get_document, update_document, update_job}

abbrev pub lease_seconds : ℕ
lease_seconds = 300

abbrev pub max_attempts : ℕ
max_attempts = 3

abbrev pub is_queued : JobStatus → Bool
is_queued queued = true
is_queued _ = false

-- The job as `claim_job` leaves it.
abbrev pub claimed : Env → ℕ → FiscalJob → FiscalJob
claimed env token j = record j {
  status = running;
  attempts = suc j.attempts;
  claim_token = some token;
  lease_until = some (env.now + lease_seconds);
}

unfoldable pub claim_job : Env → ℕ → M (Option FiscalJob)
claim_job env pk = do
  row ← gets (λ db. find (λ j. j.pk == pk) db.fiscal.jobs)
  maybe row (pure none) (λ j.
      if not (is_queued j.status) || ltb env.now j.available_at then pure none else do
        token ← fresh
        update_job pk (λ r. claimed env token r)
        pure (some (claimed env token j)))

abbrev pub finished : Env → JobStatus → FiscalJob → FiscalJob
finished env status j = record j { status = status; finished_at = some env.now; lease_until = none }

unfoldable pub end_job : Env → FiscalJob → JobStatus → M Bool
end_job env claim status = do
  update_job claim.pk (finished env status)
  audit env claim.actor (codes "fiscal.job.finished") claim.pk
  pure true

-- The last transaction of `run_job`: the result is written where the claim still holds.
unfoldable pub finish_job : Env → FiscalJob → JobStatus → M Bool
finish_job env claim status = do
  row ← gets (λ db. find (λ j. j.pk == claim.pk) db.fiscal.jobs)
  maybe row (pure false)
      (λ j. if holds env.now claim j then end_job env claim status else pure false)

-- `job.lease_until < timezone.now()`
abbrev pub has_expired : ℕ → FiscalJob → Bool
has_expired now j =
    is_running j.status && (elim j.lease_until [ none ↦ false | some t ↦ ltb t now ])

abbrev pub when_submitting : DocumentStatus → DocumentStatus
when_submitting submitting = uncertain
when_submitting s = s

-- The operation with which an interrupted job goes on; without a signed XML the PAC had nothing.
abbrev pub next_operation : Operation → FiscalDocument → Operation
next_operation stamp d = if is_empty d.request_xml then stamp else recover
next_operation cancel d = cancellation_status
next_operation o d = o

abbrev pub is_stamp : Operation → Bool
is_stamp stamp = true
is_stamp _ = false

abbrev pub is_cancel : Operation → Bool
is_cancel cancel = true
is_cancel _ = false

-- The job as the recovery leaves it.
abbrev pub released : Env → Operation → FiscalJob → FiscalJob
released env operation j = record j {
  operation = operation;
  payload = if is_cancel j.operation then none else j.payload;
  status = if ltb j.attempts max_attempts then queued else review;
  claim_token = none;
  lease_until = none;
  available_at = env.now;
  finished_at = if ltb j.attempts max_attempts then none else some env.now;
}

-- The document of an interrupted stamp may be stamped.
unfoldable pub mark_uncertain : FiscalJob → FiscalDocument → M (Unit {0})
mark_uncertain j d =
    if is_stamp j.operation
    then update_document d.pk (λ r. record r { status = when_submitting r.status })
    else done

unfoldable pub release_job : Env → FiscalJob → Operation → M ℕ
release_job env j operation = do
  update_job j.pk (λ r. released env operation r)
  audit env j.actor (codes "fiscal.job.interrupted") j.pk
  pure 1

-- One turn of the loop of `recover_expired_jobs`: its own transaction.
unfoldable pub recover_job : Env → ℕ → M ℕ
recover_job env pk = do
  row ← gets (λ db. find (λ j. j.pk == pk) db.fiscal.jobs)
  j ← or_raise does_not_exist row
  if not (has_expired env.now j)
      then pure 0
      else maybe (document_of j.target) (release_job env j j.operation) (λ k. do
        d ← get_document k
        mark_uncertain j d
        release_job env j (next_operation j.operation d))

unfoldable pub recover_each : Env → List ℕ → M ℕ
recover_each env [] = pure 0
recover_each env (pk ∷ pks) = do n ← recover_job env pk; m ← recover_each env pks; pure (n + m)

abbrev pub first : ℕ → List ℕ → List ℕ
first zero xs = []
first (suc n) [] = []
first (suc n) (x ∷ xs) = x ∷ first n xs

unfoldable pub recover_expired_jobs : Env → M ℕ
recover_expired_jobs env = do
  ids ← gets (λ db. first 100 (map (λ j. j.pk) (select (has_expired env.now) db.fiscal.jobs)))
  recover_each env ids

-- ===== src/Fiscal/Machine.antt =====
-- The workers that run fiscal jobs side by side: `run_job` of fiscal/jobs.py as the sequence of its
-- transactions, between which those of other workers, of the dispatcher and of the pages come. The
-- workers here are those of stamping and recovery.
pub mod Sound
pub mod Laws
use fireisp.Prelude.{
  ℕ, Bool, true, false, not, ◌&&◌, Option, none, some, List, [], ◌∷◌, ◌==◌, if◌then◌else◌, find,
  update_where, opt_eq,
}
use fireisp.Prelude.Text.{Text}
use fireisp.Store.{Db, M, Result, ok, err, Env}
use fireisp.Store.Fiscal.{
  FiscalJob, JobStatus, Operation, stamp, recover, cancel, cancellation_status, Target,
}
use fireisp.Fiscal.{document_of}
use fireisp.Fiscal.Queue.{Parameters, queue_job}
use fireisp.Fiscal.Jobs.{claim_job, finish_job, recover_job}
use fireisp.Fiscal.Stamp.{
  Reply, returned, response_error, failure, prepare_for_stamp, begin_stamp, settle_stamp,
}
use fireisp.Fiscal.Prepare.{AllocationRef, prepare_document}

-- Where a worker stands: before the PAC, where there was nothing to send, with a request out, after
-- an answer, or after the PAC rejected the document and the rejection was recorded.
pub data Phase : Type 0 where
  ready skipped sending answered dismissed : Phase

-- A worker has the job as `claim_job` returned it.
pub record Worker : Type 0 where
  pub job : FiscalJob
  pub token : ℕ
  pub document : ℕ
  pub phase : Phase

pub record Machine : Type 0 where
  pub db : Db
  pub workers : List Worker

abbrev pub is_recover : Operation → Bool
is_recover recover = true
is_recover _ = false

-- `job.operation in {'stamp', 'recover'}`
abbrev pub may_stamp : Operation → Bool
may_stamp stamp = true
may_stamp recover = true
may_stamp _ = false

abbrev pub is_ready : Phase → Bool
is_ready ready = true
is_ready _ = false

abbrev pub is_sending : Phase → Bool
is_sending sending = true
is_sending _ = false

-- One transaction, by whom and with what answer. A worker is named by its claim's token.
pub data Action : Type 0 where
  queue : Operation → Target → Parameters → Option ℕ → Option Text → Action
  prepare : ℕ → Option ℕ → Text → Text → AllocationRef → Bool → Text → Action
  expire : ℕ → Action
  claim : ℕ → Action
  sign : ℕ → Text → Action
  begin : ℕ → Action
  answer : ℕ → Reply → Action
  finish : ℕ → JobStatus → Action

-- A transaction outside the workers: an exception leaves the state as it was.
unfoldable pub commit : {A : Type 0} → M A → Machine → Machine
commit m s = elim (m s.db) [ ok p ↦ record s { db = p.1 } | err _ ↦ s ]

abbrev pub with_phase : ℕ → Phase → List Worker → List Worker
with_phase token phase = update_where (λ w. w.token == token) (λ w. record w { phase = phase })

-- A transaction of a worker, with the phase that it leaves the worker in.
unfoldable pub advance : ℕ → (Bool → Phase) → M Bool → Machine → Machine
advance token next m s = elim (m s.db) [
  | ok p ↦ record s { db = p.1; workers = with_phase token (next p.0) s.workers }
  | err _ ↦ s
]

-- A claimed job on a document starts a worker.
unfoldable pub hire : Option FiscalJob → List Worker → List Worker
hire none ws = ws
hire (some j) ws = elim j.claim_token [
  | none ↦ ws
  | some t ↦ elim (document_of j.target) [
    | none ↦ ws
    | some d ↦ record { job = j; token = t; document = d; phase = ready } ∷ ws
  ]
]

unfoldable pub take_job : Env → ℕ → Machine → Machine
take_job env pk s = elim (claim_job env pk s.db) [
  | ok p ↦ record s { db = p.1; workers = hire p.0 s.workers }
  | err _ ↦ s
]

abbrev pub find_worker : (Worker → Bool) → ℕ → List Worker → Option Worker
find_worker fits token = find (λ w. w.token == token && fits w)

abbrev pub after_begin : Bool → Phase
after_begin true = sending
after_begin false = skipped

-- A rejection that was recorded.
abbrev pub after_answer : Bool → Reply → Bool → Phase
after_answer false response_error false = dismissed
after_answer _ _ _ = answered

unfoldable pub with_worker : (Worker → Bool) → ℕ → (Worker → Machine → Machine) → Machine → Machine
with_worker fits token act s = elim (find_worker fits token s.workers) [
  | none ↦ s
  | some w ↦ act w s
]

abbrev pub stamps : Worker → Bool
stamps w = is_ready w.phase && may_stamp w.job.operation

abbrev pub waits : Worker → Bool
waits w = is_sending w.phase && may_stamp w.job.operation

-- One step at a time.
unfoldable pub step : Env → Action → Machine → Machine
step env (queue operation target parameters actor key) =
    commit (queue_job env operation target parameters actor key)
step env (prepare invoice actor method form allocation defer_build signed) =
    commit (prepare_document env invoice actor method form allocation defer_build signed)
step env (expire pk) = commit (recover_job env pk)
step env (claim pk) = take_job env pk
step env (sign token signed) =
    with_worker stamps token
      (λ w. commit (prepare_for_stamp env w.document w.job.actor (some w.job) signed))
step env (begin token) = with_worker stamps token (λ w.
    advance token after_begin
      (begin_stamp env w.document (is_recover w.job.operation) (some w.job)))
step env (answer token reply) = with_worker waits token (λ w.
    advance token (after_answer (is_recover w.job.operation) reply)
      (settle_stamp env w.document (is_recover w.job.operation) (some w.job) w.job.actor reply))
step env (finish token status) =
    with_worker (λ _. true) token (λ w. commit (finish_job env w.job status))

-- Any run, each step with its own clock.
unfoldable pub run : List (Env × Action) → Machine → Machine
run [] s = s
run (a ∷ rest) s = run rest (step a.0 a.1 s)

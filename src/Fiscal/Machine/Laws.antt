-- ===== src/Fiscal/Machine/Laws.antt =====
-- Any interleaving of the workers of stamping with the queue, the pages and the dispatcher.
use fireisp.Prelude.{
  ℕ, ◌<◌, ◌≡◌, Bool, true, false, ◌&&◌, some, List, [], ◌∷◌, All, All-map, All-zip_with, find-All,
  ◌==◌, ==_iff, arith, inl, inr, Option-cases,
}
use mathlib.Core.Path.{subst}
use fireisp.Prelude.Keys.{IsOnly, find-IsOnly, Pairwise}
use fireisp.Store.{M, Env}
use fireisp.Store.Ensures.{Ensures, Ensures-eq, Result-cases}
use fireisp.Store.Preserves.{Preserves}
use fireisp.Fiscal.Stamp.{is_stamped, begin_stamp, settle_stamp}
use fireisp.Fiscal.Jobs.{claim_job}
use fireisp.Fiscal.Machine.{
  Phase, Worker, Machine, Action, queue, prepare, expire, claim, sign, begin, answer, finish,
  is_recover, commit, advance, with_phase, hire, take_job, find_worker, with_worker, stamps, waits,
  after_begin, after_answer, step, run,
}
use fireisp.Fiscal.Machine.Sound.{DocumentOk, WorkerOk, Sound, OnlyOnce, has_sent, is_open}
use fireisp.Fiscal.Machine.Sound.Queue.{queue_job-Sound}
use fireisp.Fiscal.Machine.Sound.Prepare.{prepare_document-Sound}
use fireisp.Fiscal.Machine.Sound.Leases.{recover_job-Sound, finish_job-Sound}
use fireisp.Fiscal.Machine.Sound.Hire.{claim_job-Sound}
use fireisp.Fiscal.Machine.Sound.Stamp.{prepare_for_stamp-Sound}
use fireisp.Fiscal.Machine.Sound.Send.{begin_stamp-Sound}
use fireisp.Fiscal.Machine.Sound.Answer.{settle_stamp-Sound}

abbrev pub IsSound : (ℕ → Bool) → Machine → Type 0
IsSound finals m = Sound finals m.workers m.db

module _ (finals : ℕ → Bool) (m : Machine) (sound : IsSound finals m) where
  commit-IsSound :
      {A : Type 0} (t : M A) → Preserves (Sound finals m.workers) t → IsSound finals (commit t m)
  unfolding commit
  commit-IsSound t h = elim (Result-cases (t m.db)) [
    | inl (p, e) ↦
        rw (commit, e) (Ensures-eq (λ _ db'. Sound finals m.workers db') (h.at m.db sound) e)
    | inr (e, no_change) ↦ rw (commit, no_change) sound
  ]

  advance-IsSound :
      (token : ℕ) (next : Bool → Phase) (t : M Bool)
      → Ensures (λ b db'. Sound finals (with_phase token (next b) m.workers) db') (t m.db)
      → IsSound finals (advance token next t m)
  unfolding advance
  advance-IsSound token next t h = elim (Result-cases (t m.db)) [
    | inl (p, e) ↦
        rw (advance, e)
          (Ensures-eq (λ b db'. Sound finals (with_phase token (next b) m.workers) db') h e)
    | inr (e, no_change) ↦ rw (advance, no_change) sound
  ]

  take_job-IsSound : (env : Env) (pk : ℕ) → IsSound finals (take_job env pk m)
  unfolding take_job
  take_job-IsSound env pk = elim (Result-cases (claim_job env pk m.db)) [
    | inl (p, e) ↦
        rw (take_job, e)
          (Ensures-eq (λ r db'. Sound finals (hire r m.workers) db')
            (claim_job-Sound finals m.workers env pk m.db sound) e)
    | inr (e, no_change) ↦ rw (take_job, no_change) sound
  ]

  with_worker-IsSound :
      (fits : Worker → Bool) (token : ℕ) (act : Worker → Machine → Machine)
      → ((w : Worker)
          → find_worker fits token m.workers ≡ some w
          → w.token ≡ token
          → fits w ≡ true
          → IsOnly (λ v. v.token) w.token w m.workers
          → WorkerOk m.db.next_pk m.db.fiscal w
          → IsSound finals (act w m))
      → IsSound finals (with_worker fits token act m)
  unfolding with_worker
  with_worker-IsSound fits token act h = elim (Option-cases (find_worker fits token m.workers)) [
    | inl e ↦ rw (with_worker, e) sound
    | inr (w, e) ↦
        let it =
          find-All (WorkerOk m.db.next_pk m.db.fiscal) (λ v. v.token == token && fits v) m.workers
            sound.workers e in
        let own : w.token ≡ token = ground (arith, it.1) in
        rw (with_worker, e)
          (h w e own (ground (arith, it.1))
            (find-IsOnly (λ v. v.token) (λ v. v.token == token && fits v) w.token m.workers
              (λ v k. ground (arith, own, k)) sound.workers_apart e)
            it.0)
  ]

  -- Every step keeps the invariant.
  pub step-IsSound : (env : Env) (a : Action) → IsSound finals (step env a m)
  unfolding step
  step-IsSound env (queue operation target parameters actor key) =
      commit-IsSound _ (queue_job-Sound finals m.workers target env operation parameters actor key)
  step-IsSound env (prepare invoice actor method form allocation defer_build signed) =
      commit-IsSound _ (
        prepare_document-Sound finals m.workers env invoice actor method form allocation defer_build
          signed)
  step-IsSound env (expire pk) = commit-IsSound _ (recover_job-Sound env pk)
  step-IsSound env (claim pk) = take_job-IsSound env pk
  step-IsSound env (sign token signed) = with_worker-IsSound stamps token _ (λ w _ _ _ _ _.
      commit-IsSound _ (prepare_for_stamp-Sound env w.document w.job.actor w.job signed))
  step-IsSound env (begin token) = with_worker-IsSound stamps token _ (λ w _ own _ only ok_w.
      advance-IsSound token after_begin _ (
        subst
          (λ t.
            Ensures (λ b db'. Sound finals (with_phase t (after_begin b) m.workers) db')
              (begin_stamp env w.document (is_recover w.job.operation) (some w.job) m.db))
          own (begin_stamp-Sound finals m.workers env w m.db sound only ok_w)))
  step-IsSound env (answer token reply) =
      with_worker-IsSound waits token _ (λ w picked own fit only ok_w.
        advance-IsSound token (after_answer (is_recover w.job.operation) reply) _ (
          subst
            (λ t.
              Ensures
                (λ b db'.
                  Sound finals
                    (with_phase t (after_answer (is_recover w.job.operation) reply b) m.workers)
                    db')
                (settle_stamp env w.document (is_recover w.job.operation) (some w.job) w.job.actor
                  reply m.db))
            own
            (settle_stamp-Sound finals m.workers w env m.db _ picked sound only ok_w
              (ground (arith, fit)) (ground (arith, fit)) reply)))
  step-IsSound env (finish token status) =
      with_worker-IsSound (λ _. true) token _
        (λ w _ _ _ _ _. commit-IsSound _ (finish_job-Sound env w.job status))

run-IsSound :
    (finals : ℕ → Bool) (actions : List (Env × Action)) (m : Machine)
    → IsSound finals m
    → IsSound finals (run actions m)
unfolding run
run-IsSound finals [] m s = s
run-IsSound finals (a ∷ rest) m s =
    run-IsSound finals rest (step a.0 a.1 m) (step-IsSound finals m s a.0 a.1)

-- In any interleaving of the queue, the pages, the lease recovery and the workers that stamp or
-- recover, from a sound state: two requests to stamp that went out and were not recorded as
-- rejected by the PAC are for two different documents, and the document of such a request is
-- neither a draft nor rejected, so it cannot be sent again.
pub run-OnlyOnce :
    (actions : List (Env × Action)) (m : Machine)
    → IsSound (λ _. false) m
    → Pairwise OnlyOnce (run actions m).workers
      × All
          (λ w.
            has_sent w ≡ true
            → All
                (λ d. d.pk ≡ w.document → is_open d.status ≡ false)
                (run actions m).db.fiscal.documents)
          (run actions m).workers
run-OnlyOnce actions m s =
    let after = run-IsSound (λ _. false) actions m s in
    (after.once, All-map (WorkerOk _ _) _ _ (λ w ok_w. ok_w.sent) after.workers)

-- In any interleaving of the queue, the pages, the lease recovery and the workers that stamp or
-- recover, from a sound state: a document that is stamped, or whose cancellation was requested or
-- confirmed, stays so; no late answer, expired lease or new request takes it back.
pub run-stays_stamped :
    (actions : List (Env × Action)) (m : Machine) (k : ℕ)
    → IsSound (λ _. false) m
    → k < m.db.next_pk
    → All (λ d. d.pk ≡ k → is_stamped d.status ≡ true) m.db.fiscal.documents
    → All (λ d. d.pk ≡ k → is_stamped d.status ≡ true) (run actions m).db.fiscal.documents
run-stays_stamped actions m k s below stamped =
    let final : IsSound (λ n. n == k) m = record {
      finals_below = λ n e. ground (arith, below, e);
      documents =
          All-zip_with _ _ _ _
            (λ d h is. record {
              below = h.below;
              signed = h.signed;
              kept = λ e. is ((==_iff d.pk k).0 e);
            })
            s.documents stamped;
      documents_apart = s.documents_apart;
      jobs = s.jobs;
      jobs_apart = s.jobs_apart;
      active_apart = s.active_apart;
      workers = s.workers;
      workers_apart = s.workers_apart;
      once = s.once;
    } in
    let after = run-IsSound (λ n. n == k) actions m final in
    All-map (DocumentOk _ _) _ _ (λ d h e. h.kept ((==_iff d.pk k).1 e)) after.documents

-- ===== src/Fiscal/Machine/Sound/Hire.antt =====
-- `claim_job` gives a worker a token that nobody has, and keeps the invariant of the workers.
use fireisp.Prelude.{
  ℕ, suc, ◌≡◌, refl, Bool, true, not, ◌||◌, some, List, All-map, find, find-All, update_where, ◌==◌,
  arith, inl, inr, Bool-cases, Option-cases, ltb,
}
use fireisp.Prelude.Keys.{update-All}
use fireisp.Store.{Db, Env, ◌>>=◌, with_fiscal}
use fireisp.Store.Ensures.{Ensures}
use fireisp.Store.Fiscal.{FiscalJob, JobStatus}
use fireisp.Fiscal.{update_job, document_of, is_active_job}
use fireisp.Fiscal.Jobs.{is_queued, claimed, claim_job}
use fireisp.Fiscal.Machine.{Worker, hire}
use fireisp.Fiscal.Machine.Sound.{JobOk, WorkerOk, Sound}
use fireisp.Fiscal.Machine.Sound.Rows.{fresh-Sound, update_job-Sound}
use fireisp.Fiscal.Machine.Sound.Leases.{job_IsOnly}

queued-Active : (s : JobStatus) → is_queued s ≡ true → is_active_job s ≡ true
queued-Active s h = ground arith

module _ (finals : ℕ → Bool) (ws : List Worker) (env : Env) (db : Db) (s : Sound finals ws db)
    (pk : ℕ) (j : FiscalJob) (e : find (λ i. i.pk == pk) db.fiscal.jobs ≡ some j)
    (waiting : is_queued j.status ≡ true) where
  abbrev token : ℕ
  token = db.next_pk

  abbrev numbered : Db
  numbered = record db { next_pk = suc db.next_pk }

  abbrev taken : Db
  taken =
      with_fiscal
        (λ f. record f { jobs = update_where (λ i. i.pk == pk) (λ i. claimed env token i) f.jobs })
        numbered

  abbrev job_ok : JobOk db.next_pk j
  job_ok = (find-All (JobOk db.next_pk) (λ i. i.pk == pk) db.fiscal.jobs s.jobs e).0

  claimed-Sound : Sound finals ws taken
  claimed-Sound =
      update_job-Sound numbered pk j (λ i. claimed env token i) (job_IsOnly db s pk e) (λ _. refl)
        refl (λ _. queued-Active j.status waiting)
        (record {
          below = omega (arith, job_ok.below);
          token_below = λ t e'. let same : db.next_pk ≡ t = cc in omega (arith, same);
          target_below = λ d e'. omega (arith, job_ok.target_below d e');
        })
        (All-map (WorkerOk db.next_pk db.fiscal) _ ws
          (λ w ok e'.
            let same : db.next_pk ≡ w.token = cc in absurd (omega (arith, ok.below, same)))
          s.workers)
        (fresh-Sound db s)

  hired-Sound : Sound finals (hire (some (claimed env token j)) ws) taken
  unfolding hire
  hired-Sound = elim (Option-cases (document_of j.target)) [
    | inl nothing ↦ rw (hire, nothing) claimed-Sound
    | inr (d, target) ↦
        rw (hire, target)
          (let after = claimed-Sound in
            record {
              finals_below = after.finals_below;
              documents = after.documents;
              documents_apart = after.documents_apart;
              jobs = after.jobs;
              jobs_apart = after.jobs_apart;
              active_apart = after.active_apart;
              workers = (
                record {
                  below = omega arith;
                  document_below = omega (arith, job_ok.target_below d target);
                  held = refl;
                  owned =
                      update-All (λ i. i.pk) _ pk j (λ i. claimed env token i) db.fiscal.jobs
                        (job_IsOnly db s pk e) (λ _ _. target)
                        (All-map (JobOk db.next_pk) _ _
                          (λ i ok e'. absurd (omega (arith, ok.token_below db.next_pk e'))) s.jobs);
                  alone = λ h. cc;
                  sent = λ h. ground (arith, h);
                },
                after.workers,
              );
              workers_apart = (
                All-map (WorkerOk db.next_pk db.fiscal) _ ws
                    (λ w ok e'. omega (arith, ok.below, e')) s.workers,
                after.workers_apart,
              );
              once = (
                All-map (WorkerOk db.next_pk db.fiscal) _ ws (λ w _ h. ground (arith, h)) s.workers,
                after.once,
              );
            })
  ]

pub claim_job-Sound :
    (finals : ℕ → Bool) (ws : List Worker) (env : Env) (pk : ℕ) (db : Db)
    → Sound finals ws db
    → Ensures (λ r db'. Sound finals (hire r ws) db') (claim_job env pk db)
unfolding claim_job update_job hire
claim_job-Sound finals ws env pk db s =
    elim (Option-cases (find (λ i. i.pk == pk) db.fiscal.jobs)) [
      | inl e ↦ rw (◌>>=◌, e) s
      | inr (j, e) ↦ elim (Bool-cases (not (is_queued j.status) || ltb env.now j.available_at)) [
        | inl never ↦ rw (◌>>=◌, e, never) s
        | inr may ↦ rw (◌>>=◌, e, may) (hired-Sound finals ws env db s pk j e (ground (arith, may)))
      ]
    ]

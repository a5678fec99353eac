-- ===== src/Fiscal/Machine/Sound/Leases.antt =====
-- `recover_job` and `finish_job` keep the invariant of the workers.
use fireisp.Prelude.{
  ℕ, All-zip_with, ap, update_where, ◌≡◌, ◌∙◌, sym, refl, Bool, true, some, List, All, All-map,
  find, find-All, ◌==◌, arith, inl, inr, Bool-cases, Option-cases,
}
use fireisp.Prelude.Keys.{IsOnly, find-IsOnly, update-All_others, find-Pairwise, find-own}
use fireisp.Fiscal.Machine.Sound.Fence.{both, running-Active}
use fireisp.Store.Preserves.{Preserves}
use fireisp.Store.{with_fiscal, Db, Env, ◌>>=◌, ◌>>◌}
use fireisp.Store.Ensures.{Ensures}
use fireisp.Store.Fiscal.{FiscalDocument, FiscalJob, JobStatus, Operation}
use fireisp.Core.{audit}
use fireisp.Fiscal.{is_running, get_document, update_document, update_job, holds, document_of}
use fireisp.Fiscal.Jobs.{
  has_expired, is_stamp, released, release_job, mark_uncertain, when_submitting, next_operation,
  recover_job, finished, end_job, finish_job,
}
use fireisp.Fiscal.Machine.{Worker}
use fireisp.Fiscal.Machine.Sound.{DocumentOk, JobOk, WorkerOk, Apart, Sound}
use fireisp.Fiscal.Machine.Sound.Rows.{update_job-Sound}
use fireisp.Fiscal.Machine.Sound.Documents.{Spares, update_document-Sound}

pub job_IsOnly :
    {finals : ℕ → Bool} {ws : List Worker} (db : Db) (s : Sound finals ws db) (k : ℕ)
    {j : FiscalJob}
    → find (λ i. i.pk == k) db.fiscal.jobs ≡ some j
    → IsOnly (λ i. i.pk) k j db.fiscal.jobs
job_IsOnly db s k e =
    find-IsOnly _ (λ i. i.pk == k) k db.fiscal.jobs (λ i h. ground arith) s.jobs_apart e

pub document_IsOnly :
    {finals : ℕ → Bool} {ws : List Worker} (db : Db) (s : Sound finals ws db) (k : ℕ)
    {d : FiscalDocument}
    → find (λ e. e.pk == k) db.fiscal.documents ≡ some d
    → IsOnly (λ e. e.pk) k d db.fiscal.documents
document_IsOnly db s k e =
    find-IsOnly _ (λ i. i.pk == k) k db.fiscal.documents (λ i h. ground arith) s.documents_apart e

pub finish_job-Sound_of :
    (finals : ℕ → Bool) (ws : List Worker) (env : Env) (claim j : FiscalJob) (status : JobStatus)
    (db : Db)
    → Sound finals ws db
    → find (λ i. i.pk == claim.pk) db.fiscal.jobs ≡ some j
    → holds env.now claim j ≡ true
    → Ensures (λ _ db'. Sound finals ws db') (end_job env claim status db)
unfolding end_job update_job audit holds
finish_job-Sound_of finals ws env claim j status db s e held =
    let ok = (find-All (JobOk db.next_pk) (λ i. i.pk == claim.pk) db.fiscal.jobs s.jobs e).0 in
    let runs = (both _ _ _ held).0 in
    update_job-Sound db claim.pk j (finished env status) (job_IsOnly db s claim.pk e) (λ _. refl)
      refl (λ _. running-Active j.status runs)
      (record { below = ok.below; token_below = ok.token_below; target_below = ok.target_below })
      (All-map (WorkerOk db.next_pk db.fiscal) _ ws (λ w _ e'. (e', λ _. runs)) s.workers) s

pub finish_job-Sound :
    {finals : ℕ → Bool} {ws : List Worker} (env : Env) (claim : FiscalJob) (status : JobStatus)
    → Preserves (Sound finals ws) (finish_job env claim status)
unfolding finish_job
finish_job-Sound {finals} {ws} env claim status = record {
  at = λ db s. elim (Option-cases (find (λ i. i.pk == claim.pk) db.fiscal.jobs)) [
    | inl e ↦ rw (◌>>=◌, e) s
    | inr (j, e) ↦ elim (Bool-cases (holds env.now claim j)) [
      | inl held ↦
          rw (◌>>=◌, e, held) (finish_job-Sound_of finals ws env claim j status db s e held)
      | inr lost ↦ rw (◌>>=◌, e, lost) s
    ]
  ];
}

abbrev marked : FiscalDocument → FiscalDocument
marked r = record r { status = when_submitting r.status }

expired-IsRunning :
    (now : ℕ) (j : FiscalJob) → has_expired now j ≡ true → is_running j.status ≡ true
expired-IsRunning now j h = ground arith

module _ (finals : ℕ → Bool) (ws : List Worker) (env : Env) (j : FiscalJob) (db : Db)
    (s : Sound finals ws db) (e : find (λ i. i.pk == j.pk) db.fiscal.jobs ≡ some j)
    (runs : is_running j.status ≡ true) (operation : Operation) where
  abbrev freed : Db
  freed =
      with_fiscal
        (λ f. record f {
          jobs = update_where (λ i. i.pk == j.pk) (λ i. released env operation i) f.jobs;
        })
        db

  -- The job alone.
  release_job-Sound : Sound finals ws freed
  release_job-Sound =
      let ok = (find-All (JobOk db.next_pk) (λ i. i.pk == j.pk) db.fiscal.jobs s.jobs e).0 in
      update_job-Sound db j.pk j (λ i. released env operation i) (job_IsOnly db s j.pk e)
        (λ _. refl) refl (λ _. running-Active j.status runs)
        (record { below = ok.below; token_below = λ t e'. cc; target_below = ok.target_below })
        (All-map (WorkerOk db.next_pk db.fiscal) _ ws (λ w _ e'. cc) s.workers) s

  -- Nobody else has a request out for the job's document.
  released-Spares :
      (d : FiscalDocument) (d' : FiscalDocument)
      → document_of j.target ≡ some d.pk
      → All
          (Spares
            (update_where (λ i. i.pk == j.pk) (λ i. released env operation i) db.fiscal.jobs)
            d
            d')
          ws
  released-Spares d d' mine =
      All-map (WorkerOk db.next_pk db.fiscal) _ ws
        (λ g ok out.
          update-All_others (λ i. i.pk) _ j.pk j (λ i. released env operation i) db.fiscal.jobs
            (job_IsOnly db s j.pk e) (λ r. absurd (let x = r.1 in cc))
            (All-zip_with _ _ _ db.fiscal.jobs
              (λ i near owned other r same _. elim near [
                | inl is ↦ absurd (other (ap (λ u. u.pk) is))
                | inr (inl apart) ↦ absurd (
                    apart d.pk (running-Active j.status runs) (running-Active i.status r.0) mine
                      (owned r.1 ∙ ap some (sym same)))
                | inr (inr apart) ↦ absurd (
                    apart d.pk (running-Active i.status r.0) (running-Active j.status runs)
                      (owned r.1 ∙ ap some (sym same)) mine)
              ])
              (find-Pairwise Apart (λ i. i.pk == j.pk) db.fiscal.jobs s.active_apart e) ok.owned))
        s.workers

  -- The job, with its document marked as uncertain.
  uncertain-Sound :
      (d : FiscalDocument)
      → find (λ x. x.pk == d.pk) db.fiscal.documents ≡ some d
      → document_of j.target ≡ some d.pk
      → Sound finals ws (
          with_fiscal
            (λ f. record f {
              jobs = update_where (λ i. i.pk == j.pk) (λ i. released env operation i) f.jobs;
              documents = update_where (λ x. x.pk == d.pk) marked f.documents;
            })
            db)
  uncertain-Sound d found mine =
      let ok =
        (find-All (DocumentOk finals db.next_pk) (λ x. x.pk == d.pk) db.fiscal.documents s.documents
          found).0 in
      update_document-Sound freed d.pk d marked (document_IsOnly db s d.pk found) (λ _. refl)
        (record {
          below = ok.below;
          signed = λ h. ground (arith, ok.signed h);
          kept = λ h. ground (arith, ok.kept h);
        })
        (released-Spares d (marked d) mine)
        (All-map (WorkerOk db.next_pk db.fiscal) _ ws (λ g _ _ _ h. ground arith) s.workers)
        release_job-Sound

  released-Ensures : Ensures (λ _ db'. Sound finals ws db') (release_job env j operation db)
  unfolding release_job update_job audit
  released-Ensures = release_job-Sound

  marked-Ensures :
      (d : FiscalDocument)
      → find (λ x. x.pk == d.pk) db.fiscal.documents ≡ some d
      → document_of j.target ≡ some d.pk
      → Ensures
          (λ _ db'. Sound finals ws db')
          ((mark_uncertain j d >> release_job env j operation) db)
  unfolding mark_uncertain release_job update_job update_document audit
  marked-Ensures d found mine = elim (Bool-cases (is_stamp j.operation)) [
    | inl stamping ↦ rw (◌>>=◌, stamping) (uncertain-Sound d found mine)
    | inr other ↦ rw (◌>>=◌, other) release_job-Sound
  ]

pub recover_job-Sound :
    {finals : ℕ → Bool} {ws : List Worker} (env : Env) (pk : ℕ)
    → Preserves (Sound finals ws) (recover_job env pk)
unfolding recover_job get_document
recover_job-Sound {finals} {ws} env pk = record {
  at = λ db s. elim (Option-cases (find (λ i. i.pk == pk) db.fiscal.jobs)) [
    | inl e ↦ rw (◌>>=◌, e) tt
    | inr (j, e) ↦
        let own = (find-own _ pk db.fiscal.jobs j e).1 in
        elim (Bool-cases (has_expired env.now j)) [
          | inr not_yet ↦ rw (◌>>=◌, e, not_yet) s
          | inl expired ↦
              let runs = expired-IsRunning env.now j expired in
              elim (Option-cases (document_of j.target)) [
                | inl t ↦
                    rw (◌>>=◌, e, expired, t)
                      (released-Ensures finals ws env j db s own runs j.operation)
                | inr (k, t) ↦ elim (Option-cases (find (λ d. d.pk == k) db.fiscal.documents)) [
                  | inl lost ↦ rw (◌>>=◌, e, expired, t, lost) tt
                  | inr (d, found) ↦
                      let its = find-own (λ x. x.pk) k db.fiscal.documents d found in
                      rw (◌>>=◌, e, expired, t, found)
                        (marked-Ensures finals ws env j db s own runs (next_operation j.operation d)
                          d its.1 (t ∙ ap some (sym its.0)))
                ]
              ]
        ]
  ];
}

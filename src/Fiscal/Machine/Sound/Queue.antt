-- ===== src/Fiscal/Machine/Sound/Queue.antt =====
-- `queue_job` keeps the invariant of the workers.
use fireisp.Prelude.{
  ℕ, suc, ◌<◌, ◌≡◌, refl, Bool, true, false, ◌&&◌, Option, some, List, All, All-map, find, find-All,
  any, ◌==◌, arith, inl, inr, Bool-cases, Option-cases,
}
use fireisp.Prelude.Keys.{find-none}
use fireisp.Prelude.Text.{Text}
use fireisp.Store.{Db, Env, ◌>>=◌, maybe, done}
use fireisp.Store.Ensures.{Ensures, Ensures-bind}
use fireisp.Store.Preserves.{
  Preserves, Preserves-then, Preserves-raise_if, Preserves-via, preserves_rules,
}
use fireisp.Store.Fiscal.{
  FiscalDocument, FiscalJob, Operation, stamp, recover, cancel, cancellation_status, verify, pdf,
  Target, on_document, on_profile, Payload,
}
use fireisp.Core.{audit}
use fireisp.Fiscal.{document_of, target_eq, is_active_job, get_document}
use fireisp.Fiscal.Queue.{
  Parameters, lock_target, check_document, create_job, keep_active, keep_known, enter_job,
  request_job, queue_job,
}
use fireisp.Fiscal.Machine.{Worker}
use fireisp.Fiscal.Machine.Sound.{DocumentOk, Sound}
use fireisp.Fiscal.Machine.Sound.Rows.{fresh-Sound, new_job-Sound}

one_target :
    (a b : Target) (d : ℕ) → document_of a ≡ some d → document_of b ≡ some d → target_eq b a ≡ true
one_target (on_document a) (on_document b) d e h = ground arith
one_target (on_document a) (on_profile b) d e h = cc
one_target (on_profile a) b d e h = cc

check_document-Preserves :
    {P : Db → Type 0} (operation : Operation) (d : FiscalDocument)
    → Preserves P (check_document operation d)
unfolding check_document
check_document-Preserves stamp d = search preserves_rules
check_document-Preserves recover d = search preserves_rules
check_document-Preserves cancel d = search preserves_rules
check_document-Preserves cancellation_status d = search preserves_rules
check_document-Preserves verify d = search preserves_rules
check_document-Preserves pdf d = search preserves_rules

lock_target-Known :
    (finals : ℕ → Bool) (ws : List Worker) (target : Target) (db : Db)
    → Sound finals ws db
    → Ensures
        (λ _ db'. Sound finals ws db' × ((d : ℕ) → document_of target ≡ some d → d < db'.next_pk))
        (lock_target target db)
unfolding lock_target get_document
lock_target-Known finals ws (on_document k) db s =
    elim (Option-cases (find (λ d. d.pk == k) db.fiscal.documents)) [
      | inl e ↦ rw (◌>>=◌, e) tt
      | inr (row, e) ↦
          let it =
            find-All (DocumentOk finals db.next_pk) (λ d. d.pk == k) db.fiscal.documents s.documents
              e in
          rw (◌>>=◌, e) (s, λ d h. let same : k ≡ d = cc in ground (arith, it.0.below, it.1, same))
    ]
lock_target-Known finals ws (on_profile k) db s =
    elim (Bool-cases (any (λ p. p.pk == k) db.fiscal.profiles)) [
      | inl e ↦ rw (◌>>=◌, e) (s, λ d h. cc)
      | inr e ↦ rw (◌>>=◌, e) tt
    ]

module _ (finals : ℕ → Bool) (ws : List Worker) (target : Target) where
  -- The target's row is there.
  abbrev Known : Db → Type 0
  Known db = Sound finals ws db × ((d : ℕ) → document_of target ≡ some d → d < db.next_pk)

  -- No active job is for the target.
  abbrev Vacant : Db → Type 0
  Vacant db =
      Known db
      × All (λ j. (target_eq j.target target && is_active_job j.status) ≡ false) db.fiscal.jobs

  keep_active-Preserves :
      (operation : Operation) (payload : Payload) (j : FiscalJob)
      → Preserves Known (keep_active operation payload j)
  unfolding keep_active
  keep_active-Preserves operation payload j = search preserves_rules

  keep_known-Preserves :
      (operation : Operation) (payload : Payload) (j : FiscalJob)
      → Preserves Known (keep_known operation target payload j)
  unfolding keep_known
  keep_known-Preserves operation payload j = search preserves_rules

  create_job-Sound :
      (env : Env) (operation : Operation) (payload : Payload) (actor : Option ℕ) (key : Option Text)
      (db : Db)
      → Vacant db
      → Ensures (λ _ db'. Known db') (create_job env operation target payload actor key db)
  unfolding create_job audit
  create_job-Sound env operation payload actor key db v = (
    new_job-Sound (record db { next_pk = suc db.next_pk }) _ (fresh-Sound db v.0.0)
        (record {
          below = omega arith;
          token_below = λ t e. cc;
          target_below = λ d e. omega (arith, v.0.1 d e);
        })
        refl (All-map _ _ _ (λ i h e. omega (arith, h.below)) v.0.0.jobs)
        (All-map _ _ _
          (λ i vacant d _ active e e'.
            let same = one_target target i.target d e e' in ground (arith, vacant))
          v.1),
    λ d e. omega (arith, v.0.1 d e),
  )

  enter_job-Known :
      (env : Env) (operation : Operation) (document : Option FiscalDocument) (payload : Payload)
      (actor : Option ℕ) (key : Option Text)
      → Preserves Known (enter_job env operation target document payload actor key)
  unfolding enter_job
  enter_job-Known env operation document payload actor key = record {
    at = λ db known.
        elim (Option-cases
          (find (λ j. target_eq j.target target && is_active_job j.status) db.fiscal.jobs)) [
            | inl free ↦ rw free (
                let checked : Preserves Vacant (maybe document done (check_document operation)) =
                  search (preserves_rules, check_document-Preserves) in
                Ensures-bind (λ _ d. Vacant d) (λ _ d. Known d)
                  (maybe document done (check_document operation))
                  (λ _. create_job env operation target payload actor key) db
                  (checked.at db (known, find-none _ _ free))
                  (λ _ d v. create_job-Sound env operation payload actor key d v))
            | inr (j, found) ↦ rw found ((keep_active-Preserves operation payload j).at db known)
          ];
  }

  request_job-Known :
      (env : Env) (operation : Operation) (document : Option FiscalDocument)
      (parameters : Parameters) (actor : Option ℕ) (key : Option Text)
      → Preserves Known (request_job env operation target document parameters actor key)
  unfolding request_job
  request_job-Known env operation document parameters actor key =
      search (preserves_rules, enter_job-Known, keep_known-Preserves)

  -- A queued job keeps the invariant.
  pub queue_job-Sound :
      (env : Env) (operation : Operation) (parameters : Parameters) (actor : Option ℕ)
      (key : Option Text)
      → Preserves (Sound finals ws) (queue_job env operation target parameters actor key)
  unfolding queue_job
  queue_job-Sound env operation parameters actor key = Preserves-then (Preserves-raise_if _ _) (
      Preserves-via (lock_target target) _ (lock_target-Known finals ws target)
        (λ document. request_job-Known env operation document parameters actor key) (λ _ k. k.0))

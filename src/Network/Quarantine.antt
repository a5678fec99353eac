-- ===== src/Network/Quarantine.antt =====
-- What `recover_interrupted_jobs` leaves behind.
use fireisp.Prelude.{
  ℕ, ◌∙◌, ◌⊎◌, All, ◌≡◌, refl, sym, Bool, true, false, ◌&&◌, inl, inr, some, List, [], ◌∷◌, ◌==◌,
  arith, find, any, select, length, update_where, Bool-cases,
}
use fireisp.Prelude.Exists.{Exists, Count, refuted, any-Reflects, select-Count}
use fireisp.Prelude.Updates.{find-update_where}
use fireisp.Network.Interrupted.{WasLeft, is_interrupted-Reflects}
use fireisp.Store.{Db, Env, ok}
use fireisp.Store.Network.{Network, Router, ProvisioningJob, RunStatus}
use fireisp.Store.Ensures.{Ensures, Ensures-bind, Ensures-eq}
use fireisp.Store.Preserves.{Preserves, Preserves-modify, preserves_rules}
use fireisp.Network.{
  NodeLease, is_at, is_interrupted, quarantined, quarantine, save_node, check,
  recover_interrupted_jobs,
}
use fireisp.Store.Network.{NetworkNode}

abbrev block : Router → Router
block r = record r { execution_blocked = true }

is_at_blocked :
    (p : Router → Bool) (routers : List Router) (node : ℕ) (j : ProvisioningJob)
    → is_at (update_where p block routers) node j ≡ is_at routers node j
unfolding is_at
is_at_blocked p [] node j = refl
is_at_blocked p (r ∷ rs) node j =
    let rest = is_at_blocked p rs node j in
    elim (Bool-cases (p r)) [ inl hit ↦ rw (hit, rest) refl | inr miss ↦ rw (miss, rest) refl ]

-- No job is left behind, whatever routers are blocked.
none_left :
    (p : Router → Bool) (routers : List Router) (l : NodeLease) (now : ℕ)
    (jobs : List ProvisioningJob)
    → All
        (λ j. ¬ WasLeft (update_where p block routers) l now j)
        (update_where (is_interrupted routers l now) (quarantined now) jobs)
none_left p routers l now [] = tt
none_left p routers l now (j ∷ js) =
    let rest = none_left p routers l now js in
    let after = update_where p block routers in
    elim (Bool-cases (is_interrupted routers l now j)) [
      | inl hit ↦ rw hit (
        refuted (is_interrupted-Reflects after l now (quarantined now j))
            (unfold is_interrupted quarantined in refl),
        rest,
      )
      | inr miss ↦ rw miss (
        refuted (is_interrupted-Reflects after l now j)
            (stays after (is_at_blocked p routers l.node j) miss),
        rest,
      )
    ]
  where
    stays :
        (after : List Router)
        → is_at after l.node j ≡ is_at routers l.node j
        → is_interrupted routers l now j ≡ false
        → is_interrupted after l now j ≡ false
    stays after same miss = unfold is_interrupted in (rw same miss)

any-select :
    {A : Type 0} (p q : A → Bool) (xs : List A) → any q (select p xs) ≡ any (λ x. p x && q x) xs
any-select p q [] = refl
any-select p q (x ∷ xs) =
    let rest = any-select p q xs in
    elim (Bool-cases (p x)) [ inl hit ↦ rw (hit, rest) refl | inr miss ↦ rw (miss, rest) refl ]

module _ (jobs : List ProvisioningJob) (routers : List Router) (l : NodeLease) (now : ℕ)
    (w : Network) where
  -- Exactly a job that was left behind is failed.
  abbrev pub IsJobAfter : ℕ → ProvisioningJob → Type 0
  IsJobAfter k j =
      (WasLeft routers l now j
        × (find (λ x. x.pk == k) w.jobs
            ≡ some (record j { status = RunStatus.failed; finished_at = some now })))
      ⊎ ((¬ WasLeft routers l now j) × (find (λ x. x.pk == k) w.jobs ≡ some j))

  -- Exactly a router with such a job is blocked.
  abbrev pub IsRouterAfter : ℕ → Router → Type 0
  IsRouterAfter m r =
      let Owns : Type 0 = Exists (λ x. WasLeft routers l now x × (x.router ≡ r.pk)) jobs in
      (Owns × (find (λ x. x.pk == m) w.routers ≡ some (record r { execution_blocked = true })))
      ⊎ ((¬ Owns) × (find (λ x. x.pk == m) w.routers ≡ some r))

-- The rows that `check` does not write.
abbrev HasRows : List ProvisioningJob → List Router → Db → Type 0
HasRows jobs routers db = (db.network.jobs ≡ jobs) × (db.network.routers ≡ routers)

check-HasRows :
    (jobs : List ProvisioningJob) (routers : List Router) (env : Env) (connected : Bool)
    (l : NodeLease)
    → Preserves (HasRows jobs routers) (check env connected l)
unfolding check
check-HasRows jobs routers env connected l = search (preserves_rules, save_node-HasRows) depth 12
  where
    save_node-HasRows : (n : NetworkNode) → Preserves (HasRows jobs routers) (save_node n)
    save_node-HasRows n = unfold save_node in Preserves-modify _ λ db h. h

-- What became of the jobs and the routers that were there.
record IsQuarantined (jobs : List ProvisioningJob) (routers : List Router) (l : NodeLease)
    (now count : ℕ) (w : Network) : Type 0 where
  counted : count ≡ length (select (is_interrupted routers l now) jobs)
  rows : w.jobs ≡ update_where (is_interrupted routers l now) (quarantined now) jobs
  stopped :
      w.routers
      ≡ update_where
          (λ r. any (λ j. j.router == r.pk) (select (is_interrupted routers l now) jobs))
          block
          routers

recover-IsQuarantined :
    (env : Env) (connected : Bool) (l : NodeLease) (db : Db)
    → Ensures
        (λ count d. IsQuarantined db.network.jobs db.network.routers l env.now count d.network)
        (recover_interrupted_jobs env connected l db)
unfolding recover_interrupted_jobs quarantine
recover-IsQuarantined env connected l db =
    Ensures-bind (λ _ d. HasRows db.network.jobs db.network.routers d)
      (λ count d. IsQuarantined db.network.jobs db.network.routers l env.now count d.network)
      (check env connected l) _ db
      ((check-HasRows db.network.jobs db.network.routers env connected l).at db (refl, refl))
      (λ _ d (same_jobs, same_routers). record {
        counted = rw (same_jobs, same_routers) refl;
        rows = rw (same_jobs, same_routers) refl;
        stopped = rw (same_jobs, same_routers) refl;
      })

module _ (jobs : List ProvisioningJob) (routers : List Router) (l : NodeLease) (now count : ℕ)
    (w : Network) (h : IsQuarantined jobs routers l now count w) where
  job_after :
      (k : ℕ) (j : ProvisioningJob)
      → find (λ x. x.pk == k) jobs ≡ some j
      → IsJobAfter jobs routers l now w k j
  unfolding quarantined
  job_after k j found =
      let moved =
        find-update_where (λ x. x.pk) (is_interrupted routers l now) (quarantined now) (λ _. refl) k
          jobs found in
      elim (Bool-cases (is_interrupted routers l now j)) [
        | inl hit ↦
            inl ((is_interrupted-Reflects routers l now j).0 hit, rw (h.rows, moved, hit) refl)
        | inr miss ↦
            inr (
              refuted (is_interrupted-Reflects routers l now j) miss,
              rw (h.rows, moved, miss) refl,
            )
      ]

  router_after :
      (m : ℕ) (r : Router)
      → find (λ x. x.pk == m) routers ≡ some r
      → IsRouterAfter jobs routers l now w m r
  router_after m r found =
      let p : Router → Bool =
        λ x. any (λ j. j.router == x.pk) (select (is_interrupted routers l now) jobs) in
      let listed : p r ≡ any (λ x. is_interrupted routers l now x && x.router == r.pk) jobs =
        any-select (is_interrupted routers l now) (λ j. j.router == r.pk) jobs in
      let owns =
        any-Reflects (λ x. is_interrupted routers l now x && x.router == r.pk)
          (λ x. WasLeft routers l now x × (x.router ≡ r.pk)) jobs
          (λ x. (
            λ e. (
              (is_interrupted-Reflects routers l now x).0 (ground (arith, e)),
              ground (arith, e),
            ),
            λ e.
                let left = (is_interrupted-Reflects routers l now x).1 e.0 in
                ground (arith, left, e.1),
          )) in
      let moved = find-update_where (λ x. x.pk) p block (λ _. refl) m routers found in
      elim (Bool-cases (p r)) [
        | inl hit ↦ inl (owns.0 (sym listed ∙ hit), rw (h.stopped, moved, hit) refl)
        | inr miss ↦ inr (refuted owns (sym listed ∙ miss), rw (h.stopped, moved, miss) refl)
      ]

  quiet_after : All (λ j. ¬ WasLeft w.routers l now j) w.jobs
  quiet_after = rw (h.stopped, h.rows) (none_left _ routers l now jobs)

  counted_rows : Count (WasLeft routers l now) jobs count
  counted_rows = rw h.counted (
      select-Count (is_interrupted routers l now) (WasLeft routers l now) jobs
        (is_interrupted-Reflects routers l now))

-- After a recover_interrupted_jobs that went through, a stored job is failed, with its end at that
-- time and nothing else changed, if it was running on a router of the node under no token or
-- another one and is not a test of the fallback that began less than ten minutes before, and is as
-- it was otherwise; a stored router is blocked, with nothing else changed, if it has such a job,
-- and is as it was otherwise; no such job is left; and their number is returned.
pub recover_interrupted_jobs_lem :
    (env : Env) (connected : Bool) (l : NodeLease) (db db' : Db) (count k m : ℕ)
    (j : ProvisioningJob) (r : Router)
    → recover_interrupted_jobs env connected l db ≡ ok (count, db')
    → find (λ x. x.pk == k) db.network.jobs ≡ some j
    → find (λ x. x.pk == m) db.network.routers ≡ some r
    → IsJobAfter db.network.jobs db.network.routers l env.now db'.network k j
      × IsRouterAfter db.network.jobs db.network.routers l env.now db'.network m r
      × All (λ x. ¬ WasLeft db'.network.routers l env.now x) db'.network.jobs
      × Count (WasLeft db.network.routers l env.now) db.network.jobs count
recover_interrupted_jobs_lem env connected l db db' count k m j r run is_j is_r =
    let jobs = db.network.jobs in
    let routers = db.network.routers in
    let h =
      Ensures-eq (λ c d. IsQuarantined jobs routers l env.now c d.network)
        (recover-IsQuarantined env connected l db) run in
    (
      job_after jobs routers l env.now count db'.network h k j is_j,
      router_after jobs routers l env.now count db'.network h m r is_r,
      quiet_after jobs routers l env.now count db'.network h,
      counted_rows jobs routers l env.now count db'.network h,
    )

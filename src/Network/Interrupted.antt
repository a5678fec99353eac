-- ===== src/Network/Interrupted.antt =====
-- The jobs that an executor left running, as a statement about the rows that the queries of
-- `recover_interrupted_jobs` select.
use fireisp.Prelude.{
  ℕ, ◌+◌, ◌<◌, ◌≢◌, ap, Option, none, opt_eq, Option-cases, ◌≡◌, refl, true, inl, inr, some, List,
  arith,
}
use fireisp.Prelude.Exists.{Exists, Reflects, refuted, refutes, any-Reflects}
use fireisp.Store.Network.{Router, ProvisioningJob, RunStatus}
use fireisp.Network.{NodeLease, is_in_progress, is_at, is_recent_test, is_interrupted}

-- A test of the fallback that began less than ten minutes ago.
pub record IsRecentTest (now : ℕ) (j : ProvisioningJob) : Type 0 where
  pub is_test : j.is_fallback_test ≡ true
  pub start : ℕ
  pub started : j.started_at ≡ some start
  pub recent : now < start + 600

-- A job that another executor left running on a router of the node.
pub record WasLeft (routers : List Router) (l : NodeLease) (now : ℕ) (j : ProvisioningJob)
    : Type 0 where
  pub running : j.status ≡ RunStatus.running
  pub here : Exists (λ r. (r.pk ≡ j.router) × (r.network_node ≡ l.node)) routers
  pub foreign : j.worker_token ≢ some l.token
  pub settled : ¬ IsRecentTest now j

is_running-Reflects : (s : RunStatus) → Reflects (is_in_progress s) (s ≡ RunStatus.running)
is_running-Reflects s = (of s, λ e. rw e refl)
  where
    of : (s : RunStatus) → is_in_progress s ≡ true → s ≡ RunStatus.running
    of RunStatus.running h = refl
    of _ h = cc

token-Reflects : (o : Option ℕ) (t : ℕ) → Reflects (opt_eq o (some t)) (o ≡ some t)
token-Reflects none t = (λ h. absurd cc, λ e. absurd cc)
token-Reflects (some a) t = (
  λ h. let same : a ≡ t = ground (arith, h) in ap some same,
  λ e. let same : a ≡ t = cc in rw same (ground arith),
)

is_at-Reflects :
    (routers : List Router) (node : ℕ) (j : ProvisioningJob)
    → Reflects
        (is_at routers node j)
        (Exists (λ r. (r.pk ≡ j.router) × (r.network_node ≡ node)) routers)
unfolding is_at
is_at-Reflects routers node j =
    any-Reflects _ (λ r. (r.pk ≡ j.router) × (r.network_node ≡ node)) routers
      λ r. (λ h. (ground (arith, h), ground (arith, h)), λ h. ground (arith, h.0, h.1))

is_recent_test-Reflects :
    (now : ℕ) (j : ProvisioningJob) → Reflects (is_recent_test now j) (IsRecentTest now j)
unfolding is_recent_test
is_recent_test-Reflects now j = elim (Option-cases j.started_at) [
  | inl never ↦ (λ h. absurd (ground (arith, never, h)), λ t. let it = t.started in absurd cc)
  | inr (t, at) ↦ (
    λ h. record {
      is_test = ground (arith, h);
      start = t;
      started = at;
      recent = ground (arith, at, h);
    },
    λ r.
        let it = r.started in
        let same : r.start ≡ t = cc in
        let recent : now < t + 600 = rw (← same) r.recent in ground (arith, at, r.is_test, recent),
  )
]

pub is_interrupted-Reflects :
    (routers : List Router) (l : NodeLease) (now : ℕ) (j : ProvisioningJob)
    → Reflects (is_interrupted routers l now j) (WasLeft routers l now j)
unfolding is_interrupted
is_interrupted-Reflects routers l now j = (
  λ h. record {
    running = (is_running-Reflects j.status).0 (ground (arith, h));
    here = (is_at-Reflects routers l.node j).0 (ground (arith, h));
    foreign = refuted (token-Reflects j.worker_token l.token) (ground (arith, h));
    settled = refuted (is_recent_test-Reflects now j) (ground (arith, h));
  },
  λ w.
      let a = (is_running-Reflects j.status).1 w.running in
      let b = (is_at-Reflects routers l.node j).1 w.here in
      let c = refutes (token-Reflects j.worker_token l.token) w.foreign in
      let d = refutes (is_recent_test-Reflects now j) w.settled in ground (arith, a, b, c, d),
)

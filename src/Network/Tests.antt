-- ===== src/Network/Tests.antt =====
-- Two executors of one node: the second takes it after the reservation of the first has run out.
use fireisp.Prelude.{[], ◌∷◌, some, false, ℕ, ◌≡◌, refl, true, none}
use fireisp.Store.{Db, Env, ok, err, lease_lost}
use fireisp.Network.{
  NodeLease, is_owned, is_current, renewed, save_node, check, ensure_primary, reserved, write_lease,
  take_node, reserve, take_lease, enter_node, release, recover_interrupted_jobs, is_at,
  is_recent_test, is_interrupted, quarantined, quarantine,
}
use fireisp.Store.Network.{Router, ProvisioningJob, RunStatus}
use fireisp.Prelude.{All}
use fireisp.Prelude.Exists.{Count}
use fireisp.Network.Interrupted.{WasLeft}
use fireisp.Network.Quarantine.{IsJobAfter, IsRouterAfter, recover_interrupted_jobs_lem}
use fireisp.Network.Steps.{here, then, checks, leaves}
use fireisp.Network.Fence.{lease-IsFenced}
use fireisp.Billing.Tests.Samples.{env, start, db_of}

abbrev at : ℕ → Env
at now = record env { now = now }

abbrev first : NodeLease
first = record { node = 0; token = 11; generation = 1 }

abbrev second : NodeLease
second = record { node = 0; token = 22; generation = 2 }

abbrev taken : Db
taken = db_of start (enter_node (at 1000) 0 0 none true true 11 start)

abbrev checked : Db
checked = db_of start (check (at 1100) true first taken)

abbrev retaken : Db
retaken = db_of start (enter_node (at 1400) 0 0 none true true 22 checked)

abbrev left : Db
left = db_of start (release second retaken)

lease-IsFenced_example :
    (check (at 1450) true first left ≡ err lease_lost)
    × (recover_interrupted_jobs (at 1450) true first left ≡ err lease_lost)
    × (release first left ≡ ok (tt, left))
unfolding is_owned is_current renewed save_node check ensure_primary reserved write_lease take_node
    reserve take_lease enter_node release
lease-IsFenced_example =
    lease-IsFenced (at 1000) (at 1400) 0 0 0 11 22 true true true true first second start taken
      checked retaken left refl ((then) (checks (at 1100) true first refl) here) refl
      ((then) (leaves second refl) here) (at 1450) true

-- The first executor vanished in the middle of the job 5 on the router 8.
abbrev interrupted : ProvisioningJob
interrupted = record {
  pk = 5;
  router = 8;
  status = RunStatus.running;
  worker_token = some 11;
  is_fallback_test = false;
  started_at = some 1050;
  finished_at = none;
}

abbrev edge : Router
edge = record { pk = 8; network_node = 0; execution_blocked = false }

abbrev vanished : Db
vanished = record start {
  network = record {
    nodes =
        (record { pk = 0; worker_token = some 22; generation = 2; lease_expires_at = some 1700 })
        ∷ [];
    routers = edge ∷ [];
    jobs = interrupted ∷ [];
  };
}

abbrev recovered : Db
recovered = db_of start (recover_interrupted_jobs (at 1450) true second vanished)

recover_interrupted_jobs_lem_example :
    IsJobAfter vanished.network.jobs vanished.network.routers second 1450 recovered.network 5
      interrupted
    × IsRouterAfter vanished.network.jobs vanished.network.routers second 1450 recovered.network 8
        edge
    × All (λ x. ¬ WasLeft recovered.network.routers second 1450 x) recovered.network.jobs
    × Count (WasLeft vanished.network.routers second 1450) vanished.network.jobs 1
unfolding is_owned is_current renewed save_node check is_at is_recent_test is_interrupted
    quarantined quarantine recover_interrupted_jobs
recover_interrupted_jobs_lem_example =
    recover_interrupted_jobs_lem (at 1450) true second vanished recovered 1 5 8 interrupted edge
      refl refl refl

-- ===== src/Network.antt =====
-- network/execution.py: one executor for each network node, by a lease with a generation that fences
-- every former owner, and the quarantine of the jobs that an executor left running. What the session
-- lock of PostgreSQL answers, whether the connection is still the one that took it, and the token
-- that is drawn are arguments.
mod Laws
mod Steps
mod Fence
mod Interrupted
mod Quarantine
mod Tests
use fireisp.Prelude.{
  ℕ, ◌+◌, Bool, true, false, not, ◌&&◌, ◌||◌, Option, none, some, List, [], ◌∷◌, map, ltb, ◌==◌,
  if◌then◌else◌, find, any, select, is_some, opt_eq, length, update_where,
}
use fireisp.Store.{
  Db, M, ◌>>=◌, ◌>>◌, done, maybe, pure, gets, modify, raise_if, or_raise, with_network,
  does_not_exist, wrong_node, mixed_nodes, node_busy, lease_lost, Env,
}
use fireisp.Store.Network.{NetworkNode, Router, RunStatus, ProvisioningJob, Network}

abbrev pub node_lease_seconds : ℕ
node_lease_seconds = 300

-- `NodeLease`
pub record NodeLease : Type 0 where
  pub node : ℕ
  pub token : ℕ
  pub generation : ℕ

abbrev pub is_later : ℕ → Option ℕ → Bool
is_later now none = false
is_later now (some t) = ltb now t

-- The columns that the filters of `check` and of the release compare, on the row with the key of the
-- node: the reservation is still the one of this lease.
unfoldable pub is_owned : NodeLease → NetworkNode → Bool
is_owned l n = opt_eq n.worker_token (some l.token) && n.generation == l.generation

unfoldable pub is_current : NodeLease → ℕ → NetworkNode → Bool
is_current l now n = is_owned l n && is_later now n.lease_expires_at

unfoldable pub renewed : ℕ → NetworkNode → NetworkNode
renewed now n = record n { lease_expires_at = some (now + node_lease_seconds) }

unfoldable pub save_node : NetworkNode → M (Unit {0})
save_node n =
    modify
      (with_network λ w. record w { nodes = update_where (λ x. x.pk == n.pk) (λ _. n) w.nodes })

-- `NodeLease.check`: the update reaches one row or none.
unfoldable pub check : Env → Bool → NodeLease → M (Unit {0})
check env connected l = do
  raise_if (not connected) lease_lost
  row ← gets (λ db. find (λ n. n.pk == l.node) db.network.nodes)
  n ← or_raise lease_lost row
  raise_if (not (is_current l env.now n)) lease_lost
  save_node (renewed env.now n)

abbrev pub new_node : ℕ → NetworkNode
new_node pk = record { pk = pk; worker_token = none; generation = 0; lease_expires_at = none }

abbrev pub add_node : ℕ → M (Unit {0})
add_node pk = modify (with_network λ w. record w { nodes = new_node pk ∷ w.nodes })

-- `get_or_create(pk='primary', ...)`
unfoldable pub ensure_primary : ℕ → M (Unit {0})
ensure_primary node = do
  known ← gets (λ db. any (λ n. n.pk == node) db.network.nodes)
  if not (node == 0) || known then done else add_node node

unfoldable pub reserved : ℕ → ℕ → NetworkNode → NetworkNode
reserved now token n = record n {
  worker_token = some token;
  generation = n.generation + 1;
  lease_expires_at = some (now + node_lease_seconds);
}

unfoldable pub write_lease : Env → ℕ → ℕ → NetworkNode → M NodeLease
write_lease env node token n = do
  save_node (reserved env.now token n)
  pure (record { node = node; token = token; generation = n.generation + 1 })

unfoldable pub take_node : Env → ℕ → ℕ → NetworkNode → M NodeLease
take_node env node token n = do
  raise_if (is_some n.worker_token && is_later env.now n.lease_expires_at) node_busy
  write_lease env node token n

-- The transaction that takes the lease.
unfoldable pub reserve : Env → ℕ → ℕ → M NodeLease
reserve env node token = do
  row ← gets (λ db. find (λ n. n.pk == node) db.network.nodes)
  n ← or_raise does_not_exist row
  take_node env node token n

-- The entry of `node_execution` without a lease in the context.
unfoldable pub take_lease : Env → ℕ → Bool → ℕ → M NodeLease
take_lease env node lock_is_free token = do
  ensure_primary node
  raise_if (not lock_is_free) node_busy
  reserve env node token

-- The entry of `node_execution`.
unfoldable pub enter_node : Env → ℕ → ℕ → Option NodeLease → Bool → Bool → ℕ → M NodeLease
enter_node env configured node existing connected lock_is_free token = do
  raise_if (not (node == configured)) wrong_node
  maybe existing (take_lease env node lock_is_free token)
      λ l. do raise_if (not (l.node == node)) mixed_nodes; check env connected l; pure l

abbrev pub vacated : NetworkNode → NetworkNode
vacated n = record n { worker_token = none; lease_expires_at = none }

-- The update at the end of `node_execution`.
unfoldable pub release : NodeLease → M (Unit {0})
release l = do
  row ← gets (λ db. find (λ n. n.pk == l.node) db.network.nodes)
  maybe row done λ n. if is_owned l n then save_node (vacated n) else done

abbrev pub is_in_progress : RunStatus → Bool
is_in_progress RunStatus.running = true
is_in_progress _ = false

-- `router__network_node_id=node`
unfoldable pub is_at : List Router → ℕ → ProvisioningJob → Bool
is_at routers node j = any (λ r. r.pk == j.router && r.network_node == node) routers

-- A test of the fallback that started in the last ten minutes.
unfoldable pub is_recent_test : ℕ → ProvisioningJob → Bool
is_recent_test now j =
    j.is_fallback_test && (elim j.started_at [ none ↦ false | some t ↦ ltb now (t + 600) ])

-- The jobs that a vanished executor left running.
unfoldable pub is_interrupted : List Router → NodeLease → ℕ → ProvisioningJob → Bool
is_interrupted routers l now j =
    is_in_progress j.status
    && is_at routers l.node j
    && not (opt_eq j.worker_token (some l.token))
    && not (is_recent_test now j)

unfoldable pub quarantined : ℕ → ProvisioningJob → ProvisioningJob
quarantined now j = record j { status = RunStatus.failed; finished_at = some now }

unfoldable pub quarantine : NodeLease → ℕ → Network → Network
quarantine l now w =
    let lost = select (is_interrupted w.routers l now) w.jobs in
    record w {
      jobs = update_where (is_interrupted w.routers l now) (quarantined now) w.jobs;
      routers =
          update_where (λ r. any (λ j. j.router == r.pk) lost)
            (λ r. record r { execution_blocked = true }) w.routers;
    }

unfoldable pub recover_interrupted_jobs : Env → Bool → NodeLease → M ℕ
recover_interrupted_jobs env connected l = do
  check env connected l
  count ← gets (λ db. length (select (is_interrupted db.network.routers l env.now) db.network.jobs))
  modify (with_network (quarantine l env.now))
  pure count

-- ===== src/Network/Fence.antt =====
-- The fence: once a node was taken again, the lease that was taken before is worth nothing.
use fireisp.Prelude.{
  ℕ, ◌<◌, ◌≡◌, refl, sym, ap, ◌∙◌, Bool, true, false, not, ◌&&◌, Option, none, some, List, ◌==◌,
  arith, find, is_some,
}
use fireisp.Prelude.Keys.{find-own, find-replaced}
use fireisp.Store.{
  Db, Env, Error, Result, M, ok, err, ◌>>=◌, ◌>>◌, or_raise, raise_if, lease_lost, does_not_exist,
  node_busy, wrong_node,
}
use fireisp.Store.Network.{NetworkNode}
use fireisp.Store.Ensures.{Ensures, Ensures-bind, Ensures-eq}
use fireisp.Network.{
  NodeLease, is_owned, is_current, save_node, check, ensure_primary, reserved, write_lease,
  take_node, reserve, take_lease, enter_node, release, recover_interrupted_jobs, is_later,
}
use fireisp.Network.Laws.{After, ensure_primary-After}
use fireisp.Network.Steps.{Reach, Reach-Evolves}

abbrev pub node_at : ℕ → Db → Option NetworkNode
node_at node db = find (λ n. n.pk == node) db.network.nodes

-- A lease that was just taken: the row has its generation, and all rows before had a lower one.
record IsGranted (old : List NetworkNode) (node : ℕ) (l : NodeLease) (db : Db) : Type 0 where
  own : l.node ≡ node
  row : NetworkNode
  stored : node_at node db ≡ some row
  current : row.generation ≡ l.generation
  fresh : (n : NetworkNode) → find (λ x. x.pk == node) old ≡ some n → n.generation < l.generation

guard-Ensures :
    {B : Type 0} (P : B → Db → Type 0) (b : Bool) (e : Error) (k : M B) (db : Db)
    → Ensures P (k db)
    → Ensures P ((raise_if b e >> k) db)
guard-Ensures P true e k db h = tt
guard-Ensures P false e k db h = h

module _ (old : List NetworkNode) (env : Env) (node token : ℕ) where
  write_lease-IsGranted :
      (n : NetworkNode) (db : Db)
      → After old db
      → node_at node db ≡ some n
      → Ensures (IsGranted old node) (write_lease env node token n db)
  unfolding write_lease save_node reserved
  write_lease-IsGranted n db after found = record {
    own = refl;
    row = reserved env.now token n;
    stored =
        (find-replaced (λ x. x.pk) n.pk node (reserved env.now token n) db.network.nodes refl
            found).0
          (sym (find-own (λ x. x.pk) node db.network.nodes n found).0);
    current = refl;
    fresh = λ m listed.
        let (n', found', follows) = after node m listed in
        let it : some n ≡ some n' = sym found ∙ found' in
        let same : n ≡ n' = cc in
        let grown : n'.generation ≡ n.generation = ap (λ x. x.generation) (sym same) in omega arith;
  }

  reserve-IsGranted :
      (db : Db) → After old db → Ensures (IsGranted old node) (reserve env node token db)
  unfolding reserve take_node
  reserve-IsGranted db after = go (node_at node db) refl
    where
      go :
          (row : Option NetworkNode)
          → node_at node db ≡ row
          → Ensures
              (IsGranted old node)
              ((or_raise does_not_exist row >>= take_node env node token) db)
      go none found = tt
      go (some n) found =
          guard-Ensures (IsGranted old node)
            (is_some n.worker_token && is_later env.now n.lease_expires_at) node_busy
            (write_lease env node token n) db (write_lease-IsGranted n db after found)

  enter_node-IsGranted :
      (configured : ℕ) (connected free : Bool) (db : Db)
      → After old db
      → Ensures (IsGranted old node) (enter_node env configured node none connected free token db)
  unfolding enter_node take_lease
  enter_node-IsGranted configured connected free db after =
      guard-Ensures (IsGranted old node) (not (node == configured)) wrong_node
        (take_lease env node free token) db
        (Ensures-bind (λ _ d. After old d) (IsGranted old node) (ensure_primary node)
          (λ _. raise_if (not free) node_busy >> reserve env node token) db
          ((ensure_primary-After old node).at db after)
          (λ _ d h.
            guard-Ensures (IsGranted old node) (not free) node_busy (reserve env node token) d
              (reserve-IsGranted d h)))

-- The row has left the generation of the lease behind.
record IsOutdated (l : NodeLease) (db : Db) : Type 0 where
  row : NetworkNode
  stored : node_at l.node db ≡ some row
  past : l.generation < row.generation

not_owned : (l : NodeLease) (n : NetworkNode) → l.generation < n.generation → is_owned l n ≡ false
unfolding is_owned
not_owned l n past = ground arith

outdated_check :
    (env : Env) (connected : Bool) (l : NodeLease) (db : Db)
    → IsOutdated l db
    → check env connected l db ≡ err lease_lost
unfolding check is_current
outdated_check env false l db h = refl
outdated_check env true l db h = rw (h.stored, not_owned l h.row h.past) refl

outdated_release : (l : NodeLease) (db : Db) → IsOutdated l db → release l db ≡ ok (tt, db)
unfolding release
outdated_release l db h = rw (h.stored, not_owned l h.row h.past) refl

raised :
    {B : Type 0} (m : M (Unit {0})) (k : M B) (db : Db) (e : Error)
    → m db ≡ err e
    → (m >> k) db ≡ err e
raised {B} m k db e h =
    ap (λ r. let s : Result (B × Db) = elim r [ ok (a, db') ↦ k db' | err e' ↦ err e' ] in s) h

outdated_recover :
    (env : Env) (connected : Bool) (l : NodeLease) (db : Db)
    → IsOutdated l db
    → recover_interrupted_jobs env connected l db ≡ err lease_lost
unfolding recover_interrupted_jobs
outdated_recover env connected l db h =
    raised (check env connected l) _ db lease_lost (outdated_check env connected l db h)

-- A second lease of a node outdates the first one for good.
second_lease :
    (l l' : NodeLease) (db1 db2 db3 db4 : Db) (old : List NetworkNode) (node : ℕ)
    → IsGranted old node l db1
    → Reach db1 db2
    → IsGranted db2.network.nodes node l' db3
    → Reach db3 db4
    → IsOutdated l db4
second_lease l l' db1 db2 db3 db4 old node first between next since =
    let (r2, found2, grown2) = Reach-Evolves between node first.row first.stored in
    let (r4, found4, grown4) = Reach-Evolves since node next.row next.stored in
    let fresh = next.fresh r2 found2 in
    let c1 = first.current in
    let c2 = next.current in
    record { row = r4; stored = ap (λ k. node_at k db4) first.own ∙ found4; past = omega arith }

module _ (env env' : Env) (configured configured' node token token' : ℕ)
    (connected connected' free free' : Bool) (l l' : NodeLease) (db0 db1 db2 db3 db4 : Db) where
  -- A lease that node_execution gave, once the node was taken again by a call that gave another
  -- lease, is lost for good: after any entries, checks, releases and recoveries before and behind
  -- the second entry, in any order, its check and its recover_interrupted_jobs stop with the lost
  -- lease, at any time and on any connection, and its release changes nothing.
  pub lease-IsFenced :
      enter_node env configured node none connected free token db0 ≡ ok (l, db1)
      → Reach db1 db2
      → enter_node env' configured' node none connected' free' token' db2 ≡ ok (l', db3)
      → Reach db3 db4
      → (now : Env) (still : Bool)
      → (check now still l db4 ≡ err lease_lost)
        × (recover_interrupted_jobs now still l db4 ≡ err lease_lost)
        × (release l db4 ≡ ok (tt, db4))
  lease-IsFenced first between next since now still =
      let granted =
        Ensures-eq (IsGranted db0.network.nodes node)
          (enter_node-IsGranted db0.network.nodes env node token configured connected free db0
            (λ k n found. (n, found, omega arith)))
          first in
      let granted' =
        Ensures-eq (IsGranted db2.network.nodes node)
          (enter_node-IsGranted db2.network.nodes env' node token' configured' connected' free' db2
            (λ k n found. (n, found, omega arith)))
          next in
      let gone =
        second_lease l l' db1 db2 db3 db4 db0.network.nodes node granted between granted' since in
      (
        outdated_check now still l db4 gone,
        outdated_recover now still l db4 gone,
        outdated_release l db4 gone,
      )

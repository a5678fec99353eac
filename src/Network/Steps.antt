-- ===== src/Network/Steps.antt =====
-- The calls of the executors on the nodes, in any order.
use fireisp.Prelude.{ℕ, ◌≡◌, ap, ◌∙◌, Bool, List, Option, find, ◌==◌, arith}
use fireisp.Store.{Db, Env, ok}
use fireisp.Store.Network.{NetworkNode}
use fireisp.Store.Ensures.{Ensures-eq}
use fireisp.Network.{
  NodeLease, enter_node, check, release, ensure_primary, recover_interrupted_jobs,
}
use fireisp.Network.Laws.{
  After, Evolves, check-After, enter_node-After, release-After, ensure_primary-After, recover-After,
}

-- `seed` is an entry that stopped after the node `primary` was created.
pub data Step (db db' : Db) : Type 0 where
  enters :
      (env : Env) (configured node : ℕ) (existing : Option NodeLease) (connected free : Bool)
      (token : ℕ) (l : NodeLease)
      → enter_node env configured node existing connected free token db ≡ ok (l, db')
      → Step db db'
  seed : (node : ℕ) → ensure_primary node db ≡ ok (tt, db') → Step db db'
  checks :
      (env : Env) (connected : Bool) (l : NodeLease)
      → check env connected l db ≡ ok (tt, db')
      → Step db db'
  recovers :
      (env : Env) (connected : Bool) (l : NodeLease) (count : ℕ)
      → recover_interrupted_jobs env connected l db ≡ ok (count, db')
      → Step db db'
  leaves : (l : NodeLease) → release l db ≡ ok (tt, db') → Step db db'
  other : db'.network.nodes ≡ db.network.nodes → Step db db'

pub data Reach : Db → Db → Type 0 where
  here : {db : Db} → Reach db db
  then : {db db' db'' : Db} → Step db db' → Reach db' db'' → Reach db db''

module _ (old : List NetworkNode) where
  Step-After : (db db' : Db) → Step db db' → After old db → After old db'
  Step-After db db' (enters env c node e k f t l run) h =
      Ensures-eq (λ _ d. After old d) ((enter_node-After old env c node e k f t).at db h) run
  Step-After db db' (seed node run) h =
      Ensures-eq (λ _ d. After old d) ((ensure_primary-After old node).at db h) run
  Step-After db db' (checks env k l run) h =
      Ensures-eq (λ _ d. After old d) ((check-After old env k l).at db h) run
  Step-After db db' (recovers env k l count run) h =
      Ensures-eq (λ _ d. After old d) ((recover-After old env k l).at db h) run
  Step-After db db' (leaves l run) h =
      Ensures-eq (λ _ d. After old d) ((release-After old l).at db h) run
  Step-After db db' (other same) h = λ k r found.
      let (r', found', follows) = h k r found in
      (r', ap (find (λ n. n.pk == k)) same ∙ found', follows)

  pub Reach-After : (db db' : Db) → Reach db db' → After old db → After old db'
  Reach-After db db' here h = h
  Reach-After db db' (then {db' = mid} s r) h = Reach-After mid db' r (Step-After db mid s h)

-- No call takes a node away or its generation back.
pub Reach-Evolves : {db db' : Db} → Reach db db' → Evolves db.network.nodes db'.network.nodes
Reach-Evolves {db} {db'} r =
    Reach-After db.network.nodes db db' r (λ k n found. (n, found, omega arith))

-- ===== src/Network/Laws.antt =====
-- The fence of the executors: a lease that was followed by another one never comes back.
use fireisp.Prelude.{
  ℕ, ◌+◌, ◌≤◌, ◌≡◌, refl, ◌∙◌, Bool, false, not, ◌&&◌, ◌||◌, inl, inr, Option, none, some, List, [],
  ◌∷◌, ◌==◌, arith, find, any, is_some, Bool-cases,
}
use fireisp.Prelude.Keys.{find-own}
use fireisp.Prelude.Versions
use fireisp.Prelude.Versions.{replaced-Evolves}
use fireisp.Store.{
  Db, Env, M, ◌>>=◌, gets, lease_lost, modify, with_network, does_not_exist, node_busy,
}
use fireisp.Store.Network.{NetworkNode}
use fireisp.Store.Preserves.{
  Preserves, Preserves-pure, Preserves-done, Preserves-modify, preserves_rules,
}
use fireisp.Store.Leads.{
  Leads, Leads-bind, Leads-guard, Leads-gets, Leads-or_raise, Leads-maybe, Leads-if, Leads-from,
  Leads-weaken, Leads-Preserves,
}
use fireisp.Network.{
  NodeLease, is_owned, is_current, renewed, save_node, check, add_node, ensure_primary, reserved,
  take_node, write_lease, reserve, take_lease, enter_node, vacated, release,
  recover_interrupted_jobs, quarantine, is_later,
}

-- A later version of a node: its generation only grows.
abbrev pub Follows : NetworkNode → NetworkNode → Type 0
Follows n n' = n.generation ≤ n'.generation

abbrev pub Evolves : List NetworkNode → List NetworkNode → Type 0
Evolves = Versions.Evolves (λ n. n.pk) Follows

Follows-trans : (l m n : NetworkNode) → Follows l m → Follows m n → Follows l n
Follows-trans l m n f g = omega arith

unlisted :
    (xs : List NetworkNode) (node k : ℕ) {r : NetworkNode}
    → any (λ n. n.pk == node) xs ≡ false
    → find (λ n. n.pk == k) xs ≡ some r
    → (node == k) ≡ false
unlisted [] node k none_there found = cc
unlisted (x ∷ xs) node k none_there found = elim (Bool-cases (x.pk == k)) [
  | inl here ↦ ground (arith, here, none_there)
  | inr later ↦ unlisted xs node k (ground (arith, none_there)) (rw later at found)
]

module _ (old : List NetworkNode) where
  abbrev pub After : Db → Type 0
  After db = Evolves old db.network.nodes

  save_node-Leads :
      (pk : ℕ) (n n' : NetworkNode)
      → n'.pk ≡ n.pk
      → Follows n n'
      → Leads
          (λ db. After db × (find (λ x. x.pk == pk) db.network.nodes ≡ some n))
          After
          (save_node n')
  unfolding save_node
  save_node-Leads pk n n' same follows = record {
    at = λ db h.
        replaced-Evolves (λ x. x.pk) Follows Follows-trans old db.network.nodes n n' same
          (find-own (λ x. x.pk) pk db.network.nodes n h.1).1 follows h.0;
  }

  find-Leads :
      {B : Type 0} (pk : ℕ) {P : Db → Type 0} {k : Option NetworkNode → M B}
      → ((row : Option NetworkNode)
          → Leads (λ db. After db × (find (λ x. x.pk == pk) db.network.nodes ≡ row)) P (k row))
      → Leads After P (gets (λ db. find (λ x. x.pk == pk) db.network.nodes) >>= k)
  find-Leads pk h = Leads-gets h

  pub check-After :
      (env : Env) (connected : Bool) (l : NodeLease) → Preserves After (check env connected l)
  unfolding check
  check-After env connected l = Leads-Preserves (
      Leads-guard (not connected) lease_lost λ _. Leads-gets λ row.
        Leads-or_raise lease_lost row λ n is_n.
          Leads-guard (not (is_current l env.now n)) lease_lost λ _.
            Leads-weaken (λ db h. (h.0, h.1 ∙ is_n))
              (save_node-Leads l.node n (renewed env.now n) (unfold renewed in refl)
                (unfold renewed in omega arith)))

  pub ensure_primary-After : (node : ℕ) → Preserves After (ensure_primary node)
  unfolding ensure_primary
  ensure_primary-After node = Leads-Preserves (
      Leads-gets λ known.
        Leads-if (not (node == 0) || known) {n = add_node node}
          (λ _. Leads-from (λ _ h. h.0) Preserves-done)
          (λ new. record {
            at = λ db h k r found.
                let (r', found', follows) = h.0 k r found in
                let absent : known ≡ false = ground (arith, new) in
                let other : (node == k) ≡ false =
                  unlisted db.network.nodes node k (h.1 ∙ absent) found' in
                (r', rw other found', follows);
          }))

  reserve-After : (env : Env) (node token : ℕ) → Preserves After (reserve env node token)
  unfolding reserve take_node write_lease
  reserve-After env node token = Leads-Preserves (
      Leads-gets λ row. Leads-or_raise does_not_exist row {k = take_node env node token} λ n is_n.
        Leads-guard (is_some n.worker_token && is_later env.now n.lease_expires_at) node_busy
          {k = write_lease env node token n}
          λ _.
            Leads-bind
              (Leads-weaken (λ db h. (h.0, h.1 ∙ is_n))
                (save_node-Leads node n (reserved env.now token n) (unfold reserved in refl)
                  (unfold reserved in omega arith)))
              λ _.
                Leads-from (λ _ h. h)
                  (Preserves-pure
                    (record { node = node; token = token; generation = n.generation + 1 })))

  pub release-After : (l : NodeLease) → Preserves After (release l)
  unfolding release
  release-After l = Leads-Preserves (
      Leads-gets λ row.
        Leads-maybe row (λ _. Leads-from (λ _ h. h.0) Preserves-done)
          λ n is_n.
            Leads-if (is_owned l n)
              (λ _.
                Leads-weaken (λ db h. (h.0, h.1 ∙ is_n))
                  (save_node-Leads l.node n (vacated n) refl (omega arith)))
              (λ _. Leads-from (λ _ h. h.0) Preserves-done))

  pub enter_node-After :
      (env : Env) (configured node : ℕ) (existing : Option NodeLease) (connected free : Bool)
      (token : ℕ)
      → Preserves After (enter_node env configured node existing connected free token)
  unfolding enter_node take_lease
  enter_node-After env configured node none connected free token =
      search (preserves_rules, ensure_primary-After, reserve-After) depth 12
  enter_node-After env configured node (some l) connected free token =
      search (preserves_rules, check-After) depth 12

  quarantine-After :
      (l : NodeLease) (now : ℕ) → Preserves After (modify (with_network (quarantine l now)))
  unfolding quarantine
  quarantine-After l now = Preserves-modify (with_network (quarantine l now)) λ db h. h

  pub recover-After :
      (env : Env) (connected : Bool) (l : NodeLease)
      → Preserves After (recover_interrupted_jobs env connected l)
  unfolding recover_interrupted_jobs
  recover-After env connected l = search (preserves_rules, check-After, quarantine-After) depth 12

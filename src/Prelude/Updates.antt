-- ===== src/Prelude/Updates.antt =====
-- The row of a key behind an update of many rows.
use Prim.Native.Nat.{ℕ}
use mathlib.Core.Path.{◌≡◌, sym, refl}
use mathlib.Core.Logic.{◌⊎◌, inl, inr}
use mathlib.Core.Bool.{Bool}
use mathlib.Core.Option.{some}
use mathlib.Core.List.{List, [], ◌∷◌}
use fireisp.Prelude.Tests.{Bool-cases, if◌then◌else◌, ◌==◌}
use fireisp.Prelude.Lists.{find, update_where}
use fireisp.Prelude.Exists.{Reflects, refuted}

module _ {A : Type 0} (key : A → ℕ) (p : A → Bool) (f : A → A)
    (keeps : (x : A) → key (f x) ≡ key x) where
  pub find-update_where :
      (k : ℕ) (xs : List A) {r : A}
      → find (λ x. key x == k) xs ≡ some r
      → find (λ x. key x == k) (update_where p f xs) ≡ some (if p r then f r else r)
  find-update_where k [] found = cc
  find-update_where k (x ∷ xs) {r} found = elim (Bool-cases (key x == k)) [
    | inl here ↦
        let it : some x ≡ some r = rw here at found in
        let same : x ≡ r = cc in
        elim (Bool-cases (p x)) [
          | inl hit ↦ rw (hit, keeps x, here) (rw (sym same, hit) refl)
          | inr miss ↦ rw (miss, here) (rw (sym same, miss) refl)
        ]
    | inr later ↦
        let rest = find-update_where k xs (rw later at found) in
        elim (Bool-cases (p x)) [
          | inl hit ↦ rw (hit, keeps x, later) rest
          | inr miss ↦ rw (miss, later) rest
        ]
  ]

-- Two tables have the same rows in the same order, each pair in the relation.
abbrev pub Aligned : {A : Type 0} → (A → A → Type 0) → List A → List A → Type 0
Aligned R [] [] = Unit
Aligned R (x ∷ xs) (y ∷ ys) = R x y × Aligned R xs ys
Aligned R _ _ = ⊥

-- Exactly the rows that have it are changed.
abbrev pub Changed : {A : Type 0} → (A → Type 0) → (A → A) → A → A → Type 0
Changed P f x y = (P x × (y ≡ f x)) ⊎ ((¬ P x) × (y ≡ x))

pub update_where-Aligned :
    {A : Type 0} (p : A → Bool) (P : A → Type 0) (f : A → A) (xs : List A)
    → ((x : A) → Reflects (p x) (P x))
    → Aligned (Changed P f) xs (update_where p f xs)
update_where-Aligned p P f [] r = tt
update_where-Aligned p P f (x ∷ xs) r =
    let rest = update_where-Aligned p P f xs r in
    elim (Bool-cases (p x)) [
      | inl hit ↦ rw hit (inl ((r x).0 hit, refl), rest)
      | inr miss ↦ rw miss (inr (refuted (r x) miss, refl), rest)
    ]

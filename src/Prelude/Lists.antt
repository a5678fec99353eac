-- ===== src/Prelude/Lists.antt =====
-- Lists as tables: length, search, selection, sums, and predicates on every row.
use Prim.Native.Nat.{ℕ, suc, ◌+◌}
use mathlib.Core.Path.{◌≡◌, subst}
use mathlib.Core.Logic.{inl, inr}
use mathlib.Core.Bool.{Bool, true, false, ◌||◌}
use mathlib.Core.Option.{Option, none, some}
use mathlib.Core.List.{List, [], ◌∷◌}
use fireisp.Prelude.Tests.{if◌then◌else◌, Bool-cases}

module _ {ℓ} {A : Type ℓ} where
  abbrev pub length : List A → ℕ
  length [] = 0
  length (x ∷ xs) = suc (length xs)

  -- The first row that passes a test: `filter(...).first()`.
  abbrev pub find : (A → Bool) → List A → Option A
  find p [] = none
  find p (x ∷ xs) = if p x then some x else find p xs

  -- `filter(...).exists()`.
  abbrev pub any : (A → Bool) → List A → Bool
  any p [] = false
  any p (x ∷ xs) = p x || any p xs

  -- `filter(...)`.
  abbrev pub select : (A → Bool) → List A → List A
  select p [] = []
  select p (x ∷ xs) = if p x then x ∷ select p xs else select p xs

  -- `filter(...).aggregate(Sum(...))`, with 0 for no row.
  abbrev pub sum_where : (A → Bool) → (A → ℕ) → List A → ℕ
  sum_where p f [] = 0
  sum_where p f (x ∷ xs) = (if p x then f x else 0) + sum_where p f xs

  -- `filter(...).update(...)`.
  abbrev pub update_where : (A → Bool) → (A → A) → List A → List A
  update_where p f [] = []
  update_where p f (x ∷ xs) = (if p x then f x else x) ∷ update_where p f xs

  abbrev pub All {κ} : (A → Type κ) → List A → Type κ
  All P [] = Unit
  All P (x ∷ xs) = P x × All P xs

  pub select-All {κ} :
      (P : A → Type κ) (p : A → Bool) (xs : List A) → All P xs → All P (select p xs)
  select-All P p [] h = tt
  select-All P p (x ∷ xs) h = elim (Bool-cases (p x)) [
    | inl kept ↦ rw kept (h.0, select-All P p xs h.1)
    | inr dropped ↦ rw dropped (select-All P p xs h.1)
  ]

  -- What a selected row passed.
  pub select-All_passed : (p : A → Bool) (xs : List A) → All (λ x. p x ≡ true) (select p xs)
  select-All_passed p [] = tt
  select-All_passed p (x ∷ xs) = elim (Bool-cases (p x)) [
    | inl kept ↦ rw kept (kept, select-All_passed p xs)
    | inr dropped ↦ rw dropped (select-All_passed p xs)
  ]

  pub All-map {κ μ} :
      (P : A → Type κ) (Q : A → Type μ) (xs : List A) → ((x : A) → P x → Q x) → All P xs → All Q xs
  All-map P Q [] f h = tt
  All-map P Q (x ∷ xs) f h = (f x h.0, All-map P Q xs f h.1)

  pub All-zip {κ μ} :
      (P : A → Type κ) (Q : A → Type μ) (xs : List A)
      → All P xs
      → All Q xs
      → All (λ x. P x × Q x) xs
  All-zip P Q [] h k = tt
  All-zip P Q (x ∷ xs) h k = ((h.0, k.0), All-zip P Q xs h.1 k.1)

  pub All-zip_with {κ μ ν} :
      (P : A → Type κ) (Q : A → Type μ) (R : A → Type ν) (xs : List A)
      → ((x : A) → P x → Q x → R x)
      → All P xs
      → All Q xs
      → All R xs
  All-zip_with P Q R [] f h k = tt
  All-zip_with P Q R (x ∷ xs) f h k = (f x h.0 k.0, All-zip_with P Q R xs f h.1 k.1)

  -- What `find` returns is a row that passes the test, and has what every row has.
  pub find-All {κ} :
      (P : A → Type κ) (p : A → Bool) (xs : List A) {r : A}
      → All P xs
      → find p xs ≡ some r
      → P r × (p r ≡ true)
  find-All P p [] h e = cc
  find-All P p (x ∷ xs) {r = r} h e = elim (Bool-cases (p x)) [
    | inl here ↦
        let found : some x ≡ some r = rw here at e in
        let same : x ≡ r = cc in (subst P same h.0, subst (λ y. p y ≡ true) same here)
    | inr later ↦ find-All P p xs h.1 (rw later at e)
  ]

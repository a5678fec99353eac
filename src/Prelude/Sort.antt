-- ===== src/Prelude/Sort.antt =====
-- `order_by`: a stable sort of the rows of a query, and what it keeps.
use fireisp.Prelude.{
  ℕ, ◌≡◌, ◌≢◌, inl, inr, Bool, true, List, [], ◌∷◌, All, All-map, false, select, select-All, sym,
  if◌then◌else◌, Bool-cases, map,
}
use mathlib.Core.Path.{subst}

module _ {ℓ} {A : Type ℓ} (le : A → A → Bool) where
  unfoldable pub insert : A → List A → List A
  insert x [] = x ∷ []
  insert x (y ∷ ys) = if le x y then x ∷ y ∷ ys else y ∷ insert x ys

  unfoldable pub order_by : List A → List A
  unfolding insert
  order_by [] = []
  order_by (x ∷ xs) = insert x (order_by xs)

  insert-All {κ} : (P : A → Type κ) (x : A) (ys : List A) → P x → All P ys → All P (insert x ys)
  unfolding insert
  insert-All P x [] p h = (p, tt)
  insert-All P x (y ∷ ys) p h = elim (Bool-cases (le x y)) [
    | inl first ↦ rw first (p, h)
    | inr later ↦ rw later (h.0, insert-All P x ys p h.1)
  ]

  pub order_by-All {κ} : (P : A → Type κ) (xs : List A) → All P xs → All P (order_by xs)
  unfolding order_by
  order_by-All P [] h = tt
  order_by-All P (x ∷ xs) h = insert-All P x (order_by xs) h.0 (order_by-All P xs h.1)

-- No two rows have one key.
abbrev pub Distinct {ℓ} : {A : Type ℓ} → (A → ℕ) → List A → Type 0
Distinct key [] = Unit
Distinct key (x ∷ xs) = All (λ y. key y ≢ key x) xs × Distinct key xs

module _ {ℓ} {A : Type ℓ} (key : A → ℕ) where
  pub select-Distinct : (p : A → Bool) (xs : List A) → Distinct key xs → Distinct key (select p xs)
  select-Distinct p [] d = tt
  select-Distinct p (x ∷ xs) d = elim (Bool-cases (p x)) [
    | inl kept ↦ rw kept (select-All (λ y. key y ≢ key x) p xs d.0, select-Distinct p xs d.1)
    | inr dropped ↦ rw dropped (select-Distinct p xs d.1)
  ]

module _ {ℓ} {A : Type ℓ} (key : A → ℕ) (le : A → A → Bool) where
  insert-Distinct :
      (x : A) (ys : List A)
      → All (λ y. key y ≢ key x) ys
      → Distinct key ys
      → Distinct key (insert le x ys)
  unfolding insert
  insert-Distinct x [] h d = (tt, tt)
  insert-Distinct x (y ∷ ys) h d = elim (Bool-cases (le x y)) [
    | inl first ↦ rw first (h, d)
    | inr later ↦ rw later (
      insert-All le (λ z. key z ≢ key y) x ys (λ e. h.0 (sym e)) d.0,
      insert-Distinct x ys h.1 d.1,
    )
  ]

  pub order_by-Distinct : (xs : List A) → Distinct key xs → Distinct key (order_by le xs)
  unfolding order_by
  order_by-Distinct [] d = tt
  order_by-Distinct (x ∷ xs) d =
      insert-Distinct x (order_by le xs) (order_by-All le (λ y. key y ≢ key x) xs d.0)
        (order_by-Distinct xs d.1)

-- Every row stands before the rows that follow it in the order.
abbrev pub IsSorted {ℓ} : {A : Type ℓ} → (A → A → Bool) → List A → Type 0
IsSorted le [] = Unit
IsSorted le (x ∷ xs) = All (λ y. le x y ≡ true) xs × IsSorted le xs

-- What is said of the keys alone passes to any list with the same keys.
module _ {ℓ} {A : Type ℓ} (key : A → ℕ) where
  pub All_of_keys {κ} :
      (P : ℕ → Type κ) (xs ys : List A)
      → map key xs ≡ map key ys
      → All (λ y. P (key y)) ys
      → All (λ x. P (key x)) xs
  All_of_keys P [] ys e h = tt
  All_of_keys P (x ∷ xs) [] e h = cc
  All_of_keys P (x ∷ xs) (y ∷ ys) e h =
      let heads : key y ≡ key x = cc in
      let tails : map key xs ≡ map key ys = cc in (subst P heads h.0, All_of_keys P xs ys tails h.1)

  pub Distinct_of_keys :
      (xs ys : List A) → map key xs ≡ map key ys → Distinct key ys → Distinct key xs
  Distinct_of_keys [] ys e h = tt
  Distinct_of_keys (x ∷ xs) [] e h = cc
  Distinct_of_keys (x ∷ xs) (y ∷ ys) e h =
      let heads : key y ≡ key x = cc in
      let tails : map key xs ≡ map key ys = cc in
      (
        subst (λ k. All (λ z. key z ≢ k) xs) heads (All_of_keys (λ k. k ≢ key y) xs ys tails h.0),
        Distinct_of_keys xs ys tails h.1,
      )

-- A sort by a total and transitive order puts every row before those that follow it.
module _ {ℓ} {A : Type ℓ} (le : A → A → Bool) (total : (x y : A) → le x y ≡ false → le y x ≡ true)
    (trans : (x y z : A) → le x y ≡ true → le y z ≡ true → le x z ≡ true) where
  insert-IsSorted : (x : A) (ys : List A) → IsSorted le ys → IsSorted le (insert le x ys)
  unfolding insert
  insert-IsSorted x [] h = (tt, tt)
  insert-IsSorted x (y ∷ ys) h = elim (Bool-cases (le x y)) [
    | inl first ↦ rw first ((first, All-map _ _ ys (λ z later. trans x y z first later) h.0), h)
    | inr later ↦
        rw later
          (insert-All le (λ z. le y z ≡ true) x ys (total x y later) h.0, insert-IsSorted x ys h.1)
  ]

  pub order_by-IsSorted : (xs : List A) → IsSorted le (order_by le xs)
  unfolding order_by
  order_by-IsSorted [] = tt
  order_by-IsSorted (x ∷ xs) = insert-IsSorted x (order_by le xs) (order_by-IsSorted xs)

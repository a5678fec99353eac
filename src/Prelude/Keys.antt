-- ===== src/Prelude/Keys.antt =====
-- Tables with a primary key: what a look-up finds is the only row with its key, and what an update
-- of that row keeps.
use Prim.Native.Nat.{ℕ}
use mathlib.Core.Path.{◌≡◌, ◌∙◌, refl, sym, ap, subst}
use mathlib.Core.Logic.{◌≢◌, ◌⊎◌, inl, inr}
use mathlib.Core.Bool.{Bool, true, false}
use mathlib.Core.Option.{none, some}
use mathlib.Core.List.{List, [], ◌∷◌}
use native.Mathlib.Omega.{arith}
use fireisp.Prelude.Tests.{Bool-cases, ◌==◌}
use fireisp.Prelude.Lists.{find, update_where, All, All-map, find-All}
use fireisp.Prelude.Sort.{Distinct}

pub ==_eq : (a b : ℕ) → (a == b) ≡ true → a ≡ b
==_eq a b h = ground arith

pub ==_neq : (a b : ℕ) → (a == b) ≡ false → a ≢ b
==_neq a b h e = ground arith

module _ {ℓ} {A : Type ℓ} (key : A → ℕ) where
  -- The rows with the key `k` are all `d`.
  abbrev pub IsOnly : ℕ → A → List A → Type ℓ
  IsOnly k d = All (λ x. key x ≡ k → x ≡ d)

  pub find-IsOnly :
      (p : A → Bool) (k : ℕ) (xs : List A) {d : A}
      → ((x : A) → p x ≡ true → key x ≡ k)
      → Distinct key xs
      → find p xs ≡ some d
      → IsOnly k d xs
  find-IsOnly p k [] fits apart e = tt
  find-IsOnly p k (x ∷ xs) {d = d} fits apart e = elim (Bool-cases (p x)) [
    | inl here ↦
        let found : some x ≡ some d = rw here at e in
        let same : x ≡ d = cc in
        (
          λ _. same,
          All-map _ _ xs (λ y ne same_key. absurd (ne (same_key ∙ sym (fits x here)))) apart.0,
        )
    | inr later ↦
        let found : find p xs ≡ some d = rw later at e in
        let it = find-All (λ y. key y ≢ key x) p xs apart.0 found in
        (
          λ same_key. absurd (it.0 (fits d it.1 ∙ sym same_key)),
          find-IsOnly p k xs fits apart.1 found,
        )
  ]

  pub found-IsOnly :
      (p : A → Bool) (xs : List A) {d : A}
      → Distinct key xs
      → find p xs ≡ some d
      → IsOnly (key d) d xs
  found-IsOnly p [] apart e = tt
  found-IsOnly p (x ∷ xs) {d = d} apart e = elim (Bool-cases (p x)) [
    | inl here ↦
        let found : some x ≡ some d = rw here at e in
        let same : x ≡ d = cc in
        (λ _. same, All-map _ _ xs (λ y ne h. absurd (ne (h ∙ ap key (sym same)))) apart.0)
    | inr later ↦
        let found : find p xs ≡ some d = rw later at e in
        (
          λ h. absurd ((find-All (λ y. key y ≢ key x) p xs apart.0 found).0 (sym h)),
          found-IsOnly p xs apart.1 found,
        )
  ]

  -- A row that is found by a key is found by its own.
  pub find-own :
      (k : ℕ) (xs : List A) (d : A)
      → find (λ x. key x == k) xs ≡ some d
      → (key d ≡ k) × (find (λ x. key x == key d) xs ≡ some d)
  find-own k xs d e =
      let same : key d ≡ k = find_key k xs d e in
      (same, subst (λ l. find (λ x. key x == l) xs ≡ some d) (sym same) e)
    where
      find_key : (k : ℕ) (xs : List A) (d : A) → find (λ x. key x == k) xs ≡ some d → key d ≡ k
      find_key k [] d e = cc
      find_key k (x ∷ xs) d e = elim (Bool-cases (key x == k)) [
        | inl here ↦
            let found : some x ≡ some d = rw here at e in
            let same : x ≡ d = cc in subst (λ y. key y ≡ k) same (==_eq (key x) k here)
        | inr other ↦ find_key k xs d (rw other at e)
      ]

  -- An update that keeps a predicate wherever it applies.
  pub update-All_any {κ} :
      (P : A → Type κ) (k : ℕ) (f : A → A) (xs : List A)
      → ((x : A) → P x → P (f x))
      → All P xs
      → All P (update_where (λ x. key x == k) f xs)
  update-All_any P k f [] h all = tt
  update-All_any P k f (x ∷ xs) h all = elim (Bool-cases (key x == k)) [
    | inl here ↦ rw here (h x all.0, update-All_any P k f xs h all.1)
    | inr other ↦ rw other (all.0, update-All_any P k f xs h all.1)
  ]

  -- An update of the only row with a key.
  pub update-All {κ} :
      (P : A → Type κ) (k : ℕ) (d : A) (f : A → A) (xs : List A)
      → IsOnly k d xs
      → (P d → P (f d))
      → All P xs
      → All P (update_where (λ x. key x == k) f xs)
  update-All P k d f [] only h all = tt
  update-All P k d f (x ∷ xs) only h all = elim (Bool-cases (key x == k)) [
    | inl here ↦
        let same : x ≡ d = only.0 (==_eq (key x) k here) in
        rw here (
          subst (λ y. P (f y)) (sym same) (h (subst P same all.0)),
          update-All P k d f xs only.1 h all.1,
        )
    | inr other ↦ rw other (all.0, update-All P k d f xs only.1 h all.1)
  ]

  -- An update of the only row with a key, where the row's own facts no longer matter.
  pub update-All_others {κ} :
      (P : A → Type κ) (k : ℕ) (d : A) (f : A → A) (xs : List A)
      → IsOnly k d xs
      → P (f d)
      → All (λ x. key x ≢ k → P x) xs
      → All P (update_where (λ x. key x == k) f xs)
  update-All_others P k d f [] only h all = tt
  update-All_others P k d f (x ∷ xs) only h all = elim (Bool-cases (key x == k)) [
    | inl here ↦
        let same : x ≡ d = only.0 (==_eq (key x) k here) in
        rw here (subst (λ y. P (f y)) (sym same) h, update-All_others P k d f xs only.1 h all.1)
    | inr other ↦
        rw other (all.0 (==_neq (key x) k other), update-All_others P k d f xs only.1 h all.1)
  ]

  -- An update that keeps the key keeps the keys apart.
  pub update-Distinct :
      (k : ℕ) (f : A → A) (xs : List A)
      → ((x : A) → key (f x) ≡ key x)
      → Distinct key xs
      → Distinct key (update_where (λ x. key x == k) f xs)
  update-Distinct k f [] same d = tt
  update-Distinct k f (x ∷ xs) same d = elim (Bool-cases (key x == k)) [
    | inl here ↦ rw here (
      update-All_any (λ y. key y ≢ key (f x)) k f xs (λ y ne e. ne (sym (same y) ∙ e))
          (All-map _ _ xs (λ y ne e. ne (e ∙ same x)) d.0),
      update-Distinct k f xs same d.1,
    )
    | inr other ↦ rw other (
      update-All_any (λ y. key y ≢ key x) k f xs (λ y ne e. ne (sym (same y) ∙ e)) d.0,
      update-Distinct k f xs same d.1,
    )
  ]

-- A relation between any two rows.
abbrev pub Pairwise {ℓ κ} : {A : Type ℓ} → (A → A → Type κ) → List A → Type κ
Pairwise R [] = Unit
Pairwise R (x ∷ xs) = All (R x) xs × Pairwise R xs

pub update-Pairwise {ℓ κ} :
    {A : Type ℓ} (key : A → ℕ) (R : A → A → Type κ) (k : ℕ) (d : A) (f : A → A) (xs : List A)
    → IsOnly key k d xs
    → ((y : A) → R d y → R (f d) y)
    → ((y : A) → R y d → R y (f d))
    → Pairwise R xs
    → Pairwise R (update_where (λ x. key x == k) f xs)
update-Pairwise key R k d f [] only l r h = tt
update-Pairwise key R k d f (x ∷ xs) only l r h = elim (Bool-cases (key x == k)) [
  | inl here ↦
      let same : x ≡ d = only.0 (==_eq (key x) k here) in
      let from : (z : _) → z ≡ d → All (R z) xs → All (R (f z)) xs =
        λ z e. All-map (R z) (R (f z)) xs (subst (λ u. (y : _) → R u y → R (f u) y) (sym e) l) in
      rw here (
        update-All key (R (f x)) k d f xs only.1 (r (f x)) (from x same h.0),
        update-Pairwise key R k d f xs only.1 l r h.1,
      )
  | inr other ↦ rw other (
    update-All key (R x) k d f xs only.1 (r x) h.0,
    update-Pairwise key R k d f xs only.1 l r h.1,
  )
]

-- A row that a look-up found is related to any other row.
pub find-Pairwise {ℓ κ} :
    {A : Type ℓ} (R : A → A → Type κ) (p : A → Bool) (xs : List A) {d : A}
    → Pairwise R xs
    → find p xs ≡ some d
    → All (λ y. (y ≡ d) ⊎ (R d y ⊎ R y d)) xs
find-Pairwise R p [] h e = tt
find-Pairwise R p (x ∷ xs) {d = d} h e = elim (Bool-cases (p x)) [
  | inl here ↦
      let found : some x ≡ some d = rw here at e in
      let same : x ≡ d = cc in
      (inl same, All-map _ _ xs (λ y r. inr (inl (subst (λ u. R u y) same r))) h.0)
  | inr later ↦
      let found : find p xs ≡ some d = rw later at e in
      (inr (inr (find-All (R x) p xs h.0 found).0), find-Pairwise R p xs h.1 found)
]

-- A look-up that finds nothing: no row passes the test.
pub find-none {ℓ} :
    {A : Type ℓ} (p : A → Bool) (xs : List A) → find p xs ≡ none → All (λ x. p x ≡ false) xs
find-none p [] e = tt
find-none p (x ∷ xs) e = elim (Bool-cases (p x)) [
  | inl here ↦ let found : some x ≡ none = rw here at e in cc
  | inr later ↦ (later, find-none p xs (rw later at e))
]

update-All_none {ℓ κ} :
    {A : Type ℓ} (key : A → ℕ) (P : A → Type κ) (k : ℕ) (f : A → A) (xs : List A)
    → All (λ y. key y ≢ k → P y) xs
    → All (λ y. key y ≢ k) xs
    → All P (update_where (λ x. key x == k) f xs)
update-All_none key P k f [] h other = tt
update-All_none key P k f (x ∷ xs) h other = elim (Bool-cases (key x == k)) [
  | inl here ↦ absurd (other.0 (==_eq (key x) k here))
  | inr not_here ↦ rw not_here (h.0 other.0, update-All_none key P k f xs h.1 other.1)
]

-- The same, where the changed row is related anew to each of the others.
pub update-Pairwise_others {ℓ κ} :
    {A : Type ℓ} (key : A → ℕ) (R : A → A → Type κ) (k : ℕ) (d : A) (f : A → A) (xs : List A)
    → IsOnly key k d xs
    → Distinct key xs
    → All (λ y. key y ≢ k → R (f d) y × R y (f d)) xs
    → Pairwise R xs
    → Pairwise R (update_where (λ x. key x == k) f xs)
update-Pairwise_others key R k d f [] only apart new h = tt
update-Pairwise_others key R k d f (x ∷ xs) only apart new h = elim (Bool-cases (key x == k)) [
  | inl here ↦
      let is_key : key x ≡ k = ==_eq (key x) k here in
      let same : x ≡ d = only.0 is_key in
      rw here (
        update-All_none key (R (f x)) k f xs
            (subst (λ u. All (λ y. key y ≢ k → R (f u) y) xs) (sym same)
              (All-map _ _ xs (λ y r ne. (r ne).0) new.1))
            (All-map _ _ xs (λ y ne e. ne (e ∙ sym is_key)) apart.0),
        update-Pairwise_others key R k d f xs only.1 apart.1 new.1 h.1,
      )
  | inr other ↦ rw other (
    update-All_others key (R x) k d f xs only.1 ((new.0 (==_neq (key x) k other)).1)
        (All-map _ _ xs (λ y r _. r) h.0),
    update-Pairwise_others key R k d f xs only.1 apart.1 new.1 h.1,
  )
]

-- An update of no row.
pub update_none {ℓ} :
    {A : Type ℓ} (p : A → Bool) (f : A → A) (xs : List A)
    → find p xs ≡ none
    → update_where p f xs ≡ xs
update_none p f [] e = refl
update_none p f (x ∷ xs) e = elim (Bool-cases (p x)) [
  | inl here ↦ let found : some x ≡ none = rw here at e in cc
  | inr later ↦ let rest = update_none p f xs (rw later at e) in rw (later, rest) refl
]

-- Looking up a row after the row with the key `j` was replaced.
pub find-replaced {ℓ} :
    {A : Type ℓ} (key : A → ℕ) (j k : ℕ) (v : A) (xs : List A) {r : A}
    → key v ≡ j
    → find (λ x. key x == k) xs ≡ some r
    → (k ≡ j → find (λ x. key x == k) (update_where (λ x. key x == j) (λ _. v) xs) ≡ some v)
      × (k ≢ j → find (λ x. key x == k) (update_where (λ x. key x == j) (λ _. v) xs) ≡ some r)
find-replaced key j k v [] is_key e = cc
find-replaced key j k v (x ∷ xs) {r = r} is_key e = elim (Bool-cases (key x == k)) [
  | inl here ↦ elim (Bool-cases (key x == j)) [
    | inl hit ↦ rw hit (
      λ same. rw (is_key, ==_intro j k (sym same)) refl,
      λ other. absurd (other (sym (==_eq (key x) k here) ∙ ==_eq (key x) j hit)),
    )
    | inr miss ↦ rw miss (
      λ same. absurd (==_neq (key x) j miss (==_eq (key x) k here ∙ same)),
      λ other. rw here (let found : some x ≡ some r = rw here at e in found),
    )
  ]
  | inr later ↦
      let found : find (λ x. key x == k) xs ≡ some r = rw later at e in
      let rest = find-replaced key j k v xs is_key found in
      elim (Bool-cases (key x == j)) [
        | inl hit ↦ rw hit (
          λ same. absurd (==_neq (key x) k later (==_eq (key x) j hit ∙ sym same)),
          λ other. rw (is_key, ==_outro j k (λ e. other (sym e))) (rest.1 other),
        )
        | inr miss ↦ rw (miss, later) rest
      ]
]
  where
    ==_intro : (a b : ℕ) → a ≡ b → (a == b) ≡ true
    ==_intro a b e = ground arith

    ==_outro : (a b : ℕ) → a ≢ b → (a == b) ≡ false
    ==_outro a b e = ground arith

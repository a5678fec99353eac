-- ===== src/Prelude/Exists.antt =====
-- Rows of which something holds, as statements beside the Boolean tests of a query.
use Prim.Native.Nat.{ℕ, suc}
use mathlib.Core.Path.{◌≡◌, refl}
use mathlib.Core.Logic.{◌⊎◌, ◌↔◌, inl, inr}
use mathlib.Core.Bool.{Bool, true, false}
use mathlib.Core.List.{List, [], ◌∷◌}
use fireisp.Prelude.Tests.{Bool-cases}
use fireisp.Prelude.Lists.{any, select, length}

-- A row of the table has it.
abbrev pub Exists {ℓ} : {A : Type ℓ} → (A → Type 0) → List A → Type 0
Exists P [] = ⊥
Exists P (x ∷ xs) = P x ⊎ Exists P xs

-- The number of rows that have it.
pub data Count {A : Type 0} (P : A → Type 0) : List A → ℕ → Type 0 where
  nil : Count P [] 0
  hit : {x : A} {xs : List A} {n : ℕ} → P x → Count P xs n → Count P (x ∷ xs) (suc n)
  miss : {x : A} {xs : List A} {n : ℕ} → ¬ P x → Count P xs n → Count P (x ∷ xs) n

-- A test decides a statement.
abbrev pub Reflects {ℓ} : Bool → Type ℓ → Type ℓ
Reflects b P = (b ≡ true) ↔ P

pub refuted {ℓ} : {b : Bool} {P : Type ℓ} → Reflects b P → b ≡ false → ¬ P
refuted r h p = let it = r.1 p in absurd cc

pub refutes {ℓ} : {b : Bool} {P : Type ℓ} → Reflects b P → ¬ P → b ≡ false
refutes {b = b} r n = elim (Bool-cases b) [ inl holds ↦ absurd (n (r.0 holds)) | inr fails ↦ fails ]

pub any-Reflects :
    {A : Type 0} (p : A → Bool) (P : A → Type 0) (xs : List A)
    → ((x : A) → Reflects (p x) (P x))
    → Reflects (any p xs) (Exists P xs)
any-Reflects p P [] r = (λ h. absurd cc, λ h. absurd h)
any-Reflects p P (x ∷ xs) r = elim (Bool-cases (p x)) [
  | inl holds ↦ rw holds (λ _. inl ((r x).0 holds), λ _. refl)
  | inr fails ↦
      let rest = any-Reflects p P xs r in
      rw fails (
        λ h. inr (rest.0 h),
        λ e. elim e [ inl here ↦ absurd (refuted (r x) fails here) | inr there ↦ rest.1 there ],
      )
]

pub select-Count :
    {A : Type 0} (p : A → Bool) (P : A → Type 0) (xs : List A)
    → ((x : A) → Reflects (p x) (P x))
    → Count P xs (length (select p xs))
select-Count p P [] r = nil
select-Count p P (x ∷ xs) r =
    let rest = select-Count p P xs r in
    elim (Bool-cases (p x)) [
      | inl holds ↦ rw holds (hit ((r x).0 holds) rest)
      | inr fails ↦ rw fails (miss (refuted (r x) fails) rest)
    ]

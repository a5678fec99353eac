-- ===== src/Prelude/Versions.antt =====
-- Tables whose rows come in versions: each row of an earlier table is in the later one, in the same
-- or a later version.
use Prim.Native.Nat.{ℕ}
use mathlib.Core.Path.{◌≡◌, ◌∙◌, refl, sym, subst}
use mathlib.Core.Logic.{inl, inr}
use mathlib.Core.Option.{Option, none, some}
use mathlib.Core.List.{List}
use fireisp.Prelude.Tests.{Bool-cases, ◌==◌}
use fireisp.Prelude.Lists.{find, update_where}
use fireisp.Prelude.Keys.{==_eq, ==_neq, find-replaced}

-- What is written once stays.
abbrev pub WriteOnce {ℓ} : {A : Type ℓ} → Option A → Option A → Type ℓ
WriteOnce {A = A} o o' = (a : A) → o ≡ some a → o' ≡ some a

pub first_write {ℓ} : {A : Type ℓ} (o o' : Option A) → o ≡ none → WriteOnce o o'
first_write o o' e a h = cc

-- What is written once stays, and so does what was written with it.
abbrev pub WrittenWith {ℓ} : {A B : Type ℓ} → Option A → Option A → B → B → Type ℓ
WrittenWith {A = A} o o' b b' = (a : A) → o ≡ some a → (o' ≡ some a) × (b' ≡ b)

pub first_written {ℓ} :
    {A B : Type ℓ} (o o' : Option A) (b b' : B) → o ≡ none → WrittenWith o o' b b'
first_written o o' b b' e a h = cc

pub WrittenWith-trans {ℓ} :
    {A B : Type ℓ} {o p q : Option A} {b c d : B}
    → WrittenWith o p b c
    → WrittenWith p q c d
    → WrittenWith o q b d
WrittenWith-trans f g a e =
    let (there, same) = f a e in let (there', same') = g a there in (there', same' ∙ same)

module _ {A : Type 0} (key : A → ℕ) (Follows : A → A → Type 0) where
  abbrev pub Evolves : List A → List A → Type 0
  Evolves xs ys =
      (k : ℕ) (r : A)
      → find (λ x. key x == k) xs ≡ some r
      → (r' : A) × (find (λ x. key x == k) ys ≡ some r') × Follows r r'

  -- A row is replaced by a later version of it.
  pub replaced-Evolves :
      ((r s t : A) → Follows r s → Follows s t → Follows r t)
      → (old xs : List A) (r r' : A) → key r' ≡ key r
      → find (λ x. key x == key r) xs ≡ some r
      → Follows r r'
      → Evolves old xs
      → Evolves old (update_where (λ x. key x == key r') (λ _. r') xs)
  replaced-Evolves trans old xs r r' same there follows evolved k r0 found0 =
      let (r1, found1, f) = evolved k r0 found0 in
      let (hit, miss) = find-replaced key (key r') k r' xs refl found1 in
      elim (Bool-cases (k == key r')) [
        | inl e ↦
            let is_k : k ≡ key r = ==_eq k (key r') e ∙ same in
            let found : find (λ x. key x == key r) xs ≡ some r1 =
              subst (λ j. find (λ x. key x == j) xs ≡ some r1) is_k found1 in
            let it : some r ≡ some r1 = sym there ∙ found in
            let is_r : r ≡ r1 = cc in
            (
              r',
              hit (==_eq k (key r') e),
              trans r0 r r' (subst (λ x. Follows r0 x) (sym is_r) f) follows,
            )
        | inr e ↦ (r1, miss (==_neq k (key r') e), f)
      ]

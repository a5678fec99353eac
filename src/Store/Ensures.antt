-- ===== src/Store/Ensures.antt =====
-- Postconditions of transactions: what holds of the result and the state wherever no exception is
-- raised.
use fireisp.Prelude.{
  ◌≡◌, refl, ◌∙◌, ◌⊎◌, inl, inr, Bool, true, false, Option, none, some, if◌then◌else◌,
}
use mathlib.Core.Path.{subst}
use fireisp.Store.Tables.{Db}
use fireisp.Store.Monad.{Error, Result, ok, err, M, ◌>>=◌, maybe, or_raise, raise_if}

abbrev pub Ensures : {A : Type 0} → (A → Db → Type 0) → Result (A × Db) → Type 0
Ensures P (ok (a, db)) = P a db
Ensures P (err e) = Unit

-- The ledger, or any other part of the state, is as it was.
abbrev pub Keeps : {A X : Type 0} → (Db → X) → M A → Type 0
Keeps part m = (db : Db) → Ensures (λ _ db'. part db' ≡ part db) (m db)

pub Ensures-bind :
    {A B : Type 0} (Q : A → Db → Type 0) (P : B → Db → Type 0) (m : M A) (f : A → M B) (db : Db)
    → Ensures Q (m db)
    → ((a : A) (db' : Db) → Q a db' → Ensures P (f a db'))
    → Ensures P ((m >>= f) db)
Ensures-bind {A} {B} Q P m f db h k = go (m db) h
  where
    go :
        (r : Result (A × Db))
        → Ensures Q r
        → Ensures P
            (let s : Result (B × Db) = elim r [ ok (a, db') ↦ f a db' | err e ↦ err e ] in s)
    go (ok (a, db')) q = k a db' q
    go (err e) q = tt

pub Ensures-map :
    {A : Type 0} (P Q : A → Db → Type 0) (r : Result (A × Db))
    → ((a : A) (db : Db) → P a db → Q a db)
    → Ensures P r
    → Ensures Q r
Ensures-map P Q (ok (a, db)) f h = f a db h
Ensures-map P Q (err e) f h = tt

pub Keeps-bind :
    {A B X : Type 0} (part : Db → X) (m : M A) (f : A → M B)
    → Keeps part m
    → ((a : A) → Keeps part (f a))
    → Keeps part (m >>= f)
Keeps-bind part m f h k db =
    Ensures-bind (λ _ db'. part db' ≡ part db) (λ _ db'. part db' ≡ part db) m f db (h db)
      (λ a db' same.
        Ensures-map (λ _ d. part d ≡ part db') (λ _ d. part d ≡ part db) (f a db')
          (λ _ _ e. e ∙ same) (k a db'))

pub Keeps-or_raise :
    {A X : Type 0} (part : Db → X) (e : Error) (o : Option A) → Keeps part (or_raise e o)
Keeps-or_raise part e none db = tt
Keeps-or_raise part e (some a) db = refl

pub Keeps-raise_if : {X : Type 0} (part : Db → X) (b : Bool) (e : Error) → Keeps part (raise_if b e)
Keeps-raise_if part true e db = tt
Keeps-raise_if part false e db = refl

pub Keeps-maybe :
    {A B X : Type 0} (part : Db → X) (n : M B) (f : A → M B) (o : Option A)
    → Keeps part n
    → ((a : A) → Keeps part (f a))
    → Keeps part (maybe o n f)
Keeps-maybe part n f none h k = h
Keeps-maybe part n f (some a) h k = k a

pub Keeps-if :
    {B X : Type 0} (part : Db → X) (b : Bool) (m n : M B)
    → Keeps part m
    → Keeps part n
    → Keeps part (if b then m else n)
Keeps-if part true m n h k = h
Keeps-if part false m n h k = k

pub Ensures-eq :
    {A : Type 0} (P : A → Db → Type 0) {r : Result (A × Db)} {a : A} {db : Db}
    → Ensures P r
    → r ≡ ok (a, db)
    → P a db
Ensures-eq P h e = subst (Ensures P) e h

pub Result-cases :
    {A : Type 0} (r : Result A) → ((a : A) × (r ≡ ok a)) ⊎ ((e : Error) × (r ≡ err e))
Result-cases (ok a) = inl (a, refl)
Result-cases (err e) = inr (e, refl)

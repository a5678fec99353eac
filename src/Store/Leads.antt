-- ===== src/Store/Leads.antt =====
-- Transactions that lead from one predicate on the database to another. What a step has read or
-- tested becomes part of what the steps behind it start from.
use fireisp.Prelude.{◌≡◌, refl, Bool, true, false, Option, none, some, if◌then◌else◌}
use fireisp.Store.Tables.{Db}
use fireisp.Store.Monad.{Error, M, ◌>>=◌, ◌>>◌, gets, or_raise, raise_if, maybe}
use fireisp.Store.Ensures.{Ensures, Ensures-bind}
use fireisp.Store.Preserves.{Preserves}

pub record Leads {A : Type 0} (Q P : Db → Type 0) (m : M A) : Type 0 where
  pub at : (db : Db) → Q db → Ensures (λ _ db'. P db') (m db)

module _ {Q P : Db → Type 0} where
  pub Leads-bind :
      {A B : Type 0} {R : Db → Type 0} {m : M A} {f : A → M B}
      → Leads Q R m
      → ((a : A) → Leads R P (f a))
      → Leads Q P (m >>= f)
  Leads-bind {R = R} {m = m} {f = f} h k = record {
    at = λ db q. Ensures-bind (λ _ d. R d) (λ _ d. P d) m f db (h.at db q) (λ a d r. (k a).at d r);
  }

  -- A first step that keeps what is known.
  pub Leads-read :
      {A B : Type 0} {m : M A} {f : A → M B}
      → Preserves Q m
      → ((a : A) → Leads Q P (f a))
      → Leads Q P (m >>= f)
  Leads-read {m = m} {f = f} h k = record {
    at = λ db q. Ensures-bind (λ _ d. Q d) (λ _ d. P d) m f db (h.at db q) (λ a d r. (k a).at d r);
  }

  pub Leads-guard :
      {B : Type 0} (b : Bool) (e : Error) {k : M B}
      → (b ≡ false → Leads Q P k)
      → Leads Q P (raise_if b e >> k)
  Leads-guard true e h = record { at = λ db q. tt }
  Leads-guard false e h = record { at = λ db q. (h refl).at db q }

  pub Leads-gets :
      {A B : Type 0} {f : Db → A} {k : A → M B}
      → ((a : A) → Leads (λ db. Q db × (f db ≡ a)) P (k a))
      → Leads Q P (gets f >>= k)
  Leads-gets {f = f} h = record { at = λ db q. (h (f db)).at db (q, refl) }

  pub Leads-or_raise :
      {A B : Type 0} (e : Error) (o : Option A) {k : A → M B}
      → ((a : A) → o ≡ some a → Leads Q P (k a))
      → Leads Q P (or_raise e o >>= k)
  Leads-or_raise e none h = record { at = λ db q. tt }
  Leads-or_raise e (some a) h = record { at = λ db q. (h a refl).at db q }

  pub Leads-maybe :
      {A B : Type 0} {n : M B} {f : A → M B} (o : Option A)
      → (o ≡ none → Leads Q P n)
      → ((a : A) → o ≡ some a → Leads Q P (f a))
      → Leads Q P (maybe o n f)
  Leads-maybe none h k = record { at = λ db q. (h refl).at db q }
  Leads-maybe (some a) h k = record { at = λ db q. (k a refl).at db q }

  pub Leads-if :
      {B : Type 0} (b : Bool) {m n : M B}
      → (b ≡ true → Leads Q P m)
      → (b ≡ false → Leads Q P n)
      → Leads Q P (if b then m else n)
  Leads-if true h k = h refl
  Leads-if false h k = k refl

  -- The rest no longer needs what is known.
  pub Leads-from : {B : Type 0} {m : M B} → ((db : Db) → Q db → P db) → Preserves P m → Leads Q P m
  Leads-from back h = record { at = λ db q. h.at db (back db q) }

  pub Leads-weaken :
      {B : Type 0} {R : Db → Type 0} {m : M B}
      → ((db : Db) → Q db → R db)
      → Leads R P m
      → Leads Q P m
  Leads-weaken back h = record { at = λ db q. h.at db (back db q) }

pub Leads-Preserves : {A : Type 0} {P : Db → Type 0} {m : M A} → Leads P P m → Preserves P m
Leads-Preserves h = record { at = h.at }

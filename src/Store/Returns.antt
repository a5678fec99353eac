-- ===== src/Store/Returns.antt =====
-- Results of transactions: what holds of the value that a transaction returns, wherever no exception
-- is raised, from whatever database.
use fireisp.Prelude.{Bool, true, false, Option, none, some, if◌then◌else◌}
use fireisp.Store.Tables.{Db}
use fireisp.Store.Monad.{Error, ok, err, M, ◌>>=◌, ◌>>◌, maybe, pure, raise}
use fireisp.Store.Ensures.{Ensures, Ensures-bind}

pub record Returns {A : Type 0} (Q : A → Type 0) (m : M A) : Type 0 where
  pub at : (db : Db) → Ensures (λ a _. Q a) (m db)

module _ {B : Type 0} {Q : B → Type 0} where
  pub Returns-bind :
      {A : Type 0} (m : M A) {f : A → M B} → ((a : A) → Returns Q (f a)) → Returns Q (m >>= f)
  Returns-bind {A} m {f = f} k = record {
    at = λ db.
        Ensures-bind (λ _ _. Unit {0}) (λ a _. Q a) m f db (trivial db) (λ a db' _. (k a).at db');
  }
    where
      trivial : (db : Db) → Ensures (λ _ _. Unit {0}) (m db)
      trivial db = elim (m db) as (λ r. Ensures (λ _ _. Unit {0}) r) [ ok p ↦ tt | err e ↦ tt ]

  pub Returns-then : (m : M (Unit {0})) {k : M B} → Returns Q k → Returns Q (m >> k)
  Returns-then m h = Returns-bind m (λ _. h)

  pub Returns-pure : (b : B) → Q b → Returns Q (pure b)
  Returns-pure b q = record { at = λ db. q }

  pub Returns-raise : (e : Error) → Returns Q (raise e)
  Returns-raise e = record { at = λ db. tt }

  pub Returns-maybe :
      {A : Type 0} {n : M B} {f : A → M B} (o : Option A)
      → Returns Q n
      → ((a : A) → Returns Q (f a))
      → Returns Q (maybe o n f)
  Returns-maybe none h k = h
  Returns-maybe (some a) h k = k a

  pub Returns-if :
      {m n : M B} (b : Bool) → Returns Q m → Returns Q n → Returns Q (if b then m else n)
  Returns-if true h k = h
  Returns-if false h k = k

pub ruleset returns_rules =
    (Returns-pure, Returns-raise, Returns-maybe, Returns-if, Returns-then, Returns-bind)

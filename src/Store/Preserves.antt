-- ===== src/Store/Preserves.antt =====
-- Invariants of transactions: a predicate on the database that a transaction keeps wherever no
-- exception is raised, with one rule for each way to build a transaction.
use fireisp.Prelude.{Bool, true, false, Option, none, some, if◌then◌else◌}
use fireisp.Store.Tables.{Db}
use fireisp.Store.Monad.{
  Error, Result, ok, err, M, ◌>>=◌, ◌>>◌, maybe, done, pure, raise, gets, modify, or_raise,
  raise_if, lift,
}
use fireisp.Store.Ensures.{Ensures, Ensures-bind, Ensures-map}

pub record Preserves {A : Type 0} (P : Db → Type 0) (m : M A) : Type 0 where
  pub at : (db : Db) → P db → Ensures (λ _ db'. P db') (m db)

module _ {P : Db → Type 0} where
  pub Preserves-bind :
      {A B : Type 0} {m : M A} {f : A → M B}
      → Preserves P m
      → ((a : A) → Preserves P (f a))
      → Preserves P (m >>= f)
  Preserves-bind {m = m} {f} h k = record {
    at = λ db p.
        Ensures-bind (λ _ db'. P db') (λ _ db'. P db') m f db (h.at db p)
          (λ a db' q. (k a).at db' q);
  }

  pub Preserves-then :
      {B : Type 0} {m : M (Unit {0})} {k : M B}
      → Preserves P m
      → Preserves P k
      → Preserves P (m >> k)
  Preserves-then h k = Preserves-bind h (λ _. k)

  pub Preserves-pure : {A : Type 0} (a : A) → Preserves P (pure a)
  Preserves-pure a = record { at = λ db p. p }

  pub Preserves-done : Preserves P done
  Preserves-done = record { at = λ db p. p }

  pub Preserves-gets : {A : Type 0} (f : Db → A) → Preserves P (gets f)
  Preserves-gets f = record { at = λ db p. p }

  pub Preserves-modify : (f : Db → Db) → ((db : Db) → P db → P (f db)) → Preserves P (modify f)
  Preserves-modify f h = record { at = h }

  pub Preserves-raise : {A : Type 0} (e : Error) → Preserves P (raise {A = A} e)
  Preserves-raise e = record { at = λ db p. tt }

  pub Preserves-or_raise : {A : Type 0} (e : Error) (o : Option A) → Preserves P (or_raise e o)
  Preserves-or_raise e none = record { at = λ db p. tt }
  Preserves-or_raise e (some a) = record { at = λ db p. p }

  pub Preserves-raise_if : (b : Bool) (e : Error) → Preserves P (raise_if b e)
  Preserves-raise_if true e = record { at = λ db p. tt }
  Preserves-raise_if false e = record { at = λ db p. p }

  pub Preserves-lift : {A : Type 0} (r : Result A) → Preserves P (lift r)
  Preserves-lift (ok a) = record { at = λ db p. p }
  Preserves-lift (err e) = record { at = λ db p. tt }

  pub Preserves-maybe :
      {A B : Type 0} {n : M B} {f : A → M B} (o : Option A)
      → Preserves P n
      → ((a : A) → Preserves P (f a))
      → Preserves P (maybe o n f)
  Preserves-maybe none h k = h
  Preserves-maybe (some a) h k = k a

  pub Preserves-if :
      {B : Type 0} {m n : M B} (b : Bool)
      → Preserves P m
      → Preserves P n
      → Preserves P (if b then m else n)
  Preserves-if true h k = h
  Preserves-if false h k = k

-- A first step that makes sure of more, which the rest keeps.
pub Preserves-via :
    {P Q : Db → Type 0} {A B : Type 0} (m : M A) (f : A → M B)
    → ((db : Db) → P db → Ensures (λ _ db'. Q db') (m db))
    → ((a : A) → Preserves Q (f a))
    → ((db : Db) → Q db → P db)
    → Preserves P (m >>= f)
Preserves-via {P} {Q} m f first rest back = record {
  at = λ db p.
      Ensures-bind (λ _ d. Q d) (λ _ d. P d) m f db (first db p)
        (λ a d q.
          Ensures-map (λ _ e. Q e) (λ _ e. P e) (f a d) (λ _ e k. back e k) ((rest a).at d q));
}

pub ruleset preserves_rules = (
  Preserves-pure, Preserves-done, Preserves-gets, Preserves-raise, Preserves-or_raise,
  Preserves-raise_if, Preserves-lift, Preserves-maybe, Preserves-if, Preserves-then, Preserves-bind,
)

-- ===== src/Billing/Invariant.antt =====
-- The invariant of the database's ledger. `_refresh_subscription` and `_allocate_customer` of
-- billing/services.py keep it.
pub mod Calls
pub mod Adjust
pub mod Others
pub mod Reach
use fireisp.Prelude.{
  ℕ, suc, ◌≤◌, ◌<◌, ◌≡◌, sym, Option, List, ◌∷◌, arith, All, All-map, map, if◌then◌else◌, ◌==◌,
}
use mathlib.Core.Path.{subst}
use fireisp.Prelude.Sort.{All_of_keys, Distinct_of_keys}
use fireisp.Store.{
  Invoice, Payment, Allocation, Message, Subscription, Ledger, with_ledger, Db, M, fresh, Env,
}
use fireisp.Store.Ensures.{Ensures, Ensures-map, Keeps}
use fireisp.Store.Preserves.{Preserves}
use fireisp.Core.{audit, publish, save_subscription}
use fireisp.Core.Preserves.{reads_rules}
use fireisp.Prelude.Text.{Text}
use fireisp.Billing.Allocate.{allocate}
use fireisp.Billing.Allocate.Step.{IsFunded}
use fireisp.Billing.Allocate.Laws.{IsSound, received, allocate-kept, allocate-IsFunded}
use fireisp.Billing.Account.{refresh_subscription, refresh_all, allocate_customer}
use fireisp.Billing.Account.Frame.{
  fixed_of, refresh-Keeps, refresh_all-Keeps, allocate_customer-fixed,
}

-- The ledger is sound, and every invoice has a key that the sequence has passed.
pub record IsConsistent (l : Ledger) (next_pk : ℕ) : Type 0 where
  pub sound : IsSound l
  pub issued : All (λ v. v.pk < next_pk) l.invoices

abbrev pub Consistent : Db → Type 0
Consistent db = IsConsistent db.ledger db.next_pk

-- The allocation keeps the soundness of the ledger.
pub allocate-IsSound : (customer : ℕ) (l : Ledger) → IsSound l → IsSound (allocate customer l)
allocate-IsSound customer l s =
    let (payments, _, _, _, keys) = allocate-kept customer l in
    let (funded, positive) = allocate-IsFunded customer l s in
    record {
      distinct =
          Distinct_of_keys (λ v. v.pk) (allocate customer l).invoices l.invoices keys s.distinct;
      funded =
          subst (λ ps. IsFunded (received ps) (allocate customer l).allocations) (sym payments)
            funded;
      positive = positive;
    }

pub allocate-IsConsistent :
    (customer : ℕ) (l : Ledger) (n : ℕ) → IsConsistent l n → IsConsistent (allocate customer l) n
allocate-IsConsistent customer l n c =
    let (_, _, _, _, keys) = allocate-kept customer l in
    record {
      sound = allocate-IsSound customer l c.sound;
      issued =
          All_of_keys (λ v. v.pk) (λ k. k < n) (allocate customer l).invoices l.invoices keys
            c.issued;
    }

-- What leaves the fixed parts alone keeps the invariant.
pub Keeps-Consistent : {A : Type 0} (m : M A) → Keeps fixed_of m → Preserves Consistent m
Keeps-Consistent m keeps = record {
  at = λ db c.
      Ensures-map (λ _ db'. fixed_of db' ≡ fixed_of db) (λ _ db'. Consistent db') (m db)
        (λ _ db' same. subst (λ f. IsConsistent f.0 f.7) (sym same) c) (keeps db);
}

pub refresh-Consistent :
    (env : Env) (pk : Option ℕ) → Preserves Consistent (refresh_subscription env pk)
refresh-Consistent env pk = Keeps-Consistent _ (refresh-Keeps env pk)

pub refresh_all-Consistent :
    (env : Env) (pks : List (Option ℕ)) → Preserves Consistent (refresh_all env pks)
refresh_all-Consistent env pks = Keeps-Consistent _ (refresh_all-Keeps env pks)

pub allocate_customer-Consistent :
    (env : Env) (customer : ℕ) → Preserves Consistent (allocate_customer env customer)
allocate_customer-Consistent env customer = record {
  at = λ db c.
      Ensures-map (λ _ db'. fixed_of db' ≡ fixed_of (with_ledger (allocate customer) db))
        (λ _ db'. Consistent db') (allocate_customer env customer db)
        (λ _ db' same.
          subst (λ f. IsConsistent f.0 f.7) (sym same)
            (allocate-IsConsistent customer db.ledger db.next_pk c))
        (allocate_customer-fixed env customer db);
}

-- A key that was drawn is behind the sequence.
pub IsConsistent-suc : (l : Ledger) (n : ℕ) → IsConsistent l n → IsConsistent l (suc n)
IsConsistent-suc l n c = record {
  sound = c.sound;
  issued = All-map (λ v. v.pk < n) (λ v. v.pk < suc n) l.invoices (λ v h. omega arith) c.issued;
}

pub fresh-Consistent : Preserves Consistent fresh
fresh-Consistent = record { at = λ db c. IsConsistent-suc db.ledger db.next_pk c }

pub audit-Consistent :
    (env : Env) (actor : Option ℕ) (action : Text) (target : ℕ)
    → Preserves Consistent (audit env actor action target)
unfolding audit
audit-Consistent env actor action target = record { at = λ db c. c }

pub publish-Consistent :
    (key : Text) (message : Message) → Preserves Consistent (publish key message)
unfolding publish
publish-Consistent key message = Keeps-Consistent _ λ db. ground arith

pub save_subscription-Consistent : (s : Subscription) → Preserves Consistent (save_subscription s)
unfolding save_subscription
save_subscription-Consistent s = record { at = λ db c. c }

pub ruleset consistent_rules = (
  reads_rules, refresh-Consistent, refresh_all-Consistent, allocate_customer-Consistent,
  fresh-Consistent, audit-Consistent, publish-Consistent, save_subscription-Consistent,
)

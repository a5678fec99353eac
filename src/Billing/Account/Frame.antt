-- ===== src/Billing/Account/Frame.antt =====
-- `_refresh_subscription` writes subscriptions, releases and the journal, and no amount.
use fireisp.Prelude.{ℕ, ◌≡◌, refl, Option, none, some, List, [], ◌∷◌, arith}
use fireisp.Store.{
  Subscription, SuspensionApplication, Customer, Plan, CashDesk, BankEntry, Operations, Ledger,
  with_ledger, Db, done, raise, type_error, does_not_exist, Env,
}
use fireisp.Store.Ensures.{Ensures, Keeps, Keeps-bind, Keeps-or_raise, Keeps-maybe, Keeps-if}
use fireisp.Core.{audit, publish, get_subscription, save_subscription}
use fireisp.Billing.Allocate.{open_invoices, allocate}
use fireisp.Billing.Account.{
  affected, unreleased, release_suspension, resume_nonpayment, refresh_subscription, refresh_all,
  allocate_customer,
}

-- The parts that it leaves alone.
abbrev pub fixed_of :
    Db → Ledger × List ℕ × List Customer × List Plan × CashDesk × List BankEntry × Operations × ℕ
fixed_of db = (
  db.ledger, db.accounts.users, db.accounts.customers, db.accounts.plans, db.desk, db.bank,
  db.operations, db.next_pk,
)

release-Keeps :
    (env : Env) (s : Subscription) (actor : Option ℕ) (a : SuspensionApplication)
    → Keeps fixed_of (release_suspension env s actor a)
unfolding release_suspension save_subscription audit publish
release-Keeps env s actor a db = ground arith

resume-Keeps :
    (env : Env) (s : Subscription) (actor : Option ℕ)
    → Keeps fixed_of (resume_nonpayment env s actor)
unfolding resume_nonpayment
resume-Keeps env s actor =
    Keeps-if fixed_of _ done _ (λ db. refl)
      (λ db.
        Keeps-maybe fixed_of done (release_suspension env s actor) (unreleased s.pk db.suspensions)
          (λ db. refl) (release-Keeps env s actor) db)

get_subscription-Keeps : (pk : ℕ) → Keeps fixed_of (get_subscription pk)
unfolding get_subscription
get_subscription-Keeps pk db = Keeps-or_raise fixed_of does_not_exist _ db

pub refresh-Keeps : (env : Env) (pk : Option ℕ) → Keeps fixed_of (refresh_subscription env pk)
unfolding refresh_subscription save_subscription
refresh-Keeps env none = λ db. refl
refresh-Keeps env (some pk) = Keeps-bind fixed_of _ _ (get_subscription-Keeps pk) λ s.
    Keeps-maybe fixed_of done _ s.activated_at (λ db. refl)
      λ activated db.
        Keeps-maybe fixed_of (raise type_error) _ _ (λ db. tt)
          (λ day. λ db.
            resume-Keeps env (record s { paid_until = some (env.at_time_of day activated) }) none _)
          db

pub refresh_all-Keeps : (env : Env) (pks : List (Option ℕ)) → Keeps fixed_of (refresh_all env pks)
unfolding refresh_all
refresh_all-Keeps env [] = λ db. refl
refresh_all-Keeps env (pk ∷ pks) =
    Keeps-bind fixed_of _ _ (refresh-Keeps env pk) (λ _. refresh_all-Keeps env pks)

-- The ledger after `_allocate_customer` is what `allocate` makes of it.
pub allocate_customer-fixed :
    (env : Env) (customer : ℕ) (db : Db)
    → Ensures
        (λ _ db'. fixed_of db' ≡ fixed_of (with_ledger (allocate customer) db))
        (allocate_customer env customer db)
unfolding allocate_customer
allocate_customer-fixed env customer db =
    refresh_all-Keeps env (affected (open_invoices customer db.ledger))
      (with_ledger (allocate customer) db)

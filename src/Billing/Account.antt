-- ===== src/Billing/Account.antt =====
-- `_resume_nonpayment`, `_refresh_subscription` and `_allocate_customer` of billing/services.py: a
-- customer's credits are put to the open invoices, and the services that they pay are extended.
pub mod Frame
use fireisp.Prelude.{
  ℕ, Bool, true, false, not, ◌&&◌, ◌||◌, Option, none, some, List, [], ◌∷◌, ◌++◌, ltb, leb, ◌==◌,
  if◌then◌else◌, find, any, select,
}
use fireisp.Prelude.Int.{pos, leb_ℤ}
use fireisp.Prelude.Sort.{order_by}
use fireisp.Prelude.Text.{codes, show_ℕ}
use fireisp.Calendar.{Date, date_eq}
use fireisp.Store.{
  Subscription, SubscriptionStatus, active, suspended, Invoice, InvoiceStatus, void,
  SuspensionProposal, SuspensionApplication, SuspensionRelease, Suspensions, Message,
  subscription_changed, notification, Ledger, Db, M, ◌>>=◌, maybe, ◌>>◌, done, pure, raise, gets,
  modify, with_ledger, with_suspensions, type_error, Env,
}
use fireisp.Core.{audit, publish, get_subscription, save_subscription}
use fireisp.Billing.Balances.{balance}
use fireisp.Billing.Allocate.{start_ltb, open_invoices, allocate}

abbrev pub is_suspended : SubscriptionStatus → Bool
is_suspended suspended = true
is_suspended _ = false

abbrev pub is_void : InvoiceStatus → Bool
is_void void = true
is_void _ = false

-- The last applied suspension of the subscription that has no release.
unfoldable pub unreleased : ℕ → Suspensions → Option SuspensionApplication
unreleased subscription s =
    find (λ a. true)
      (order_by (λ a b. leb b.created_at a.created_at)
        (select
          (λ a.
            any (λ p. p.pk == a.proposal && p.subscription == subscription) s.proposals
            && a.applied
            && not (any (λ r. r.application == a.pk) s.releases))
          s.applications))

-- The writes of `_resume_nonpayment` once there is a suspension to release.
unfoldable pub release_suspension :
    Env → Subscription → Option ℕ → SuspensionApplication → M (Unit {0})
release_suspension env s actor application = do
  modify (
      with_suspensions λ t. record t {
        releases = record { application = application.pk; created_by = actor } ∷ t.releases;
      })
  save_subscription (record s { status = active })
  audit env actor (codes "billing.suspension.released") application.pk
  publish (codes "nonpayment-release:" ++ show_ℕ application.pk) (subscription_changed s.pk)
  publish (codes "nonpayment-release-notice:" ++ show_ℕ application.pk)
      (notification s.customer (codes "Renovación registrada"))

abbrev pub is_after : Option ℕ → ℕ → Bool
is_after none now = false
is_after (some t) now = ltb now t

unfoldable pub resume_nonpayment : Env → Subscription → Option ℕ → M (Unit {0})
resume_nonpayment env s actor =
    if not (is_suspended s.status && is_after s.paid_until env.now) then done else do
      application ← gets (λ db. unreleased s.pk db.suspensions)
      maybe application (done) (λ a. release_suspension env s actor a)

abbrev pub opt_date_eq : Option Date → Option Date → Bool
opt_date_eq (some a) (some b) = date_eq a b
opt_date_eq none none = true
opt_date_eq _ _ = false

-- The loop of `_refresh_subscription`: the end of the unbroken chain of paid periods.
unfoldable pub paid_through : Ledger → Option Date → List Invoice → Option Date
paid_through l cursor [] = cursor
paid_through l cursor (v ∷ vs) =
    let rest = paid_through l v.period_end vs in
    if not (opt_date_eq v.period_start cursor) || not (leb_ℤ (balance l v) (pos 0))
    then cursor
    else rest

unfoldable pub subscription_invoices : ℕ → Ledger → List Invoice
subscription_invoices subscription l =
    order_by (λ a b. not (start_ltb b.period_start a.period_start))
      (select
        (λ v.
          elim v.subscription [ none ↦ false | some s ↦ s == subscription ]
          && not (is_void v.status))
        l.invoices)

unfoldable pub refresh_subscription : Env → Option ℕ → M (Unit {0})
refresh_subscription env none = done
refresh_subscription env (some pk) = do
  s ← get_subscription pk
  maybe s.activated_at (done) (λ activated. do
    cursor ← gets (λ db.
        paid_through db.ledger (some (env.local_date activated))
          (subscription_invoices pk db.ledger))
    maybe cursor (raise type_error) (λ day. do
      let t = record s { paid_until = some (env.at_time_of day activated) }
      save_subscription t
      resume_nonpayment env t none))

-- `for subscription_id in affected: _refresh_subscription(subscription_id)`
unfoldable pub refresh_all : Env → List (Option ℕ) → M (Unit {0})
refresh_all env [] = done
refresh_all env (s ∷ ss) = do refresh_subscription env s; refresh_all env ss

abbrev pub same_key : Option ℕ → Option ℕ → Bool
same_key (some a) (some b) = a == b
same_key none none = true
same_key _ _ = false

-- The set of the subscriptions of some invoices. Python's iteration order is left open by the
-- language; the model takes the order of the invoices.
unfoldable pub affected : List Invoice → List (Option ℕ)
affected [] = []
affected (v ∷ vs) =
    let rest = affected vs in
    if any (same_key v.subscription) rest then rest else v.subscription ∷ rest

unfoldable pub allocate_customer : Env → ℕ → M (Unit {0})
allocate_customer env customer = do
  subscriptions ← gets (λ db. affected (open_invoices customer db.ledger))
  modify (with_ledger (allocate customer))
  refresh_all env subscriptions

-- ===== src/Core.antt =====
-- core/services.py: the audit log and the outbox, and the rows that the services look up and lock.
pub mod Actors
pub mod Reads
pub mod Preserves
use fireisp.Prelude.{ℕ, Option, none, some, ◌∷◌, ◌==◌, if◌then◌else◌, find, any, update_where}
use fireisp.Prelude.Text.{Text, text_eq}
use fireisp.Store.{
  Organization, Customer, Plan, Subscription, Invoice, Message, M, ◌>>=◌, done, raise, gets,
  or_raise, modify, with_journal, with_accounts, does_not_exist, Env,
}

-- `audit(actor, action, target)`
unfoldable pub audit : Env → Option ℕ → Text → ℕ → M (Unit {0})
audit env actor action target = modify (
    with_journal λ j. record j {
      audits = record { at = env.now; actor = actor; action = action; target = target } ∷ j.audits;
    })

-- `publish(key, topic, payload)`: an event that is there already stays as it is.
unfoldable pub publish : Text → Message → M (Unit {0})
unfolding text_eq
publish key message = do
  known ← gets (λ db. any (λ e. text_eq e.key key) db.journal.outbox)
  if known
      then done
      else modify (
          with_journal
            λ j. record j { outbox = record { key = key; message = message } ∷ j.outbox })

-- `_actor_lock(actor)`
unfoldable pub actor_lock : Option ℕ → M (Unit {0})
actor_lock none = done
actor_lock (some pk) = do
  known ← gets (λ db. any (λ u. u == pk) db.accounts.users)
  if known then done else raise does_not_exist

-- `customer.organization`
unfoldable pub get_organization : ℕ → M Organization
get_organization pk = do
  row ← gets (λ db. find (λ o. o.pk == pk) db.accounts.organizations)
  or_raise does_not_exist row

-- `Customer.objects.select_for_update().get(pk=...)`
unfoldable pub get_customer : ℕ → M Customer
get_customer pk = do
  row ← gets (λ db. find (λ c. c.pk == pk) db.accounts.customers)
  or_raise does_not_exist row

-- `Subscription.objects.select_for_update(...).get(pk=...)`
unfoldable pub get_subscription : ℕ → M Subscription
get_subscription pk = do
  row ← gets (λ db. find (λ s. s.pk == pk) db.accounts.subscriptions)
  or_raise does_not_exist row

-- `subscription.plan`
unfoldable pub get_plan : ℕ → M Plan
get_plan pk = do
  row ← gets (λ db. find (λ p. p.pk == pk) db.accounts.plans)
  or_raise does_not_exist row

-- `Invoice.objects.select_for_update().get(pk=...)`
unfoldable pub get_invoice : ℕ → M Invoice
get_invoice pk = do
  row ← gets (λ db. find (λ v. v.pk == pk) db.ledger.invoices)
  or_raise does_not_exist row

-- `subscription.save(update_fields=...)`
unfoldable pub save_subscription : Subscription → M (Unit {0})
save_subscription s = modify (
    with_accounts
      λ a. record a { subscriptions = update_where (λ t. t.pk == s.pk) (λ _. s) a.subscriptions })

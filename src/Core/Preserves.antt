-- ===== src/Core/Preserves.antt =====
-- The look-ups of core/services.py and billing/services.py keep every invariant.
use fireisp.Prelude.{ℕ, Option, none, some}
use fireisp.Store.{Db}
use fireisp.Store.Preserves.{Preserves, Preserves-done, preserves_rules}
use fireisp.Core.{
  actor_lock, get_customer, get_organization, get_subscription, get_plan, get_invoice,
}

module _ {P : Db → Type 0} where
  pub actor_lock-Preserves : (actor : Option ℕ) → Preserves P (actor_lock actor)
  unfolding actor_lock
  actor_lock-Preserves none = Preserves-done
  actor_lock-Preserves (some k) = search preserves_rules

  pub get_customer-Preserves : (pk : ℕ) → Preserves P (get_customer pk)
  unfolding get_customer
  get_customer-Preserves pk = search preserves_rules

  pub get_subscription-Preserves : (pk : ℕ) → Preserves P (get_subscription pk)
  unfolding get_subscription
  get_subscription-Preserves pk = search preserves_rules

  pub get_plan-Preserves : (pk : ℕ) → Preserves P (get_plan pk)
  unfolding get_plan
  get_plan-Preserves pk = search preserves_rules

  pub get_invoice-Preserves : (pk : ℕ) → Preserves P (get_invoice pk)
  unfolding get_invoice
  get_invoice-Preserves pk = search preserves_rules

  pub get_organization-Preserves : (pk : ℕ) → Preserves P (get_organization pk)
  unfolding get_organization
  get_organization-Preserves pk = search preserves_rules

pub ruleset reads_rules = (
  preserves_rules, actor_lock-Preserves, get_customer-Preserves, get_subscription-Preserves,
  get_plan-Preserves, get_invoice-Preserves, get_organization-Preserves,
)

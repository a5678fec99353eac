-- ===== src/Compliance/Cancellation.antt =====
-- compliance/services.py: `cancel_subscription`. The drawn folio of a cancellation is left out.
pub mod Laws
use fireisp.Prelude.{ℕ, Bool, not, Option, none, some, ◌∷◌, ◌++◌, ◌==◌, find}
use fireisp.Prelude.Text.{Text, codes, is_blank, show_ℕ}
use fireisp.Store.{
  Subscription, cancelled, subscription_cancelled, M, ◌>>=◌, ◌>>◌, maybe, pure, gets, modify,
  raise_if, fresh, with_compliance, permission_denied, no_channel, Env,
}
use fireisp.Store.Compliance.{CancellationRequest}
use fireisp.Core.{audit, publish, get_customer, get_subscription, save_subscription}
use fireisp.Core.Actors.{Actor, signed_in, key_of, may_act}

unfoldable pub new_cancellation : ℕ → ℕ → Text → Text → Option Actor → CancellationRequest
new_cancellation pk subscription channel reason actor = record {
  pk = pk;
  subscription = subscription;
  channel = channel;
  reason = reason;
  recorded_by = key_of actor;
}

-- The branch `if created`.
unfoldable pub enter_cancellation :
    Env → Subscription → Text → Text → Option Actor → M CancellationRequest
enter_cancellation env s channel reason actor = do
  pk ← fresh
  let r = new_cancellation pk s.pk channel reason actor
  modify (with_compliance λ c. record c { cancellations = r ∷ c.cancellations })
  save_subscription (record s { status = cancelled })
  audit env (signed_in actor) (codes "subscription.cancelled") s.pk
  publish (codes "subscription-cancelled-" ++ show_ℕ s.pk) (subscription_cancelled s.pk pk)
  pure r

unfoldable pub cancel_subscription : Env → ℕ → Option Actor → Text → Text → M CancellationRequest
cancel_subscription env pk actor channel reason = do
  owned ← get_subscription pk
  customer ← get_customer owned.customer
  s ← get_subscription pk
  raise_if (not (may_act customer.user actor)) permission_denied
  raise_if (is_blank channel) no_channel
  row ← gets (λ db. find (λ r. r.subscription == s.pk) db.compliance.cancellations)
  maybe row (enter_cancellation env s channel reason actor) (λ r. pure r)

-- ===== src/Billing/Suspension/Laws.antt =====
-- Laws of the suspension workflow of billing/services.py.
use fireisp.Prelude.{
  ℕ, ◌+◌, ◌*◌, ◌≤◌, ◌≡◌, refl, inl, inr, true, none, some, arith, Option-cases, is_some,
}
use fireisp.Prelude.Exists.{Exists, refuted}
use fireisp.Billing.Suspension.Reasons.{
  Disputes, IsOut, NetworkConfirmed, has_billing_dispute_hold-Reflects, outage-Reflects,
  is_network_confirmed-Reflects,
}
use fireisp.Store.{Subscription, SubscriptionStatus, active, SuspensionPolicy, Operations}
use fireisp.Billing.Suspension.{is_active, in_grace, suspension_block}

-- What must hold for a service to be suspended for non-payment.
pub record MaySuspend (o : Operations) (s : Subscription) (policy : SuspensionPolicy) (now : ℕ)
    : Type 0 where
  pub running : s.status ≡ active
  pub installed : is_some s.activated_at ≡ true
  pub expiry : ℕ
  pub expired : s.paid_until ≡ some expiry
  pub past_grace : expiry + policy.grace_hours * 3600 ≤ now
  pub undisputed : ¬ Exists (Disputes s) o.tickets
  pub no_outage : ¬ Exists (IsOut s) o.outages

is_active-eq : (t : SubscriptionStatus) → is_active t ≡ true → t ≡ active
is_active-eq active h = refl
is_active-eq _ h = cc

pub suspension_block-none :
    (o : Operations) (s : Subscription) (policy : SuspensionPolicy) (now : ℕ)
    → suspension_block o s policy now true ≡ none
    → MaySuspend o s policy now × NetworkConfirmed o s.pk now
unfolding suspension_block in_grace
suspension_block-none o s policy now h = elim (Option-cases s.paid_until) [
  | inl missing ↦ ground arith
  | inr (t, paid) ↦ (
    record {
      running = ground (arith, is_active-eq s.status);
      installed = ground arith;
      expiry = t;
      expired = paid;
      past_grace = ground arith;
      undisputed = refuted (has_billing_dispute_hold-Reflects o s) (ground arith);
      no_outage = refuted (outage-Reflects o s) (ground arith);
    },
    (is_network_confirmed-Reflects o s.pk now).0 (ground arith),
  )
]

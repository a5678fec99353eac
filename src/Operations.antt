-- ===== src/Operations.antt =====
-- operations/services.py: the compensation for outages, and the hold that a billing complaint puts
-- on an account.
use fireisp.Prelude.{
  ℕ, ◌+◌, ◌-◌, ◌*◌, ◌/◌, Bool, true, false, not, ◌&&◌, ◌||◌, Option, none, some, List, [], ◌∷◌, leb,
  ltb, ◌==◌, if◌then◌else◌, find, any,
}
use Prim.Native.Nat.{min, max}
use fireisp.Prelude.Int.{ℤ, pos, pos_part, neg_part}
pub mod Reasons
pub mod Laws
pub mod Installation
use fireisp.Prelude.Text.{Text, codes, is_empty, strip}
use fireisp.Store.{
  Subscription, Ticket, TicketKind, billing, TicketStatus, resolved, Outage, OutageCredit,
  Operations, Result, ok, err, M, ◌>>=◌, maybe, ◌>>◌, done, pure, raise, gets, modify, lift, fresh,
  raise_if, or_raise, with_operations, does_not_exist, bad_interval, not_attributable, not_affected,
  overlapping_credit, incomplete_outage, Env,
}
use fireisp.Core.{audit, get_customer, get_plan}
use fireisp.Billing.Money.{round_half_up}

abbrev pub is_billing : TicketKind → Bool
is_billing billing = true
is_billing _ = false

abbrev pub is_resolved : TicketStatus → Bool
is_resolved resolved = true
is_resolved _ = false

-- A complaint about the whole account has no subscription.
unfoldable pub has_billing_dispute_hold : List Ticket → Subscription → Bool
has_billing_dispute_hold tickets s =
    any
      (λ t.
        t.customer == s.customer
        && is_billing t.kind
        && not (is_resolved t.status)
        && elim t.subscription [ none ↦ true | some k ↦ k == s.pk ])
      tickets

pub record Compensation : Type 0 where
  pub proportional : ℕ
  pub bonus : ℕ
  pub total : ℕ

-- The share of the price for the part of the period that the outage took, and a fifth on top.
unfoldable pub compensation : ℕ → ℕ → ℕ → Compensation
compensation price affected duration =
    let proportional = round_half_up (price * affected) duration in
    let bonus = round_half_up (proportional * 20) 100 in
    record { proportional = proportional; bonus = bonus; total = proportional + bonus }

-- Instants are whole seconds.
unfoldable pub calculate_outage_credit : ℤ → ℕ → ℕ → ℕ → ℕ → Result Compensation
calculate_outage_credit price start end period_start period_end =
    if ltb 0 (neg_part price) || leb period_end period_start || leb end start
    then err bad_interval
    else ok (
        compensation (pos_part price) (min end period_end - max start period_start)
          (period_end - period_start))

-- `Outage.full_clean()`: an outage ends after it starts, stands at a site of its
-- own organization, and has its attribution documented.
unfoldable pub is_clean_outage : Outage → Bool
is_clean_outage o =
    elim o.ended_at [ none ↦ true | some e ↦ ltb o.started_at e ]
    && elim o.site_organization [ none ↦ true | some k ↦ k == o.organization ]
    && not (o.provider_attributable && is_empty (strip o.attribution_evidence))

unfoldable pub same_interval : ℕ → ℕ → ℕ → ℕ → OutageCredit → Bool
same_interval outage subscription period_start period_end c =
    c.outage == outage
    && c.subscription == subscription
    && c.period_start == period_start
    && c.period_end == period_end

unfoldable pub overlaps : ℕ → ℕ → ℕ → ℕ → OutageCredit → Bool
overlaps outage subscription period_start period_end c =
    c.outage == outage
    && c.subscription == subscription
    && ltb c.period_start period_end
    && ltb period_start c.period_end
    && not (c.period_start == period_start && c.period_end == period_end)

-- `price if price is not None else subscription.plan.price_mxn`
unfoldable pub charged_price : Subscription → Option ℤ → M ℤ
charged_price s (some p) = pure p
charged_price s none = do plan ← get_plan s.plan; pure (pos plan.price_mxn)

-- The end of `record_outage_credit`: one record for each interval, and no two that overlap.
unfoldable pub enter_credit :
    Env → Outage → Subscription → ℕ → ℕ → Option ℕ → Compensation → M OutageCredit
enter_credit env o s period_start period_end actor amounts = do
  clash ← gets (λ db. any (overlaps o.pk s.pk period_start period_end) db.operations.credits)
  raise_if clash overlapping_credit
  existing ←
      gets (λ db. find (same_interval o.pk s.pk period_start period_end) db.operations.credits)
  maybe existing
      (do
        pk ← fresh
        let c =
            let r : OutageCredit = record {
              pk = pk;
              outage = o.pk;
              subscription = s.pk;
              period_start = period_start;
              period_end = period_end;
              proportional_amount = amounts.proportional;
              bonus_amount = amounts.bonus;
              applied_at = none;
              ledger_reference = [];
            } in
            r
        modify (with_operations λ t. record t { credits = c ∷ t.credits })
        audit env actor (codes "outage.credit_calculated") pk
        pure c)
      (λ c. pure c)

unfoldable pub record_outage_credit :
    Env → Outage → Subscription → ℕ → ℕ → Option ℕ → Option ℤ → M OutageCredit
record_outage_credit env outage s period_start period_end actor price = do
  row ← gets (λ db. find (λ o. o.pk == outage.pk) db.operations.outages)
  o ← or_raise does_not_exist row
  raise_if (not (is_clean_outage o)) incomplete_outage
  ended ← or_raise not_attributable o.ended_at
  raise_if (not o.provider_attributable) not_attributable
  customer ← get_customer s.customer
  raise_if
      (not (customer.organization == o.organization) || not (any (λ k. k == s.pk) o.subscriptions))
      not_affected
  charged ← charged_price s price
  amounts ← lift (calculate_outage_credit charged o.started_at ended period_start period_end)
  enter_credit env o s period_start period_end actor amounts

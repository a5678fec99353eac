-- ===== src/Operations/Laws.antt =====
-- Laws of `calculate_outage_credit` of operations/services.py.
use fireisp.Prelude.{ℕ, ◌+◌, ◌-◌, ◌*◌, ◌≤◌, ◌<◌, ◌≡◌, refl, arith}
use Prim.Native.Nat.{min, max}
use fireisp.Prelude.Int.{ℤ, pos_part, neg_part}
use native.Mathlib.Decide.{dec_le}
use fireisp.Store.{ok}
use fireisp.Billing.Money.{round_half_up}
use fireisp.Billing.Money.Laws.{round_half_up_near}
use fireisp.Operations.{Compensation, compensation, calculate_outage_credit}

-- What is paid for an outage: no more than the price for the time that was lost, in proportion, a
-- fifth on top, and their sum.
pub record IsFair (price affected duration : ℕ) (c : Compensation) : Type 0 where
  pub at_most_price : c.proportional ≤ price
  pub share_low : 2 * (price * affected) < c.proportional * (2 * duration) + duration
  pub share_high : c.proportional * (2 * duration) ≤ 2 * (price * affected) + duration
  pub bonus_low : 2 * (c.proportional * 20) < c.bonus * 200 + 100
  pub bonus_high : c.bonus * 200 ≤ 2 * (c.proportional * 20) + 100
  pub sum : c.total ≡ c.proportional + c.bonus

share_le :
    (price affected duration x : ℕ)
    → affected ≤ duration
    → 0 < duration
    → x * (2 * duration) ≤ 2 * (price * affected) + duration
    → x ≤ price
share_le price affected duration x within positive h = elim (dec_le x price) [
  | yes p ↦ p
  | no p ↦
      let above : price + 1 ≤ x = omega arith in
      let scaled : (price + 1) * (2 * duration) ≤ x * (2 * duration) = grind arith in
      let lost : price * affected ≤ price * duration = grind arith in absurd (omega arith)
]

compensation-IsFair :
    (price affected duration : ℕ)
    → affected ≤ duration
    → 0 < duration
    → IsFair price affected duration (compensation price affected duration)
unfolding compensation
compensation-IsFair price affected duration within positive =
    let share = round_half_up (price * affected) duration in
    let (low, high) = round_half_up_near (price * affected) duration positive in
    let (bonus_low, bonus_high) = round_half_up_near (share * 20) 100 (omega arith) in
    record {
      at_most_price = share_le price affected duration share within positive high;
      share_low = low;
      share_high = high;
      bonus_low = bonus_low;
      bonus_high = bonus_high;
      sum = refl;
    }

-- A compensation that calculate_outage_credit grants is for a price of at least zero and two
-- intervals that are not empty; its share is at most the price and within half a cent of the price
-- in proportion to the part of the period that the outage took, its bonus is within half a cent of
-- a fifth of that, and the total is their sum.
pub calculate_outage_credit-IsFair :
    (price : ℤ) (start end period_start period_end : ℕ) (c : Compensation)
    → calculate_outage_credit price start end period_start period_end ≡ ok c
    → (neg_part price ≡ 0)
      × (start < end)
      × (period_start < period_end)
      × IsFair
          (pos_part price)
          (min end period_end - max start period_start)
          (period_end - period_start)
          c
unfolding calculate_outage_credit
calculate_outage_credit-IsFair price start end period_start period_end c h = ground (
  arith,
  compensation-IsFair (pos_part price) (min end period_end - max start period_start)
      (period_end - period_start),
)

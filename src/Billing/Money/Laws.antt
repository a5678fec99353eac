-- ===== src/Billing/Money/Laws.antt =====
-- Laws of `money` and of the tax that `create_period` takes out of a price.
use fireisp.Prelude.{ℕ, ◌+◌, ◌*◌, ◌/◌, ◌%◌, ◌^◌, ◌≤◌, ◌<◌, ◌≡◌, false, arith}
use native.Mathlib.Decide.{dec_le}
use fireisp.Store.{ok}
use fireisp.Billing.Money.{
  DecimalInput, unreadable, not_finite, finite, money, money_limit, stored, round_half_up,
  net_of_tax,
}

-- What an accepted amount is: positive, under the limit, and the number that was read.
abbrev pub IsAmount : DecimalInput → ℕ → Type 0
IsAmount (finite negative digits places) a =
    (negative ≡ false) × (0 < a) × (a < money_limit) × (a * 10 ^ places ≡ digits * 100)
IsAmount _ a = ⊥

-- `n / d * d` is `n` where `d` divides `n`.
div-mul_exact : (n d : ℕ) → n % d ≡ 0 → n / d * d ≡ n
div-mul_exact n d h = grind arith

-- An amount that money accepts is not negative, positive, below ten thousand million pesos, and
-- exactly the number that was read, in cents.
pub money-IsAmount : (d : DecimalInput) (a : ℕ) → money d ≡ ok a → IsAmount d a
unfolding money
money-IsAmount unreadable a h = cc
money-IsAmount not_finite a h = cc
money-IsAmount (finite negative digits places) a h =
    ground (arith, div-mul_exact (digits * 100) (10 ^ places))

-- Every positive amount of cents below the limit, written with two places, is read back by money
-- as itself.
pub money-stored : (c : ℕ) → 0 < c → c < money_limit → money (stored c) ≡ ok c
unfolding money
money-stored c h k = ground arith

-- The rounded quotient is within half a unit of the exact one.
pub round_half_up_near :
    (n d : ℕ)
    → 0 < d
    → (2 * n < round_half_up n d * (2 * d) + d) × (round_half_up n d * (2 * d) ≤ 2 * n + d)
unfolding round_half_up
round_half_up_near n d h = grind arith

le_of_near :
    (total rate x : ℕ) → x * (2 * (1000 + rate)) ≤ 2 * (1000 * total) + (1000 + rate) → x ≤ total
le_of_near total rate x h = elim (dec_le x total) [
  | yes p ↦ p
  | no p ↦
      let above : total + 1 ≤ x = omega arith in
      let scaled : (total + 1) * (2 * (1000 + rate)) ≤ x * (2 * (1000 + rate)) = grind arith in
      absurd (omega arith)
]

-- The subtotal that create_period takes out of a price is at most the price, and the subtotal with
-- its tax is the price to within half a cent of the taxed unit.
pub net_of_tax_bounds :
    (total rate : ℕ)
    → let net = net_of_tax total rate in
      (net ≤ total)
      × (2 * (1000 * total) < net * (2 * (1000 + rate)) + (1000 + rate))
      × (net * (2 * (1000 + rate)) ≤ 2 * (1000 * total) + (1000 + rate))
unfolding net_of_tax
net_of_tax_bounds total rate =
    let (low, high) = round_half_up_near (1000 * total) (1000 + rate) (omega arith) in
    (le_of_near total rate _ high, low, high)

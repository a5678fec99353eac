-- ===== src/Billing/Money.antt =====
-- `money` of billing/services.py, and the rounding of `quantize`.
pub mod Laws
use fireisp.Prelude.{ℕ, ◌+◌, ◌*◌, ◌/◌, ◌%◌, ◌^◌, Bool, false, not, ◌||◌, leb, ◌==◌, if◌then◌else◌}
use fireisp.Store.{Result, ok, err, bad_amount}

-- What `Decimal(str(value))` gives: an exception, NaN or an infinity, or the number
-- `digits / 10 ^ places` with its sign.
pub data DecimalInput : Type 0 where
  unreadable not_finite : DecimalInput
  finite : (negative : Bool) (digits places : ℕ) → DecimalInput

-- 10 000 000 000 pesos, in cents.
abbrev pub money_limit : ℕ
money_limit = 1000000000000

-- The amount in cents. Too long a number makes `quantize` raise, which is caught with the rest.
unfoldable pub money : DecimalInput → Result ℕ
money unreadable = err bad_amount
money not_finite = err bad_amount
money (finite negative digits places) =
    if negative || digits == 0
    then err bad_amount
    else if not (digits * 100 % 10 ^ places == 0)
    then err bad_amount
    else if leb money_limit (digits * 100 / 10 ^ places)
    then err bad_amount
    else ok (digits * 100 / 10 ^ places)

-- A stored amount as it is read back.
abbrev pub stored : ℕ → DecimalInput
stored cents = finite false cents 2

-- `(n / d).quantize(Decimal('.01'), rounding=ROUND_HALF_UP)`, for n in cents. The quotient is first
-- rounded to 28 digits, which moves none of the column's amounts across a half cent.
unfoldable pub round_half_up : ℕ → ℕ → ℕ
round_half_up n d = (2 * n + d) / (2 * d)

-- `total / (1 + tax_rate)`, to the cent.
unfoldable pub net_of_tax : ℕ → ℕ → ℕ
unfolding round_half_up
net_of_tax total tax_rate = round_half_up (1000 * total) (1000 + tax_rate)

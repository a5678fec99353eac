-- ===== src/Billing/Tests/Amounts.antt =====
-- Amounts, anniversaries and compensations at concrete values.
use fireisp.Prelude.{◌+◌, ◌*◌, ◌<◌, ◌≤◌, ◌≡◌, refl, false, arith}
use fireisp.Prelude.Int.{pos, neg_part}
use fireisp.Store.{ok}
use fireisp.Billing.Money.{finite, money, round_half_up, net_of_tax}
use fireisp.Billing.Money.Laws.{IsAmount, money-IsAmount, money-stored, net_of_tax_bounds}
use fireisp.Operations.{compensation, calculate_outage_credit}
use fireisp.Operations.Laws.{IsFair, calculate_outage_credit-IsFair}

-- 349.50 pesos
price-read : money (finite false 3495 1) ≡ ok 34950
unfolding money
price-read = refl

money-IsAmount_example : IsAmount (finite false 3495 1) 34950
money-IsAmount_example = money-IsAmount (finite false 3495 1) 34950 price-read

money-stored_example : money (finite false 34950 2) ≡ ok 34950
money-stored_example = money-stored 34950 (omega arith) (omega arith)

-- Three days of thirty-one, at 349.50 pesos.
granted :
    calculate_outage_credit (pos 34950) 86400 345600 0 2678400
    ≡ ok (record { proportional = 3382; bonus = 676; total = 4058 })
unfolding calculate_outage_credit compensation round_half_up
granted = refl

calculate_outage_credit-IsFair_example :
    (neg_part (pos 34950) ≡ 0)
    × (86400 < 345600)
    × (0 < 2678400)
    × IsFair 34950 259200 2678400 (record { proportional = 3382; bonus = 676; total = 4058 })
calculate_outage_credit-IsFair_example =
    calculate_outage_credit-IsFair (pos 34950) 86400 345600 0 2678400
      (record { proportional = 3382; bonus = 676; total = 4058 }) granted

net_of_tax_bounds_example :
    (net_of_tax 34950 160 ≤ 34950)
    × (2 * (1000 * 34950) < net_of_tax 34950 160 * (2 * (1000 + 160)) + (1000 + 160))
    × (net_of_tax 34950 160 * (2 * (1000 + 160)) ≤ 2 * (1000 * 34950) + (1000 + 160))
net_of_tax_bounds_example = net_of_tax_bounds 34950 160

-- ===== src/Calendar/Tests.antt =====
-- Anniversaries of an activation on 31 January 2024.
use fireisp.Prelude.{ℕ, ◌+◌, ◌≤◌, ◌≡◌, refl, true, some, arith}
use fireisp.Calendar.{Date, IsDate, days_in_month, date_ltb, month_index, anniversary}
use fireisp.Calendar.Anniversary.{anniversary_mono, anniversary_date_of}

abbrev activation : Date
activation = record { year = 2024; month = 1; day = 31 }

abbrev february : Date
february = record { year = 2024; month = 2; day = 29 }

abbrev april : Date
april = record { year = 2024; month = 4; day = 30 }

to_february : anniversary activation 1 ≡ some february
unfolding anniversary days_in_month
to_february = refl

to_april : anniversary activation 3 ≡ some april
unfolding anniversary days_in_month
to_april = refl

anniversary_mono_example : date_ltb february april ≡ true
anniversary_mono_example =
    anniversary_mono activation february april 1 3 (omega arith) to_february to_april

activation-IsDate : IsDate activation
unfolding days_in_month
activation-IsDate = omega arith

anniversary_date_of_example :
    IsDate february
    × (month_index february ≡ month_index activation + 1)
    × (29 ≤ 31)
    × (31 ≤ days_in_month 2024 2 → ◌≡◌ {A = ℕ} 29 31)
anniversary_date_of_example =
    anniversary_date_of activation february 1 activation-IsDate to_february

-- ===== src/Calendar/Days.antt =====
-- Days of the calendar: `date + timedelta(days=n)`, `date - timedelta(days=n)` and
-- `date.weekday()`, which compliance/services.py counts its terms with.
pub mod Laws
use fireisp.Prelude.{
  ℕ, zero, suc, ◌+◌, ◌-◌, ◌*◌, ◌/◌, ◌%◌, ltb, ◌==◌, if◌then◌else◌, Option, none, some,
}
use fireisp.Calendar.{Date, days_in_month}

-- `d + timedelta(days=1)`, which overflows after 9999-12-31.
unfoldable pub next_day : Date → Option Date
next_day d =
    if ltb d.day (days_in_month d.year d.month)
    then some (record d { day = d.day + 1 })
    else if ltb d.month 12
    then some (record { year = d.year; month = d.month + 1; day = 1 })
    else if ltb d.year 9999
    then some (record { year = d.year + 1; month = 1; day = 1 })
    else none

-- `d - timedelta(days=1)`, which overflows before 0001-01-01.
unfoldable pub previous_day : Date → Option Date
previous_day d =
    if ltb 1 d.day
    then some (record d { day = d.day - 1 })
    else if ltb 1 d.month
    then some
        (record { year = d.year; month = d.month - 1; day = days_in_month d.year (d.month - 1) })
    else if ltb 1 d.year
    then some (record { year = d.year - 1; month = 12; day = 31 })
    else none

unfoldable pub add_days : ℕ → Date → Option Date
add_days zero d = some d
add_days (suc n) d = elim (next_day d) [ none ↦ none | some t ↦ add_days n t ]

unfoldable pub subtract_days : ℕ → Date → Option Date
subtract_days zero d = some d
subtract_days (suc n) d = elim (previous_day d) [ none ↦ none | some t ↦ subtract_days n t ]

-- The days of the first months of a year.
unfoldable pub days_of_months : ℕ → ℕ → ℕ
days_of_months y zero = 0
days_of_months y (suc m) = days_of_months y m + days_in_month y (suc m)

-- `d.toordinal()`: 0001-01-01 is day 1.
unfoldable pub to_ordinal : Date → ℕ
to_ordinal d =
    let p = d.year - 1 in
    p * 365 + p / 4 + p / 400 - p / 100 + days_of_months d.year (d.month - 1) + d.day

-- `d.weekday()`, 0 on a Monday.
unfoldable pub weekday : Date → ℕ
weekday d = (to_ordinal d + 6) % 7

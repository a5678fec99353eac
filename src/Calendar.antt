-- ===== src/Calendar.antt =====
-- Calendar dates, and `anniversary` of billing/services.py: the day on which a monthly period of a
-- service begins, counted from the day of its activation. `date` and `calendar.monthrange` are
-- Python's proleptic Gregorian calendar.
pub mod Anniversary
pub mod Days
mod Tests
use fireisp.Prelude.{
  ℕ, ◌+◌, ◌-◌, ◌*◌, ◌/◌, ◌%◌, ◌≤◌, ◌<◌, Bool, true, false, not, ◌&&◌, ◌||◌, ltb, leb, ◌==◌,
  if◌then◌else◌, Option, none, some,
}
use Prim.Native.Nat.{min}

pub record Date : Type 0 where
  pub year : ℕ
  pub month : ℕ
  pub day : ℕ

unfoldable pub is_leap : ℕ → Bool
is_leap y = y % 4 == 0 && not (y % 100 == 0) || y % 400 == 0

-- `calendar.monthrange(year, month)[1]`
unfoldable pub days_in_month : ℕ → ℕ → ℕ
unfolding is_leap
days_in_month y m =
    if m == 2
    then (if is_leap y then 29 else 28)
    else if m == 4 || m == 6 || m == 9 || m == 11
    then 30
    else 31

-- The values that Python's `date` accepts; the year is at most 9999.
abbrev pub IsDate : Date → Type 0
IsDate d =
    (1 ≤ d.year)
    × (d.year ≤ 9999)
    × (1 ≤ d.month)
    × (d.month ≤ 12)
    × (1 ≤ d.day)
    × (d.day ≤ days_in_month d.year d.month)

unfoldable pub date_eq : Date → Date → Bool
date_eq a b = a.year == b.year && a.month == b.month && a.day == b.day

-- `a <= b` on dates.
unfoldable pub date_leb : Date → Date → Bool
date_leb a b =
    ltb a.year b.year
    || a.year == b.year && (ltb a.month b.month || a.month == b.month && leb a.day b.day)

-- `a < b` on dates.
unfoldable pub date_ltb : Date → Date → Bool
date_ltb a b =
    ltb a.year b.year
    || a.year == b.year && (ltb a.month b.month || a.month == b.month && ltb a.day b.day)

-- The months since year 0.
unfoldable pub month_index : Date → ℕ
month_index d = d.year * 12 + d.month - 1

-- The fields of the date that `anniversary` builds.
unfoldable pub anniversary_date : Date → ℕ → Date
unfolding month_index
anniversary_date start months =
    let total = month_index start + months in
    let year = total / 12 in
    let month = total % 12 + 1 in
    record { year = year; month = month; day = min start.day (days_in_month year month) }

-- `anniversary(start, months)`; `date` raises ValueError beyond the year 9999.
unfoldable pub anniversary : Date → ℕ → Option Date
unfolding anniversary_date
anniversary start months =
    let d = anniversary_date start months in if leb d.year 9999 then some d else none

-- ===== src/Calendar/Days/Laws.antt =====
-- Laws of the days of the calendar.
use fireisp.Prelude.{ℕ, zero, suc, ◌+◌, ◌-◌, ◌*◌, ◌≤◌, ◌<◌, ◌≡◌, refl, some, arith}
use fireisp.Calendar.{Date, IsDate, is_leap, days_in_month}
use fireisp.Calendar.Days.{next_day, add_days}

-- At least so many days are left in the calendar.
unfoldable pub days_left : Date → ℕ
days_left d = (9999 - d.year) * 372 + (12 - d.month) * 31 + (31 - d.day)

days_in_month_le : (y m : ℕ) → days_in_month y m ≤ 31
unfolding days_in_month is_leap
days_in_month_le y m = ground arith

pub days_in_month_pos : (y m : ℕ) → 28 ≤ days_in_month y m
unfolding days_in_month is_leap
days_in_month_pos y m = ground arith

-- The next day of a valid date is a valid date, and closer to the end.
pub next_day-days_left :
    (d t : Date) → IsDate d → next_day d ≡ some t → IsDate t × (days_left t < days_left d)
unfolding next_day days_left
next_day-days_left d t v h = ground (
  arith,
  days_in_month_le d.year d.month,
  days_in_month_pos d.year (d.month + 1),
  days_in_month_pos (d.year + 1) 1,
)

-- Within a month, adding days adds to the day of the month.
pub add_days_month :
    (n : ℕ) (d : Date)
    → d.day + n ≤ days_in_month d.year d.month
    → add_days n d ≡ some (record d { day = d.day + n })
unfolding add_days
add_days_month zero d h = grind arith
add_days_month (suc n) d h =
    let step : next_day d ≡ some (record d { day = d.day + 1 }) = unfold next_day in ground arith in
    let rest = add_days_month n (record d { day = d.day + 1 }) (omega arith) in
    let same : d.day + 1 + n ≡ d.day + suc n = omega arith in rw (add_days, step, rest, same) refl

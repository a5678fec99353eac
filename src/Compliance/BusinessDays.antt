-- ===== src/Compliance/BusinessDays.antt =====
-- compliance/services.py: the days on which a term runs, `_monday`, `mexican_base_holidays` and
-- `add_business_days`.
pub mod Laws
use fireisp.Prelude.{
  ℕ, zero, suc, ◌+◌, ◌-◌, ◌*◌, ◌%◌, Bool, true, false, not, ◌&&◌, none, some, List, [], ◌∷◌, ◌++◌,
  ltb, ◌==◌, if◌then◌else◌, find, any,
}
use fireisp.Prelude.Int.{ℤ, pos_part, neg_part}
use fireisp.Calendar.{Date, date_eq}
use fireisp.Calendar.Days.{next_day, weekday}
use fireisp.Calendar.Days.Laws.{days_left}
use fireisp.Store.{Result, ok, err, value_error, overflow, out_of_fuel}
use fireisp.Store.Compliance.{BusinessHoliday}

abbrev pub first_of : ℕ → ℕ → Date
first_of year month = record { year = year; month = month; day = 1 }

-- The days from the first of a month to its `ordinal`-th Monday.
abbrev pub days_to_monday : ℕ → ℕ → ℕ → ℕ
days_to_monday year month ordinal = (7 - weekday (first_of year month)) % 7 + 7 * (ordinal - 1)

-- The sum `first + timedelta(...)`, which stays in the month up to the fourth Monday.
unfoldable pub monday : ℕ → ℕ → ℕ → Date
monday year month ordinal = record (first_of year month) {
  day = 1 + days_to_monday year month ordinal;
}

unfoldable pub mexican_base_holidays : ℕ → List Date
unfolding monday
mexican_base_holidays year =
    let day : ℕ → ℕ → Date = λ m d. record { year = year; month = m; day = d } in
    (day 1 1
      ∷ monday year 2 1
      ∷ monday year 3 3
      ∷ day 5 1
      ∷ day 9 16
      ∷ monday year 11 3
      ∷ day 12 25
      ∷ [])
    ++ (if year % 6 == 2024 % 6 then day 10 1 ∷ [] else [])

-- `overrides.get(cursor, ...)`
unfoldable pub is_working : List BusinessHoliday → ℕ → Date → Bool
is_working holidays organization d =
    elim (find (λ h. h.organization == organization && date_eq h.date d) holidays) [
      | none ↦ ltb (weekday d) 5 && not (any (date_eq d) (mexican_base_holidays d.year))
      | some h ↦ h.is_working_day
    ]

-- The loop `while count`, at `cursor`.
unfoldable pub walk : ℕ → (Date → Bool) → Date → ℕ → Result Date
walk fuel working cursor zero = ok cursor
walk zero working cursor (suc count) = err out_of_fuel
walk (suc fuel) working cursor (suc count) = elim (next_day cursor) [
  | none ↦ err overflow
  | some t ↦ walk fuel working t (if working t then count else suc count)
]

-- The fuel is more than the days that are left in the calendar.
unfoldable pub add_business_days : List BusinessHoliday → ℕ → Date → ℤ → Result Date
add_business_days holidays organization start count =
    if ltb 0 (neg_part count)
    then err value_error
    else walk (suc (days_left start)) (is_working holidays organization) start (pos_part count)

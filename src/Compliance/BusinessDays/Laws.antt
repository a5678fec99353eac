-- ===== src/Compliance/BusinessDays/Laws.antt =====
-- Laws of the terms of compliance/services.py.
use fireisp.Prelude.{
  ℕ, zero, suc, ◌+◌, ◌-◌, ◌*◌, ◌%◌, ◌≤◌, ◌<◌, ◌≡◌, refl, Bool, true, inl, inr, none, some, List,
  arith, ◌⊎◌, if◌then◌else◌, Option-cases,
}
use fireisp.Prelude.Int.{pos}
use fireisp.Calendar.{Date, IsDate}
use fireisp.Calendar.Days.{next_day, add_days, to_ordinal, weekday}
use fireisp.Calendar.Days.Laws.{days_left, next_day-days_left, add_days_month, days_in_month_pos}
use fireisp.Store.{Result, ok, err, overflow}
use fireisp.Store.Compliance.{BusinessHoliday}
use fireisp.Compliance.BusinessDays.{
  first_of, days_to_monday, monday, is_working, walk, add_business_days,
}

-- How many of the next `k` days are working days.
unfoldable pub working_days : (Date → Bool) → ℕ → Date → ℕ
working_days w zero d = 0
working_days w (suc k) d = elim (next_day d) [
  | none ↦ 0
  | some t ↦ (if w t then 1 else 0) + working_days w k t
]

-- What a count of working days comes to: the day that ends it, or the end of the calendar with
-- fewer working days left than were asked for.
pub data Outcome (w : Date → Bool) (start : Date) (count : ℕ) : Result Date → Type 0 where
  lands :
      (k : ℕ) (day : Date)
      → add_days k start ≡ some day
      → working_days w k start ≡ count
      → (k ≡ 0) ⊎ (w day ≡ true)
      → Outcome w start count (ok day)
  runs_out :
      (k : ℕ)
      → add_days k start ≡ none
      → working_days w k start < count
      → Outcome w start count (err overflow)

-- A day more in front, after a round of the loop.
Outcome-step :
    (w : Date → Bool) (d t : Date) (count : ℕ) {r : Result Date}
    → next_day d ≡ some t
    → Outcome w t (if w t then count else suc count) r
    → Outcome w d (suc count) r
unfolding add_days working_days
Outcome-step w d t count next (lands k day there counted last) =
    lands (suc k) day (rw (add_days, next) there)
      (rw (working_days, next) (ground (arith, counted))) (ground (arith, there, counted, last))
Outcome-step w d t count next (runs_out k gone counted) =
    runs_out (suc k) (rw (add_days, next) gone) (rw (working_days, next) (ground (arith, counted)))

walk-Outcome :
    (fuel : ℕ) (w : Date → Bool) (d : Date) (count : ℕ)
    → IsDate d
    → days_left d < fuel
    → Outcome w d count (walk fuel w d count)
unfolding walk add_days working_days
walk-Outcome fuel w d zero v enough = lands 0 d refl refl (inl refl)
walk-Outcome zero w d (suc count) v enough = absurd (omega arith)
walk-Outcome (suc fuel) w d (suc count) v enough = elim (Option-cases (next_day d)) [
  | inl end ↦
      rw (walk, end) (runs_out 1 (rw (add_days, end) refl) (rw (working_days, end) (omega arith)))
  | inr (t, next) ↦
      let (valid, closer) = next_day-days_left d t v next in
      rw (walk, next)
        (Outcome-step w d t count next
          (walk-Outcome fuel w t (if w t then count else suc count) valid (omega arith)))
]

-- From a valid date, add_business_days always ends: it returns the day on which the given number
-- of working days has gone by, which is a working day unless no day went by, or it overflows where
-- the calendar ends with fewer working days left.
pub add_business_days-Outcome :
    (holidays : List BusinessHoliday) (organization : ℕ) (start : Date) (count : ℕ)
    → IsDate start
    → Outcome
        (is_working holidays organization)
        start
        count
        (add_business_days holidays organization start (pos count))
unfolding add_business_days
add_business_days-Outcome holidays organization start count v =
    walk-Outcome (suc (days_left start)) (is_working holidays organization) start count v
      (omega arith)

weekday-later :
    (year month n : ℕ)
    → (weekday (first_of year month) + n) % 7 ≡ 0
    → weekday (record (first_of year month) { day = 1 + n }) ≡ 0
unfolding weekday to_ordinal
weekday-later year month n h = omega arith

-- The Monday that _monday finds for an ordinal from 1 to 4 is the first day of the month plus the
-- days that the code adds, is a Monday, and lies within the seven days of its ordinal.
pub monday_lem :
    (year month ordinal : ℕ)
    → 1 ≤ ordinal
    → ordinal ≤ 4
    → (add_days (days_to_monday year month ordinal) (first_of year month)
        ≡ some (monday year month ordinal))
      × (weekday (monday year month ordinal) ≡ 0)
      × (7 * (ordinal - 1) < (monday year month ordinal).day)
      × ((monday year month ordinal).day ≤ 7 * ordinal)
unfolding monday weekday
monday_lem year month ordinal lo hi =
    let n = days_to_monday year month ordinal in
    let w = weekday (first_of year month) in
    let small : n < 7 * ordinal = omega arith in
    (
      add_days_month n (first_of year month) (omega (arith, days_in_month_pos year month)),
      weekday-later year month n (omega arith),
      omega arith,
      omega arith,
    )

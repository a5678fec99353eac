-- ===== src/Calendar/Anniversary.antt =====
-- Laws of `anniversary` in billing/services.py.
use fireisp.Prelude.{ℕ, ◌+◌, ◌-◌, ◌*◌, ◌/◌, ◌%◌, ◌≤◌, ◌<◌, ◌≡◌, true, some, arith, le→leb}
use Prim.Native.Nat.{min}
use fireisp.Calendar.{
  Date, IsDate, days_in_month, date_ltb, month_index, anniversary_date, anniversary,
}

pub days_in_month_bounds : (y m : ℕ) → (28 ≤ days_in_month y m) × (days_in_month y m ≤ 31)
unfolding days_in_month
days_in_month_bounds y m = ground arith

pub anniversary-IsDate :
    (start : Date) (months : ℕ)
    → IsDate start
    → month_index start + months < 120000
    → IsDate (anniversary_date start months)
unfolding anniversary_date
anniversary-IsDate start months d h =
    let total = month_index start + months in
    omega (arith, days_in_month_bounds (total / 12) (total % 12 + 1))

pub month_index-anniversary :
    (start : Date) (months : ℕ)
    → month_index (anniversary_date start months) ≡ month_index start + months
unfolding anniversary_date
month_index-anniversary start months = omega arith

date_ltb_of_month_index :
    (a b : Date)
    → 1 ≤ a.month
    → a.month ≤ 12
    → 1 ≤ b.month
    → b.month ≤ 12
    → month_index a < month_index b
    → date_ltb a b ≡ true
unfolding date_ltb month_index
date_ltb_of_month_index a b pa qa pb qb h = ground arith

pub anniversary_month :
    (start : Date) (k : ℕ) → let d = anniversary_date start k in (1 ≤ d.month) × (d.month ≤ 12)
unfolding anniversary_date
anniversary_month start k = omega arith

-- The service's first period begins on the day of its activation.
pub anniversary_zero : (start : Date) → IsDate start → anniversary start 0 ≡ some start
unfolding anniversary
anniversary_zero start d =
    let ey : (start.year * 12 + start.month - 1 + 0) / 12 ≡ start.year = omega arith in
    let em : (start.year * 12 + start.month - 1 + 0) % 12 + 1 ≡ start.month = omega arith in
    let ed : min start.day (days_in_month start.year start.month) ≡ start.day = omega arith in
    rw (ey, em, ed, le→leb start.year 9999 d.1)

anniversary_date_mono :
    (start : Date) (k j : ℕ)
    → k < j
    → date_ltb (anniversary_date start k) (anniversary_date start j) ≡ true
anniversary_date_mono start k j h =
    let (pk, qk) = anniversary_month start k in
    let (pj, qj) = anniversary_month start j in
    date_ltb_of_month_index (anniversary_date start k) (anniversary_date start j) pk qk pj qj
      (omega (arith, month_index-anniversary start k, month_index-anniversary start j))

anniversary_day :
    (start : Date) (k : ℕ)
    → let d = anniversary_date start k in
      (d.day ≤ start.day) × (start.day ≤ days_in_month d.year d.month → d.day ≡ start.day)
unfolding anniversary_date
anniversary_day start k = omega arith

anniversary-eq :
    (start a : Date) (k : ℕ)
    → anniversary start k ≡ some a
    → (anniversary_date start k ≡ a) × ((anniversary_date start k).year ≤ 9999)
unfolding anniversary
anniversary-eq start a k h = ground arith

-- Of two anniversaries of one activation, the one after more months is the later day.
pub anniversary_mono :
    (start a b : Date) (k j : ℕ)
    → k < j
    → anniversary start k ≡ some a
    → anniversary start j ≡ some b
    → date_ltb a b ≡ true
anniversary_mono start a b k j h ea eb =
    rw (← (anniversary-eq start a k ea).0, ← (anniversary-eq start b j eb).0)
      (anniversary_date_mono start k j h)

month_index_small :
    (start : Date) (k : ℕ) → (anniversary_date start k).year ≤ 9999 → month_index start + k < 120000
unfolding anniversary_date
month_index_small start k h = omega arith

-- The anniversary of a valid date is a valid date, lies exactly so many months later, is never on
-- a later day of the month, and is on the same day of the month wherever that month is long
-- enough.
pub anniversary_date_of :
    (start a : Date) (k : ℕ)
    → IsDate start
    → anniversary start k ≡ some a
    → IsDate a
      × (month_index a ≡ month_index start + k)
      × (a.day ≤ start.day)
      × (start.day ≤ days_in_month a.year a.month → a.day ≡ start.day)
anniversary_date_of start a k d e =
    let (same, small) = anniversary-eq start a k e in
    let index = month_index-anniversary start k in
    rw (← same) (
      anniversary-IsDate start k d (month_index_small start k small),
      index,
      (anniversary_day start k).0,
      (anniversary_day start k).1,
    )

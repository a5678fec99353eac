-- ===== src/Compliance/Tests/Terms.antt =====
-- Terms in working days, and the gate of the law.
use fireisp.Prelude.{◌-◌, ◌*◌, ◌≤◌, ◌<◌, ◌≡◌, ◌↔◌, some, [], true, arith, All}
use fireisp.Prelude.Int.{pos}
use fireisp.Calendar.{Date, IsDate, days_in_month}
use fireisp.Calendar.Days.{add_days, weekday}
use fireisp.Compliance.BusinessDays.{
  is_working, add_business_days, monday, days_to_monday, first_of,
}
use fireisp.Compliance.BusinessDays.Laws.{Outcome, add_business_days-Outcome, monday_lem}
use fireisp.Compliance.Gates.{counts, required_codes, readiness}
use fireisp.Compliance.Gates.Laws.{IsRecorded, IsVerified, readiness_iff}
use fireisp.Billing.Tests.Samples.{day}

-- 24 December 2026 is a Thursday.
abbrev eve : Date
eve = record { year = 2026; month = 12; day = 24 }

eve-IsDate : IsDate eve
unfolding days_in_month
eve-IsDate = omega arith

add_business_days-Outcome_example :
    Outcome (is_working [] 1) eve 3 (add_business_days [] 1 eve (pos 3))
add_business_days-Outcome_example = add_business_days-Outcome [] 1 eve 3 eve-IsDate

-- The third Monday of March 2026 is the 16th.
monday_lem_example :
    (add_days (days_to_monday 2026 3 3) (first_of 2026 3) ≡ some (monday 2026 3 3))
    × (weekday (monday 2026 3 3) ≡ 0)
    × (7 * (3 - 1) < (monday 2026 3 3).day)
    × ((monday 2026 3 3).day ≤ 7 * 3)
monday_lem_example = monday_lem 2026 3 3 (omega arith) (omega arith)

readiness_iff_example :
    ((readiness (record { pk = 1; demo_mode = true }) (day 1) []).ready ≡ true) ↔ (
      All (IsRecorded []) required_codes
      × All (λ r. counts required_codes r ≡ true → IsVerified (day 1) r) [])
readiness_iff_example = readiness_iff (record { pk = 1; demo_mode = true }) (day 1) []

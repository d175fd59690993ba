-- ===== src/Payroll/Periods.antt =====
-- The pay periods of an ISO year: `payrollPeriodOptionsForYear`, `ResolvePayrollPeriod` and their
-- like in internal/domain/salary.go, and `isPayrollPeriodRange` of
-- internal/service/salary_payroll.go.
pub mod Tiling
pub mod Resolved
use hrbackend.Prelude.{
  ℕ, zero, suc, ◌+◌, ◌-◌, ◌*◌, ◌/◌, ◌%◌, Bool, true, false, not, ◌&&◌, ◌||◌, Option, none, some,
  List, [], ◌∷◌, map, leb, ltb, ◌==◌, if◌then◌else◌,
}
use hrbackend.Time.{Time, date_only, day_of, weekday}
use hrbackend.Time.Calendar.{days_before_year, iso_year, iso_week, december_28}

-- `PayrollPeriodOption`.
pub record PeriodOption : Type 0 where
  pub period_start : Time
  pub period_end : Time
  pub is_current : Bool

-- `AddDate(0, 0, n)` of a UTC time.
abbrev pub add_days : Time → ℕ → Time
add_days t n = t + n * 86400

-- `time.Date(year, time.January, 4, …)`.
abbrev january_4 : ℕ → Time
january_4 year = (days_before_year year + 3) * 86400

-- `isoYearStart`: Sunday counts as 7.
unfoldable pub iso_year_start : ℕ → Time
iso_year_start year =
    let wd = weekday (january_4 year) in
    let weekday' = if wd == 0 then 7 else wd in january_4 year - (weekday' - 1) * 86400

-- `isoWeeksInYear`.
unfoldable pub iso_weeks_in_year : ℕ → ℕ
iso_weeks_in_year year = iso_week (december_28 year)

abbrev pub period_weeks : ℕ → ℕ
period_weeks left = if left == 5 then 5 else 4

-- The loop over the weeks of the year. Each round takes at least one week from those left, so as many
-- rounds as weeks are enough.
unfoldable pub period_loop : ℕ → Time → ℕ → ℕ → List PeriodOption
period_loop zero start weeks offset = []
period_loop (suc fuel) start weeks offset =
    let n = period_weeks (weeks - offset) in
    let period_start = add_days start (offset * 7) in
    let rest = period_loop fuel start weeks (offset + n) in
    if ltb offset weeks
    then record {
      period_start = period_start;
      period_end = add_days period_start (n * 7 - 1);
      is_current = false;
    }
      ∷ rest
    else []

-- `payrollPeriodOptionsForYear`; a year of 0 stands for any year that is not positive.
unfoldable pub payroll_period_options_for_year : ℕ → List PeriodOption
payroll_period_options_for_year year =
    if year == 0
    then []
    else period_loop (iso_weeks_in_year year) (iso_year_start year) (iso_weeks_in_year year) 0

-- `!day.Before(option.PeriodStart) && !day.After(option.PeriodEnd)`.
abbrev pub in_period : Time → PeriodOption → Bool
in_period day o = leb o.period_start day && leb day o.period_end

-- The first period that holds the day, or two zero times.
unfoldable pub find_period : Time → List PeriodOption → Time × Time
find_period day [] = (0, 0)
find_period day (o ∷ os) =
    if in_period day o then (o.period_start, o.period_end) else find_period day os

unfoldable pub resolve_payroll_period_for_year : Time → ℕ → Time × Time
resolve_payroll_period_for_year date year =
    find_period (date_only date) (payroll_period_options_for_year year)

abbrev mark_current : Time × Time → PeriodOption → PeriodOption
mark_current (s, e) o = record o { is_current = (o.period_start == s) && (o.period_end == e) }

-- `PayrollPeriodOptionsForYear`.
unfoldable pub payroll_period_options_for_year_marked : ℕ → Time → List PeriodOption
payroll_period_options_for_year_marked year today =
    map (mark_current (resolve_payroll_period_for_year today year))
      (payroll_period_options_for_year year)

unfoldable pub current_payroll_iso_year : Time → ℕ
current_payroll_iso_year date = iso_year (day_of (date_only date))

-- `ResolvePayrollPeriod`.
unfoldable pub resolve_payroll_period : Time → Time × Time
resolve_payroll_period date =
    let day = date_only date in
    find_period day (payroll_period_options_for_year_marked (iso_year (day_of day)) day)

-- The periods up to the current one: the loop stops at the first that starts after it.
unfoldable pub until_start : Time → List PeriodOption → List PeriodOption
until_start current [] = []
until_start current (o ∷ os) = if ltb current o.period_start then [] else o ∷ until_start current os

unfoldable pub payroll_period_options_through : Time → List PeriodOption
payroll_period_options_through date =
    until_start (resolve_payroll_period date).0
      (payroll_period_options_for_year_marked (current_payroll_iso_year date) date)

unfoldable pub is_payroll_period_start : Time → Bool
is_payroll_period_start date = date_only date == (resolve_payroll_period date).0

unfoldable pub is_payroll_period_range : Time → Time → Bool
is_payroll_period_range period_start period_end =
    if ltb period_end period_start || not (is_payroll_period_start period_start)
    then false
    else let (s, e) = resolve_payroll_period period_start in
      (period_start == s) && (period_end == e)

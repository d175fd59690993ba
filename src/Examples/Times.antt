-- ===== src/Examples/Times.antt =====
-- Clocks, pay periods and the year's weeks at concrete times (internal/domain/salary.go,
-- pkg/conv/pg.go).
use hrbackend.Prelude.{◌+◌, ◌*◌, ◌≡◌, ◌↔◌, refl, true, arith, length}
use hrbackend.Time.{Time, date_only}
use hrbackend.Time.Calendar.{iso_year, year_day, days_before_year, iso_week}
use hrbackend.Payroll.Periods.{
  current_payroll_iso_year, find_period, payroll_period_options_for_year_marked, period_loop,
  resolve_payroll_period_for_year, iso_weeks_in_year, iso_year_start,
  payroll_period_options_for_year, resolve_payroll_period, is_payroll_period_range,
}
use hrbackend.Payroll.Periods.Tiling.{Tiles, IsFourWeekly, IsFound, options_tile_year}
use hrbackend.Payroll.Periods.Resolved.{
  year_of, resolve_payroll_period-IsFound, is_payroll_period_range_iff,
}

-- Half past nine at night on Thursday 12 November 2026.
abbrev thursday : Time
thursday = 739931 * 86400 + 77400

options_tile_year_example :
    Tiles (iso_year_start 2026) (iso_year_start 2027) (payroll_period_options_for_year 2026)
    × IsFourWeekly (payroll_period_options_for_year 2026)
    × (length (payroll_period_options_for_year 2026) ≡ 13)
options_tile_year_example = options_tile_year 2026 (omega arith)

resolve_payroll_period-IsFound_example :
    IsFound
      (date_only thursday)
      (payroll_period_options_for_year (year_of thursday))
      (resolve_payroll_period thursday)
resolve_payroll_period-IsFound_example = resolve_payroll_period-IsFound thursday

thursday_period : resolve_payroll_period thursday ≡ (739921 * 86400, 739948 * 86400)
unfolding resolve_payroll_period iso_year iso_year_start iso_weeks_in_year period_loop
    payroll_period_options_for_year payroll_period_options_for_year_marked find_period
    resolve_payroll_period_for_year current_payroll_iso_year year_day days_before_year iso_week
thursday_period = refl

is_payroll_period_range_iff_example :
    (is_payroll_period_range (date_only thursday) (date_only thursday) ≡ true)
    ↔ ((t : Time) × (resolve_payroll_period t ≡ (date_only thursday, date_only thursday)))
is_payroll_period_range_iff_example =
    is_payroll_period_range_iff (date_only thursday) (date_only thursday)

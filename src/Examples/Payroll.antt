-- ===== src/Examples/Payroll.antt =====
-- An evening shift that runs past ten at night, through internal/service/salary_payroll.go.
use hrbackend.Prelude.{
  map, ℕ, suc, ◌+◌, ◌*◌, ◌<◌, ◌≤◌, ◌≡◌, ◌≢◌, refl, false, List, [], ◌∷◌, some, none, arith, sum_by,
  All,
}
use hrbackend.Prelude.Int.{pos, pos_part}
use hrbackend.Prelude.GoText.{Text, codes, text_eq, normalized, trim_space, to_lower}
use hrbackend.Prelude.Results.{ok, err}
use hrbackend.Time.{Time, day_of}
use hrbackend.Clock.{parse_clock, parse_minutes, parse_seconds, parse_hour_minute}
use hrbackend.Examples.{whole}
use hrbackend.Payroll.Rates.{
  is_loondienst_contract_type, applied_payroll_rate_for_minute, ort_rate_for_minute, profile_rate,
  is_holiday,
}
use hrbackend.Payroll.RuleTable.{get_ort_rules, first_rate, rule_table_agrees}
use hrbackend.Payroll.Segments.{Segment, segments_between, segment_loop}
use hrbackend.Payroll.Segments.Coverage.{IsSegmentation, segments_between-IsSegmentation}
use hrbackend.Payroll.Segments.Days.{IsInDay, segments_between-IsInDay}
use hrbackend.Payroll.Segments.Misaligned.{segments_between_misaligned}
use hrbackend.Payroll.LineItems.{
  WorkItem, Lines, out_of_fuel, parse_work_item_bounds, segment_line, lines_of, lines_between,
}
use hrbackend.Payroll.LineItems.Bounds.{parse_work_item_bounds_range, segment_line_bounds}
use hrbackend.Payroll.LineItems.Totals.{
  AreLines, running_total, lines_between-ne-out_of_fuel, lines_between_lem,
  lines_account_for_minutes, lines_without_premium,
}

-- Thursday 12 November 2026, and nine at night on that day.
abbrev day : Time
day = 739931 * 86400

abbrev evening : Time
evening = day + 75600

abbrev rate : Time → ℕ
rate = applied_payroll_rate_for_minute (codes "permanent") (codes "roster") []

abbrev shift_of : Text → WorkItem ℕ
shift_of contract_type = record {
  employee_id = 7;
  label = codes "evening";
  work_date = day;
  start_time = codes "21:00";
  end_time = codes "23:00";
  minutes_worked = 120;
  source_type = codes "schedule";
  schedule_id = some 3;
  overtime_entry_id = none;
  leave_payout_request_id = none;
  contract_type = contract_type;
  contract_rate = some 20;
  gross_amount_override = none;
  irregular_hours_profile = codes "roster";
}

abbrev shift : WorkItem ℕ
shift = shift_of (codes "permanent")

segments_between-IsSegmentation_example :
    (l : List Segment) × (segments_between rate evening (evening + 60 * 120) ≡ some l)
    × IsSegmentation rate evening (evening + 60 * 120) 120 l
segments_between-IsSegmentation_example = segments_between-IsSegmentation rate evening 119

lines_between_lem_example :
    (l : List Segment) × (r : Lines ℕ) × IsSegmentation rate evening (evening + 60 * 120) 120 l
    × (lines_between whole shift 20 [] evening (evening + 60 * 120) ≡ ok r)
    × AreLines whole shift 20 [] l r.items
    × (r.worked_minutes ≡ pos 120)
    × (r.base_amount ≡ running_total whole shift 20 [] 0 (map (λ x. x.base_amount) r.items))
    × (r.premium_amount ≡ running_total whole shift 20 [] 0 (map (λ x. x.premium_amount) r.items))
lines_between_lem_example = lines_between_lem whole shift 20 [] evening 119

lines_between-ne-out_of_fuel_example :
    lines_between whole shift 20 [] evening (evening + 7200) ≢ err out_of_fuel
lines_between-ne-out_of_fuel_example =
    lines_between-ne-out_of_fuel whole shift 20 [] evening (evening + 7200)

rule_table_agrees_example :
    first_rate get_ort_rules (codes "permanent") (codes "roster") [] evening ≡ some (rate evening)
rule_table_agrees_example = rule_table_agrees (codes "permanent") (codes "roster") [] evening

-- The lines of a one-minute shift.
abbrev minute_lines : Text → Lines ℕ
minute_lines contract_type = lines_of whole (shift_of contract_type) 20 1 (
    record {
      work_date = day;
      start = evening;
      end = evening + 60;
      rate = applied_payroll_rate_for_minute contract_type (codes "roster") [] evening;
      minutes = 1;
    }
    ∷ [])

minute_made :
    (contract_type : Text)
    → lines_between whole (shift_of contract_type) 20 [] evening (evening + 60 * suc 0)
      ≡ ok (minute_lines contract_type)
unfolding lines_between segments_between segment_loop
minute_made contract_type = refl

lines_account_for_minutes_example :
    (sum_by (λ x. pos_part x.minutes_worked) (minute_lines (codes "permanent")).items ≡ 1)
    × ((minute_lines (codes "permanent")).worked_minutes ≡ pos 1)
lines_account_for_minutes_example =
    lines_account_for_minutes whole shift 20 [] evening 0 (minute_lines (codes "permanent"))
      (minute_made (codes "permanent"))

freelance : is_loondienst_contract_type (codes "freelance") ≡ false
unfolding is_loondienst_contract_type text_eq trim_space to_lower normalized
freelance = refl

lines_without_premium_example :
    All (λ x. x.applied_rate_percent ≡ 0) (minute_lines (codes "freelance")).items
lines_without_premium_example =
    lines_without_premium whole (shift_of (codes "freelance")) 20 [] evening 0
      (minute_lines (codes "freelance")) freelance refl (minute_made (codes "freelance"))

abbrev minute_segments : List Segment
minute_segments =
    record { work_date = day; start = evening; end = evening + 60; rate = 25; minutes = 1 } ∷ []

minute_cut : segments_between rate evening (evening + 60 * suc 0) ≡ some minute_segments
unfolding segments_between segment_loop applied_payroll_rate_for_minute ort_rate_for_minute
    profile_rate is_holiday is_loondienst_contract_type text_eq trim_space to_lower normalized
minute_cut = refl

segments_between-IsInDay_example : All (IsInDay rate) minute_segments
segments_between-IsInDay_example =
    segments_between-IsInDay rate evening 0 minute_segments refl minute_cut

parse_work_item_bounds_range_example :
    (day_of evening ≡ day_of day) × (evening < evening + 7200) × (evening + 7200 ≤ evening + 86400)
unfolding parse_work_item_bounds parse_clock parse_minutes parse_seconds parse_hour_minute
parse_work_item_bounds_range_example =
    parse_work_item_bounds_range day (codes "21:00") (codes "23:00") evening (evening + 7200) refl

abbrev hour : Segment
hour = record { work_date = day; start = evening; end = evening + 3600; rate = 25; minutes = 60 }

-- A rate of 25 all day.
abbrev flat : Time → ℕ
flat t = 25

hour-IsInDay : IsInDay flat hour
hour-IsInDay = record {
  starts_in = refl;
  not_empty = omega arith;
  ends_in = omega arith;
  start_minute = refl;
  end_minute = refl;
  rate_at_start = refl;
}

segment_line_bounds_example :
    parse_work_item_bounds
      (segment_line whole shift 20 hour).work_date
      (segment_line whole shift 20 hour).start_time
      (segment_line whole shift 20 hour).end_time
    ≡ ok (evening, evening + 3600)
segment_line_bounds_example = segment_line_bounds whole shift 20 flat hour hour-IsInDay

segments_between_misaligned_example :
    segments_between flat evening (evening + 60 * 59 + 30) ≡ some []
segments_between_misaligned_example =
    segments_between_misaligned flat evening 59 30 (λ t lo hi. (refl, omega arith)) (omega arith)
      (omega arith)

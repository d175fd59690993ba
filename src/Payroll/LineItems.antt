-- ===== src/Payroll/LineItems.antt =====
-- Work items and the payroll lines made of them, in internal/service/salary_payroll.go:
-- `parseWorkItemBounds`, `buildPayrollPreviewLineItems`, `buildSimpleOvertimeLineItems`,
-- `buildLeavePayoutLineItems` and `isFixedPayrollLineActual`.
pub mod Bounds
pub mod Totals
use hrbackend.Prelude.{
  ℕ, ◌+◌, ◌-◌, ◌*◌, ◌/◌, ◌%◌, Bool, true, false, not, ◌||◌, Option, none, some, List, [], ◌∷◌, map,
  ltb, leb, ◌==◌, if◌then◌else◌,
}
use hrbackend.Prelude.Int.{ℤ, pos, ltb_ℤ}
use hrbackend.Prelude.GoText.{Text}
use hrbackend.Prelude.Results.{Result, ok, err, ◌>>=◌, ◌>>◌, fail_if}
use hrbackend.Time.{Time, date_only}
use hrbackend.Clock.{ClockTime, parse_clock, format_minutes}
use hrbackend.Floats.{Floats, round_currency}
use hrbackend.Payroll.Rates.{Holidays, applied_payroll_rate_for_minute}
use hrbackend.Payroll.Segments.{Segment, segments_between}

-- `domain.PayrollWorkItem`, less the names that only label it.
pub record WorkItem (Float : Type 0) : Type 0 where
  pub employee_id : ℕ
  pub label : Text
  pub work_date : Time
  pub start_time : Text
  pub end_time : Text
  pub minutes_worked : Float
  pub source_type : Text
  pub schedule_id : Option ℕ
  pub overtime_entry_id : Option ℕ
  pub leave_payout_request_id : Option ℕ
  pub contract_type : Text
  pub contract_rate : Option Float
  pub gross_amount_override : Option Float
  pub irregular_hours_profile : Text

-- `domain.PayrollPreviewLineItem`.
pub record LineItem (Float : Type 0) : Type 0 where
  pub schedule_id : Option ℕ
  pub overtime_entry_id : Option ℕ
  pub leave_payout_request_id : Option ℕ
  pub source_type : Text
  pub label : Text
  pub contract_type : Text
  pub work_date : Time
  pub start_time : Text
  pub end_time : Text
  pub break_minutes : ℕ
  pub irregular_hours_profile : Text
  pub applied_rate_percent : Float
  pub minutes_worked : ℤ
  pub paid_minutes : Float
  pub base_amount : Float
  pub premium_amount : Float

-- A clock text that does not parse, `ErrSalaryInvalidRequest`, and the model's own mark for a loop
-- that ran out of fuel, which never shows.
pub data PayrollError : Type 0 where
  bad_clock invalid_request out_of_fuel : PayrollError

-- The lines of an item, its worked minutes, and its base and premium amounts.
pub record Lines (Float : Type 0) : Type 0 where
  pub items : List (LineItem Float)
  pub worked_minutes : ℤ
  pub base_amount : Float
  pub premium_amount : Float

-- `time.Date` of the base date's fields with a clock's.
abbrev pub at_clock : Time → ClockTime → Time
at_clock date t = date + (t.hour * 3600 + t.minute * 60 + t.second)

-- `if !end.After(start) { end = end.Add(24 * time.Hour) }`.
abbrev pub after_start : Time → Time → Time
after_start start end = if ltb start end then end else end + 86400

unfoldable pub parse_work_item_bounds : Time → Text → Text → Result PayrollError (Time × Time)
parse_work_item_bounds work_date start_time end_time = elim (parse_clock start_time) [
  | none ↦ err bad_clock
  | some s ↦ elim (parse_clock end_time) [
    | none ↦ err bad_clock
    | some e ↦
        let start = at_clock (date_only work_date) s in
        ok (start, after_start start (at_clock (date_only work_date) e))
  ]
]

-- `!end.After(asOf)`, by the bounds of the line's own clock texts.
unfoldable pub is_fixed_payroll_line_actual : {Float : Type 0} → LineItem Float → Time → Bool
is_fixed_payroll_line_actual line as_of =
    elim (parse_work_item_bounds line.work_date line.start_time line.end_time) [
      | err e ↦ leb line.work_date as_of
      | ok (start, end) ↦ leb end as_of
    ]

module _ (F : Floats) where
  open F use {Float, of_ℕ, of_ℤ, ◌+F◌, ◌*F◌, ◌/F◌, round, truncate, is_positive}

  -- `roundCurrency(hourlyRate * paidMinutes / 60)`.
  abbrev pub base_for : Float → Float → Float
  base_for hourly_rate paid = round_currency F (◌/F◌ (◌*F◌ hourly_rate paid) (of_ℕ 60))

  abbrev pub premium_for : Float → ℕ → Float
  premium_for base rate = round_currency F (◌/F◌ (◌*F◌ base (of_ℕ rate)) (of_ℕ 100))

  -- The line of one segment.
  unfoldable pub segment_line : WorkItem Float → Float → Segment → LineItem Float
  segment_line item hourly_rate s =
      let base = base_for hourly_rate (of_ℕ s.minutes) in
      record {
        schedule_id = item.schedule_id;
        overtime_entry_id = item.overtime_entry_id;
        leave_payout_request_id = none;
        source_type = item.source_type;
        label = item.label;
        contract_type = item.contract_type;
        work_date = s.work_date;
        start_time = format_minutes (s.start % 86400 / 60);
        end_time = format_minutes (s.end % 86400 / 60);
        break_minutes = 0;
        irregular_hours_profile = item.irregular_hours_profile;
        applied_rate_percent = of_ℕ s.rate;
        minutes_worked = pos s.minutes;
        paid_minutes = round_currency F (of_ℕ s.minutes);
        base_amount = base;
        premium_amount = premium_for base s.rate;
      }

  -- The second loop's running totals.
  unfoldable pub add_lines : (LineItem Float → Float) → Float → List (LineItem Float) → Float
  add_lines amount total [] = total
  add_lines amount total (l ∷ ls) = add_lines amount (round_currency F (◌+F◌ total (amount l))) ls

  -- The items and totals made of the segments.
  unfoldable pub lines_of : WorkItem Float → Float → ℕ → List Segment → Lines Float
  lines_of item hourly_rate total_minutes segments =
      let items = map (segment_line item hourly_rate) segments in
      record {
        items = items;
        worked_minutes = pos total_minutes;
        base_amount = add_lines (λ l. l.base_amount) (of_ℕ 0) items;
        premium_amount = add_lines (λ l. l.premium_amount) (of_ℕ 0) items;
      }

  -- `buildPayrollPreviewLineItems` from the parsed bounds on.
  unfoldable pub lines_between :
      WorkItem Float → Float → Holidays → Time → Time → Result PayrollError (Lines Float)
  lines_between item hourly_rate holidays start end =
      let rate =
        applied_payroll_rate_for_minute item.contract_type item.irregular_hours_profile holidays in
      if (end - start) / 60 == 0
      then err invalid_request
      else elim (segments_between rate start end) [
        | none ↦ err out_of_fuel
        | some segments ↦ ok (lines_of item hourly_rate ((end - start) / 60) segments)
      ]

  unfoldable pub build_payroll_preview_line_items :
      WorkItem Float → Float → Holidays → Result PayrollError (Lines Float)
  build_payroll_preview_line_items item hourly_rate holidays = do
    (start, end) ← parse_work_item_bounds item.work_date item.start_time item.end_time
    lines_between item hourly_rate holidays start end

  -- A line that stands for an amount and a number of minutes, with no clock texts and no rate.
  abbrev pub plain_line : WorkItem Float → ℤ → ℤ → Float → LineItem Float
  plain_line item minutes_worked paid base = record {
    schedule_id = item.schedule_id;
    overtime_entry_id = item.overtime_entry_id;
    leave_payout_request_id = none;
    source_type = item.source_type;
    label = item.label;
    contract_type = item.contract_type;
    work_date = item.work_date;
    start_time = [];
    end_time = [];
    break_minutes = 0;
    irregular_hours_profile = item.irregular_hours_profile;
    applied_rate_percent = of_ℕ 0;
    minutes_worked = minutes_worked;
    paid_minutes = of_ℤ paid;
    base_amount = base;
    premium_amount = of_ℕ 0;
  }

  -- `int32(math.Round(item.MinutesWorked))`.
  abbrev pub rounded_minutes : WorkItem Float → ℤ
  rounded_minutes item = truncate (round item.minutes_worked)

  unfoldable pub build_simple_overtime_line_items : WorkItem Float → Float → Lines Float
  build_simple_overtime_line_items item hourly_rate =
      let total = rounded_minutes item in
      let base = base_for hourly_rate (of_ℤ total) in
      record {
        items = plain_line item total total base ∷ [];
        worked_minutes = total;
        base_amount = base;
        premium_amount = of_ℕ 0;
      }

  -- The line of a leave payout, which counts as no work.
  unfoldable pub leave_payout_lines : WorkItem Float → Float → Lines Float
  leave_payout_lines item gross =
      let base = round_currency F gross in
      let line = plain_line item (pos 0) (rounded_minutes item) base in
      record {
        items =
            record line {
              schedule_id = none;
              overtime_entry_id = none;
              leave_payout_request_id = item.leave_payout_request_id;
            }
            ∷ [];
        worked_minutes = pos 0;
        base_amount = base;
        premium_amount = of_ℕ 0;
      }

  unfoldable pub build_leave_payout_line_items : WorkItem Float → Result PayrollError (Lines Float)
  build_leave_payout_line_items item = elim item.leave_payout_request_id [
    | none ↦ err invalid_request
    | some id ↦ elim item.gross_amount_override [
      | none ↦ err invalid_request
      | some gross ↦
          if not (is_positive gross) || not (ltb_ℤ (pos 0) (rounded_minutes item))
          then err invalid_request
          else ok (leave_payout_lines item gross)
    ]
  ]

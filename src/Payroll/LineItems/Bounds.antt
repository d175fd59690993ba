-- ===== src/Payroll/LineItems/Bounds.antt =====
-- The bounds that work items and payroll lines are parsed to.
use hrbackend.Prelude.{
  ℕ, ◌+◌, ◌/◌, ◌%◌, ◌<◌, ◌≤◌, ◌≡◌, some, arith, leb, Option-cases, ap, ◌∙◌, inl, inr,
}
use hrbackend.Prelude.GoText.{Text}
use hrbackend.Prelude.Results.{ok}
use hrbackend.Time.{Time, date_only, day_of}
use hrbackend.Clock.{
  ClockTime, parse_clock, parse_seconds, parse_minutes, parse_hour_minute, format_minutes,
}
use hrbackend.Clock.RoundTrip.{parse-format_minutes}
use hrbackend.Floats.{Floats}
use hrbackend.Payroll.Segments.{Segment}
use hrbackend.Payroll.Segments.Days.{IsInDay}
use hrbackend.Payroll.LineItems.{
  WorkItem, parse_work_item_bounds, is_fixed_payroll_line_actual, segment_line, at_clock,
  after_start,
}

pub record IsClock (t : ClockTime) : Type 0 where
  pub hour_in : t.hour < 24
  pub minute_in : t.minute < 60
  pub second_in : t.second < 60

hour_minute_range :
    (s : Text) (x : ℕ × ℕ × Text) → parse_hour_minute s ≡ some x → (x.0 < 24) × (x.1 < 60)
unfolding parse_hour_minute
hour_minute_range s x e = ground arith

seconds-IsClock : (s : Text) (t : ClockTime) → parse_seconds s ≡ some t → IsClock t
unfolding parse_seconds
seconds-IsClock s t e = grind (arith, hour_minute_range)

minutes-IsClock : (s : Text) (t : ClockTime) → parse_minutes s ≡ some t → IsClock t
unfolding parse_minutes
minutes-IsClock s t e = grind (arith, hour_minute_range)

pub parse_clock-IsClock : (s : Text) (t : ClockTime) → parse_clock s ≡ some t → IsClock t
unfolding parse_clock
parse_clock-IsClock s t e = ground (arith, seconds-IsClock s t, minutes-IsClock s t)

-- Where a work item's clock texts parse, it starts on its work date and lasts more than nothing and
-- at most a day: an end that is not after the start is taken to be on the next day.
pub parse_work_item_bounds_range :
    (work_date : Time) (from to : Text) (start end : Time)
    → parse_work_item_bounds work_date from to ≡ ok (start, end)
    → (day_of start ≡ day_of work_date) × (start < end) × (end ≤ start + 86400)
unfolding parse_work_item_bounds
parse_work_item_bounds_range work_date from to start end e =
    elim (Option-cases (parse_clock from)) [
      | inl bad ↦ ground arith
      | inr (s, es) ↦ elim (Option-cases (parse_clock to)) [
        | inl bad ↦ ground arith
        | inr (t, et) ↦ ground (arith, parse_clock-IsClock from s es, parse_clock-IsClock to t et)
      ]
    ]

parsed_bounds :
    (d : Time) (from to : Text) (s t : ClockTime)
    → parse_clock from ≡ some s
    → parse_clock to ≡ some t
    → parse_work_item_bounds d from to
      ≡ ok (
        at_clock (date_only d) s,
        after_start (at_clock (date_only d) s) (at_clock (date_only d) t),
      )
unfolding parse_work_item_bounds
parsed_bounds d from to s t es et = ground arith

-- The clock texts of a segment that lies in a day, read back.
segment_texts :
    (d start end : ℕ)
    → date_only start ≡ d
    → start < end
    → end ≤ d + 86400
    → start % 60 ≡ 0
    → end % 60 ≡ 0
    → parse_work_item_bounds d
        (format_minutes (start % 86400 / 60))
        (format_minutes (end % 86400 / 60))
      ≡ ok (start, end)
segment_texts d start end hd lt hi as' ae =
    parsed_bounds d _ _ _ _ (parse-format_minutes (start % 86400 / 60) (omega arith))
      (parse-format_minutes (end % 86400 / 60) (omega arith))
    ∙ ap ok (ground arith)

module _ (F : Floats) (item : WorkItem F.Float) (hourly_rate : F.Float) where
  -- The clock texts that are printed on the line of a segment within a day parse back, against the
  -- line's work date, to the start and the end of the segment, also where it ends at midnight.
  pub segment_line_bounds :
      (rate : Time → ℕ) (s : Segment)
      → IsInDay rate s
      → (let line = segment_line F item hourly_rate s in
          parse_work_item_bounds line.work_date line.start_time line.end_time ≡ ok (s.start, s.end))
  unfolding segment_line
  segment_line_bounds rate s h =
      segment_texts s.work_date s.start s.end h.starts_in h.not_empty h.ends_in h.start_minute
        h.end_minute

  -- The line of a segment within a day counts as worked exactly when the segment has ended.
  pub segment_line_actual :
      (rate : Time → ℕ) (s : Segment) (as_of : Time)
      → IsInDay rate s
      → is_fixed_payroll_line_actual (segment_line F item hourly_rate s) as_of ≡ leb s.end as_of
  unfolding is_fixed_payroll_line_actual
  segment_line_actual rate s as_of h =
      rw (segment_line_bounds rate s h, is_fixed_payroll_line_actual)

-- ===== src/Payroll/Segments.antt =====
-- The loop of `buildPayrollPreviewLineItems` (internal/service/salary_payroll.go) that walks a work
-- item minute by minute and cuts it into segments of one date and one rate.
pub mod Coverage
pub mod Misaligned
pub mod Days
use hrbackend.Prelude.{
  ℕ, zero, suc, ◌+◌, ◌-◌, ◌/◌, Bool, true, false, not, ◌||◌, Option, none, some, List, [], ◌∷◌, ltb,
  ◌==◌, if◌then◌else◌,
}
use hrbackend.Time.{Time, date_only}
use mathlib.Core.Option

pub record Segment : Type 0 where
  pub work_date : Time
  pub start : Time
  pub end : Time
  pub rate : ℕ
  pub minutes : ℕ

-- The variables of the loop besides the segments made so far.
pub record Cursor : Type 0 where
  pub current : Time
  pub segment_start : Time
  pub segment_rate : ℕ
  pub segment_work_date : Time

-- The segment that the loop appends at `next`; a duration's minutes are truncated.
abbrev pub segment_until : Cursor → Time → Segment
segment_until c next = record {
  work_date = c.segment_work_date;
  start = c.segment_start;
  end = next;
  rate = c.segment_rate;
  minutes = (next - c.segment_start) / 60;
}

module _ (rate : Time → ℕ) (end : Time) where
  -- `nextRate` and `nextWorkDate`: those of the running segment at and past the end.
  abbrev pub next_rate : Cursor → ℕ
  next_rate c = if ltb (c.current + 60) end then rate (c.current + 60) else c.segment_rate

  abbrev pub next_work_date : Cursor → Time
  next_work_date c =
      if ltb (c.current + 60) end then date_only (c.current + 60) else c.segment_work_date

  -- The test that closes the running segment.
  abbrev pub closes : Cursor → Bool
  closes c =
      (c.current + 60 == end)
      || not (next_rate c == c.segment_rate)
      || not (next_work_date c == c.segment_work_date)

  -- The cursor after one round.
  abbrev pub advanced : Cursor → Cursor
  advanced c =
      if closes c
      then record {
        current = c.current + 60;
        segment_start = c.current + 60;
        segment_rate = next_rate c;
        segment_work_date = next_work_date c;
      }
      else record c { current = c.current + 60 }

  -- `for current.Before(end)`; `none` when the fuel ran out first. What the source appends to the
  -- slice stands before what the later rounds append.
  unfoldable pub segment_loop : ℕ → Cursor → Option (List Segment)
  segment_loop zero c = if ltb c.current end then none else some []
  segment_loop (suc fuel) c =
      let rest = segment_loop fuel (advanced c) in
      if ltb c.current end
      then (if closes c then Option.map (λ l. segment_until c (c.current + 60) ∷ l) rest else rest)
      else some []

-- The cursor before the loop.
abbrev pub first_cursor : (Time → ℕ) → Time → Cursor
first_cursor rate start = record {
  current = start;
  segment_start = start;
  segment_rate = rate start;
  segment_work_date = date_only start;
}

-- Fuel for every round: one for each minute begun.
abbrev pub rounds : Time → Time → ℕ
rounds start end = (end - start + 59) / 60

unfoldable pub segments_between : (Time → ℕ) → Time → Time → Option (List Segment)
segments_between rate start end = segment_loop rate end (rounds start end) (first_cursor rate start)

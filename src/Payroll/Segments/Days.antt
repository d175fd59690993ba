-- ===== src/Payroll/Segments/Days.antt =====
-- Every segment of `buildPayrollPreviewLineItems` lies in the day that is its work date, and the loop
-- never runs out of fuel.
use mathlib.Core.Option
use hrbackend.Prelude.{
  ℕ, zero, suc, ◌+◌, ◌*◌, ◌%◌, ◌<◌, ◌≤◌, ◌≡◌, refl, inl, inr, true, false, Option, none, some, List,
  [], ◌∷◌, arith, Bool-cases, All, ltb, le→ltb-false, Bool, if◌then◌else◌,
}
use hrbackend.Time.{Time, date_only}
use hrbackend.Payroll.Segments.{
  Segment, Cursor, segment_until, closes, advanced, segment_loop, first_cursor, rounds,
  segments_between,
}
use hrbackend.Payroll.Segments.Coverage.{loop_ends, loop_closes, loop_runs, runs_lem}

-- The times of a segment are whole minutes of the day that is its work date, and its rate is that of
-- its first minute.
pub record IsInDay (rate : Time → ℕ) (s : Segment) : Type 0 where
  pub starts_in : date_only s.start ≡ s.work_date
  pub not_empty : s.start < s.end
  pub ends_in : s.end ≤ s.work_date + 86400
  pub start_minute : s.start % 60 ≡ 0
  pub end_minute : s.end % 60 ≡ 0
  pub rate_at_start : rate s.start ≡ s.rate

abbrev AllMade : (Time → ℕ) → Option (List Segment) → Type 0
AllMade rate none = Unit
AllMade rate (some l) = All (IsInDay rate) l

AllMade-cons :
    (rate : Time → ℕ) (s : Segment) (r : Option (List Segment))
    → IsInDay rate s
    → AllMade rate r
    → AllMade rate (Option.map (λ l. s ∷ l) r)
AllMade-cons rate s none h hs = tt
AllMade-cons rate s (some l) h hs = (h, hs)

-- What a round returns, if the later rounds return.
round_returns :
    (running closing : Bool) (s : Segment) (r : Option (List Segment))
    → (l : List Segment) × (r ≡ some l)
    → (l : List Segment) × ((if running
          then (if closing then Option.map (λ l. s ∷ l) r else r)
          else some [])
        ≡ some l)
round_returns true true s r (l, e) = (s ∷ l, rw e)
round_returns true false s r (l, e) = (l, e)
round_returns false closing s r _ = ([], refl)

module _ (rate : Time → ℕ) (end : Time) where
  record IsTidy (c : Cursor) : Type 0 where
    start_minute : c.segment_start % 60 ≡ 0
    now_minute : c.current % 60 ≡ 0
    started : c.segment_start ≤ c.current
    start_date : date_only c.segment_start ≡ c.segment_work_date
    now_date : date_only c.current ≡ c.segment_work_date
    start_rate : rate c.segment_start ≡ c.segment_rate

  closed-IsInDay : (c : Cursor) → IsTidy c → IsInDay rate (segment_until c (c.current + 60))
  closed-IsInDay c h = record {
    starts_in = h.start_date;
    not_empty = omega arith;
    ends_in = omega arith;
    start_minute = h.start_minute;
    end_minute = omega arith;
    rate_at_start = h.start_rate;
  }

  last-AllMade :
      (c : Cursor) → IsTidy c → c.current + 60 ≡ end → AllMade rate (segment_loop rate end 1 c)
  last-AllMade c h e = rw (loop_ends rate end c e) (closed-IsInDay c h, tt)

  loop-AllMade :
      (n : ℕ) (c : Cursor)
      → IsTidy c
      → c.current + 60 * suc n ≡ end
      → AllMade rate (segment_loop rate end (suc n) c)
  loop-AllMade zero c h e = last-AllMade c h (omega arith)
  loop-AllMade (suc n) c h e = elim (Bool-cases (closes rate end c)) [
    | inl cl ↦ rw (loop_closes rate end (suc n) c (omega arith) cl) (
        AllMade-cons rate _ _ (closed-IsInDay c h) (
          loop-AllMade n (first_cursor rate (c.current + 60))
            (record {
              start_minute = omega arith;
              now_minute = omega arith;
              started = omega arith;
              start_date = refl;
              now_date = refl;
              start_rate = refl;
            })
            (omega arith)))
    | inr run ↦ rw (loop_runs rate end (suc n) c (omega arith) run) (
        loop-AllMade n (record c { current = c.current + 60 })
          (record {
            start_minute = h.start_minute;
            now_minute = omega arith;
            started = omega arith;
            start_date = h.start_date;
            now_date = (runs_lem rate end c (omega arith) run).0;
            start_rate = h.start_rate;
          })
          (omega arith))
  ]

  -- With a round for every minute begun the loop returns its segments.
  segment_loop_total :
      (fuel : ℕ) (c : Cursor)
      → end ≤ c.current + 60 * fuel
      → (l : List Segment) × (segment_loop rate end fuel c ≡ some l)
  unfolding segment_loop
  segment_loop_total zero c h = ([], rw (le→ltb-false c.current end (omega arith)))
  segment_loop_total (suc fuel) c h =
      let moved : (advanced rate end c).current ≡ c.current + 60 = ground arith in
      round_returns (ltb c.current end) (closes rate end c) (segment_until c (c.current + 60))
        (segment_loop rate end fuel (advanced rate end c))
        (segment_loop_total fuel (advanced rate end c) (omega arith))

-- The loop never runs out of its fuel, whatever the rates and the bounds.
pub segments_between_total :
    (rate : Time → ℕ) (start end : Time)
    → (l : List Segment) × (segments_between rate start end ≡ some l)
unfolding segments_between
segments_between_total rate start end =
    segment_loop_total rate end (rounds start end) (first_cursor rate start) (omega arith)

AllMade-some :
    (rate : Time → ℕ) (r : Option (List Segment)) (l : List Segment)
    → AllMade rate r
    → r ≡ some l
    → All (IsInDay rate) l
AllMade-some rate r l h e = rw e at h

-- For an item of n + 1 whole minutes from the start of a minute, every segment that is made is not
-- empty, lies in the day that is its work date, starts and ends on whole minutes, and has the rate of
-- its first minute.
pub segments_between-IsInDay :
    (rate : Time → ℕ) (start n : ℕ) (l : List Segment)
    → start % 60 ≡ 0
    → segments_between rate start (start + 60 * suc n) ≡ some l
    → All (IsInDay rate) l
unfolding segments_between
segments_between-IsInDay rate start n l h e =
    let made =
      loop-AllMade rate (start + 60 * suc n) n (first_cursor rate start)
        (record {
          start_minute = h;
          now_minute = h;
          started = omega arith;
          start_date = refl;
          now_date = refl;
          start_rate = refl;
        })
        refl in
    let r : rounds start (start + 60 * suc n) ≡ suc n = omega arith in
    AllMade-some rate _ l (rw r made) e

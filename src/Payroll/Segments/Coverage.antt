-- ===== src/Payroll/Segments/Coverage.antt =====
-- What the segments of `buildPayrollPreviewLineItems` are, against the minutes of the work item.
use mathlib.Core.Option
use hrbackend.Prelude.{
  ℕ, zero, suc, ◌+◌, ◌-◌, ◌*◌, ◌/◌, ◌<◌, ◌≡◌, ◌≢◌, ◌⊎◌, inl, inr, refl, ap, sym, ◌∙◌, true, false,
  Option, some, List, [], ◌∷◌, ◌++◌, arith, Bool-cases, replicate, replicate-snoc, lt→ltb, sum_by,
  sum_by-append, length, length-append,
}
use hrbackend.Time.{Time, date_only}
use hrbackend.Payroll.Segments.{
  Segment, Cursor, segment_until, closes, segment_loop, first_cursor, rounds, segments_between,
}

-- What a minute of work is paid by: its date and its rate.
abbrev pub Key : Type 0
Key = ℕ × ℕ

abbrev pub key_of : Segment → Key
key_of s = (s.work_date, s.rate)

-- The minutes that a list of segments stands for.
abbrev pub expand : List Segment → List Key
expand [] = []
expand (s ∷ l) = replicate s.minutes (key_of s) ++ expand l

-- The n minutes from a time on, each with the date on which it falls and its own rate.
abbrev pub minutes_from : (Time → ℕ) → ℕ → Time → List Key
minutes_from rate zero t = []
minutes_from rate (suc n) t = (date_only t, rate t) ∷ minutes_from rate n (t + 60)

-- The segments follow one another without a gap from a to b.
abbrev pub Covers : Time → Time → List Segment → Type 0
Covers a b [] = a ≡ b
Covers a b (s ∷ l) = (s.start ≡ a) × (a < s.end) × Covers s.end b l

-- No segment could be joined with the one before it.
abbrev pub IsSeparated : Key → List Segment → Type 0
IsSeparated k [] = Unit {0}
IsSeparated k (s ∷ l) = ((s.work_date ≢ k.0) ⊎ (s.rate ≢ k.1)) × IsSeparated (key_of s) l

abbrev pub IsMaximal : List Segment → Type 0
IsMaximal [] = Unit {0}
IsMaximal (s ∷ l) = IsSeparated (key_of s) l

module _ (rate : Time → ℕ) (end : Time) where
  -- The running segment has k minutes behind it, and the minute at the cursor is one of its own.
  record Runs (k : ℕ) (c : Cursor) : Type 0 where
    length_is : c.segment_start + 60 * k ≡ c.current
    rate_is : rate c.current ≡ c.segment_rate
    date_is : date_only c.current ≡ c.segment_work_date

  -- What the loop returns from such a cursor, n minutes before the end.
  record Cut (k n : ℕ) (c : Cursor) (r : Option (List Segment)) : Type 0 where
    first : Segment
    others : List Segment
    returns : r ≡ some (first ∷ others)
    encodes :
        expand (first ∷ others)
        ≡ replicate k (c.segment_work_date, c.segment_rate) ++ minutes_from rate n c.current
    starts : first.start ≡ c.segment_start
    date_first : first.work_date ≡ c.segment_work_date
    rate_first : first.rate ≡ c.segment_rate
    covers : (c.segment_start < first.end) × Covers first.end end others
    separated : IsSeparated (key_of first) others

  -- A closed segment stands for the minutes behind the cursor and the one at it.
  emits :
      (k : ℕ) (c : Cursor) (l : List Key)
      → Runs k c
      → replicate (segment_until c (c.current + 60)).minutes (c.segment_work_date, c.segment_rate)
          ++ l
        ≡ replicate k (c.segment_work_date, c.segment_rate)
          ++ ((date_only c.current, rate c.current) ∷ l)
  emits k c l h =
      let m : (c.current + 60 - c.segment_start) / 60 ≡ suc k = omega arith in
      rw (m, h.date_is, h.rate_is) (sym (replicate-snoc k (c.segment_work_date, c.segment_rate) l))

  pub loop_ends :
      (c : Cursor)
      → c.current + 60 ≡ end
      → segment_loop rate end 1 c ≡ some (segment_until c (c.current + 60) ∷ [])
  unfolding segment_loop
  loop_ends c e = ground arith

  last_round :
      (k : ℕ) (c : Cursor) → Runs k c → c.current + 60 ≡ end → Cut k 1 c (segment_loop rate end 1 c)
  unfolding segment_loop
  last_round k c h e = record {
    first = segment_until c (c.current + 60);
    others = [];
    returns = loop_ends c e;
    encodes = emits k c [] h;
    starts = refl;
    date_first = refl;
    rate_first = refl;
    covers = (omega arith, e);
    separated = tt;
  }

  -- One round of the loop before the last: it closes the running segment, or goes on with it.
  pub loop_closes :
      (n : ℕ) (c : Cursor)
      → c.current + 60 < end
      → closes rate end c ≡ true
      → segment_loop rate end (suc n) c
        ≡ Option.map
            (λ l. segment_until c (c.current + 60) ∷ l)
            (segment_loop rate end n (first_cursor rate (c.current + 60)))
  unfolding segment_loop
  loop_closes n c before cl =
      rw (cl, lt→ltb c.current end (omega arith), lt→ltb (c.current + 60) end before)

  pub loop_runs :
      (n : ℕ) (c : Cursor)
      → c.current + 60 < end
      → closes rate end c ≡ false
      → segment_loop rate end (suc n) c
        ≡ segment_loop rate end n (record c { current = c.current + 60 })
  unfolding segment_loop
  loop_runs n c before cl = rw (cl, lt→ltb c.current end (omega arith))

  -- What the closing test says, before the end.
  pub closes_lem :
      (c : Cursor)
      → c.current + 60 < end
      → closes rate end c ≡ true
      → (date_only (c.current + 60) ≢ c.segment_work_date)
        ⊎ (rate (c.current + 60) ≢ c.segment_rate)
  closes_lem c before cl = ground arith

  pub runs_lem :
      (c : Cursor)
      → c.current + 60 < end
      → closes rate end c ≡ false
      → (date_only (c.current + 60) ≡ c.segment_work_date)
        × (rate (c.current + 60) ≡ c.segment_rate)
  runs_lem c before cl = ground arith

  closing_round :
      (k n : ℕ) (c : Cursor)
      → Runs k c
      → c.current + 60 < end
      → closes rate end c ≡ true
      → (let c' = first_cursor rate (c.current + 60) in Cut 0 n c' (segment_loop rate end n c'))
      → Cut k (suc n) c (segment_loop rate end (suc n) c)
  closing_round k n c h before cl later = record {
    first = segment_until c (c.current + 60);
    others = later.first ∷ later.others;
    returns = rw (loop_closes n c before cl, later.returns);
    encodes = rw later.encodes (emits k c (minutes_from rate n (c.current + 60)) h);
    starts = refl;
    date_first = refl;
    rate_first = refl;
    covers = (omega arith, (later.starts, later.covers.0, later.covers.1));
    separated = (rw (later.date_first, later.rate_first) (closes_lem c before cl), later.separated);
  }

  running_round :
      (k n : ℕ) (c : Cursor)
      → Runs k c
      → c.current + 60 < end
      → closes rate end c ≡ false
      → (let c' = record c { current = c.current + 60 } in
          Cut (suc k) n c' (segment_loop rate end n c'))
      → Cut k (suc n) c (segment_loop rate end (suc n) c)
  running_round k n c h before cl later = record {
    first = later.first;
    others = later.others;
    returns = rw (loop_runs n c before cl, later.returns);
    encodes = later.encodes ∙ rw (h.date_is, h.rate_is) (sym (replicate-snoc k _ _));
    starts = later.starts;
    date_first = later.date_first;
    rate_first = later.rate_first;
    covers = later.covers;
    separated = later.separated;
  }

  -- Every cursor that is a whole number of minutes before the end is cut up.
  segment_loop-Cut :
      (n k : ℕ) (c : Cursor)
      → Runs k c
      → c.current + 60 * suc n ≡ end
      → Cut k (suc n) c (segment_loop rate end (suc n) c)
  segment_loop-Cut zero k c h e = last_round k c h (omega arith)
  segment_loop-Cut (suc n) k c h e = elim (Bool-cases (closes rate end c)) [
    | inl cl ↦ closing_round k (suc n) c h (omega arith) cl (
        segment_loop-Cut n 0 (first_cursor rate (c.current + 60))
          (record { length_is = omega arith; rate_is = refl; date_is = refl }) (omega arith))
    | inr run ↦ running_round k (suc n) c h (omega arith) run (
        segment_loop-Cut n (suc k) (record c { current = c.current + 60 })
          (record {
            length_is = omega arith;
            rate_is = (runs_lem c (omega arith) run).1;
            date_is = (runs_lem c (omega arith) run).0;
          })
          (omega arith))
  ]

-- The segments of a work item from a to b against its minutes.
pub record IsSegmentation (rate : Time → ℕ) (a b : Time) (n : ℕ) (l : List Segment) : Type 0 where
  pub encodes : expand l ≡ minutes_from rate n a
  pub covers : Covers a b l
  pub maximal : IsMaximal l

rounds-aligned : (start n : ℕ) → rounds start (start + 60 * n) ≡ n
rounds-aligned start n = omega arith

-- For a work item of n + 1 whole minutes the loop ends, and the segments that it makes follow one
-- another from the start to the end, stand for the minutes of the item in order, each with its own
-- date and rate, and no two neighbours have the same date and rate.
pub segments_between-IsSegmentation :
    (rate : Time → ℕ) (start n : ℕ)
    → (l : List Segment) × (segments_between rate start (start + 60 * suc n) ≡ some l)
      × IsSegmentation rate start (start + 60 * suc n) (suc n) l
unfolding segments_between
segments_between-IsSegmentation rate start n =
    let end = start + 60 * suc n in
    let cut =
      segment_loop-Cut rate end n 0 (first_cursor rate start)
        (record { length_is = omega arith; rate_is = refl; date_is = refl }) refl in
    (
      cut.first ∷ cut.others,
      rw rounds-aligned cut.returns,
      record {
        encodes = cut.encodes;
        covers = (cut.starts, cut.covers.0, cut.covers.1);
        maximal = cut.separated;
      },
    )

length-replicate : (n : ℕ) (k : Key) → length (replicate n k) ≡ n
length-replicate zero k = refl
length-replicate (suc n) k = ap suc (length-replicate n k)

length-expand : (l : List Segment) → length (expand l) ≡ sum_by (λ s. s.minutes) l
length-expand [] = refl
length-expand (s ∷ l) = rw (length-append, length-replicate, length-expand l)

length-minutes_from : (rate : Time → ℕ) (n t : ℕ) → length (minutes_from rate n t) ≡ n
length-minutes_from rate zero t = refl
length-minutes_from rate (suc n) t = ap suc (length-minutes_from rate n (t + 60))

-- The minutes of the segments add up to those of the item.
pub segmentation_minutes :
    (rate : Time → ℕ) (a b n : ℕ) (l : List Segment)
    → IsSegmentation rate a b n l
    → sum_by (λ s. s.minutes) l ≡ n
segmentation_minutes rate a b n l h =
    sym (length-expand l) ∙ ap length h.encodes ∙ length-minutes_from rate n a

-- Minutes at one rate, summed over the segments: the percent-minutes that premiums are paid for.
sum_rates-replicate : (n : ℕ) (k : Key) → sum_by (λ k. k.1) (replicate n k) ≡ n * k.1
sum_rates-replicate zero k = omega arith
sum_rates-replicate (suc n) k = omega (arith, sum_rates-replicate n k)

sum_rates-expand :
    (l : List Segment) → sum_by (λ k. k.1) (expand l) ≡ sum_by (λ s. s.minutes * s.rate) l
sum_rates-expand [] = refl
sum_rates-expand (s ∷ l) =
    rw (sum_by-append {0} (λ (k : Key). k.1) (replicate s.minutes (key_of s)) (expand l))
      (omega (arith, sum_rates-replicate s.minutes (key_of s), sum_rates-expand l))

-- Premium weight is conserved: the segments' minutes times their rates add up to the rates of all
-- minutes of the item.
pub segmentation_rates :
    (rate : Time → ℕ) (a b n : ℕ) (l : List Segment)
    → IsSegmentation rate a b n l
    → sum_by (λ s. s.minutes * s.rate) l ≡ sum_by (λ k. k.1) (minutes_from rate n a)
segmentation_rates rate a b n l h =
    sym (sum_rates-expand l) ∙ ap (sum_by (λ (k : Key). k.1)) h.encodes

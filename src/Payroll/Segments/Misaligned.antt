-- ===== src/Payroll/Segments/Misaligned.antt =====
-- A work item that does not last a whole number of minutes, in the loop of
-- `buildPayrollPreviewLineItems` (internal/service/salary_payroll.go): `next.Equal(end)` never holds.
use hrbackend.Prelude.{
  ℕ, zero, suc, ◌+◌, ◌*◌, ◌<◌, ◌≤◌, ◌≡◌, refl, false, some, [], arith, lt→ltb, le→ltb-false,
}
use hrbackend.Time.{Time, date_only}
use hrbackend.Payroll.Segments.{
  Cursor, closes, segment_loop, first_cursor, rounds, segments_between,
}

module _ (rate : Time → ℕ) (end r d : ℕ) where
  -- Nothing closes the running segment where nothing changes and the end is missed.
  closes_never :
      (c : Cursor)
      → c.segment_rate ≡ r
      → c.segment_work_date ≡ d
      → (c.current + 60 < end → (rate (c.current + 60) ≡ r) × (date_only (c.current + 60) ≡ d))
      → (c.current + 60 ≡ end → ⊥)
      → closes rate end c ≡ false
  closes_never c er ed same miss = ground arith

  segment_loop_misaligned :
      (q s : ℕ) (c : Cursor)
      → c.segment_rate ≡ r
      → c.segment_work_date ≡ d
      → ((t : Time) → c.current ≤ t → t < end → (rate t ≡ r) × (date_only t ≡ d))
      → c.current + 60 * q + s ≡ end
      → 0 < s
      → s < 60
      → segment_loop rate end (suc q) c ≡ some []
  unfolding segment_loop
  segment_loop_misaligned zero s c er ed same e lo hi =
      let cl =
        closes_never c er ed (λ lt. same (c.current + 60) (omega arith) lt) (λ m. omega arith) in
      rw (cl, lt→ltb c.current end (omega arith), le→ltb-false (c.current + 60) end (omega arith))
  segment_loop_misaligned (suc q) s c er ed same e lo hi =
      let cl =
        closes_never c er ed (λ lt. same (c.current + 60) (omega arith) lt) (λ m. omega arith) in
      rw (cl, lt→ltb c.current end (omega arith))
        (segment_loop_misaligned q s (record c { current = c.current + 60 }) er ed
          (λ t a b. same t (omega arith) b) (omega arith) lo hi)

-- If a work item lasts q whole minutes and some seconds more, and all its times have one rate and
-- one date, then the loop makes no segment at all: nothing of the item is paid.
pub segments_between_misaligned :
    (rate : Time → ℕ) (start q s : ℕ)
    → ((t : Time)
        → start ≤ t
        → t < start + 60 * q + s
        → (rate t ≡ rate start) × (date_only t ≡ date_only start))
    → 0 < s
    → s < 60
    → segments_between rate start (start + 60 * q + s) ≡ some []
unfolding segments_between
segments_between_misaligned rate start q s same lo hi =
    let e : rounds start (start + 60 * q + s) ≡ suc q = omega arith in
    rw e (
      segment_loop_misaligned rate (start + 60 * q + s) (rate start) (date_only start) q s
        (first_cursor rate start) refl refl same refl lo hi)

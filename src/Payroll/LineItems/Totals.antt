-- ===== src/Payroll/LineItems/Totals.antt =====
-- What `buildPayrollPreviewLineItems` (internal/service/salary_payroll.go) returns for a work item.
use hrbackend.Prelude.{
  ℕ, suc, ◌+◌, ◌-◌, ◌*◌, ◌/◌, ◌%◌, ◌≡◌, ◌≢◌, refl, sym, ◌∙◌, false, some, List, [], ◌∷◌, map, arith,
  All, sum_by, ap, ◌==◌,
}
use hrbackend.Prelude.Int.{pos, pos_part}
use hrbackend.Prelude.Results.{ok, err}
use hrbackend.Time.{Time}
use hrbackend.Floats.{Floats, round_currency}
use hrbackend.Payroll.Rates.{Holidays, applied_payroll_rate_for_minute, is_loondienst_contract_type}
use hrbackend.Payroll.Segments.{Segment, segments_between}
use hrbackend.Payroll.Segments.Coverage.{
  IsSegmentation, segments_between-IsSegmentation, segmentation_minutes,
}
use hrbackend.Payroll.Segments.Days.{IsInDay, segments_between_total, segments_between-IsInDay}
use hrbackend.Payroll.LineItems.{
  WorkItem, LineItem, Lines, add_lines, out_of_fuel, lines_between, lines_of, segment_line,
}

module _ (F : Floats) (item : WorkItem F.Float) (hourly_rate : F.Float) (holidays : Holidays) where
  abbrev item_rate : Time → ℕ
  item_rate =
      applied_payroll_rate_for_minute item.contract_type item.irregular_hours_profile holidays

  -- The loop's fuel is enough for every item: the function returns its lines or its own error.
  pub lines_between-ne-out_of_fuel :
      (start end : Time) → lines_between F item hourly_rate holidays start end ≢ err out_of_fuel
  unfolding lines_between
  lines_between-ne-out_of_fuel start end e =
      let (l, made) = segments_between_total item_rate start end in ground arith

  lines_of_segments :
      (start end : Time) (l : List Segment)
      → ((end - start) / 60 == 0) ≡ false
      → segments_between item_rate start end ≡ some l
      → lines_between F item hourly_rate holidays start end
        ≡ ok (lines_of F item hourly_rate ((end - start) / 60) l)
  unfolding lines_between
  lines_of_segments start end l h made = ground arith

  lines_made :
      (start n : ℕ)
      → (l : List Segment) × IsSegmentation item_rate start (start + 60 * suc n) (suc n) l
        × (lines_between F item hourly_rate holidays start (start + 60 * suc n)
            ≡ ok (lines_of F item hourly_rate (suc n) l))
  lines_made start n =
      let (l, made, seg) = segments_between-IsSegmentation item_rate start n in
      let m : (start + 60 * suc n - start) / 60 ≡ suc n = omega arith in
      (l, seg, lines_of_segments start _ l (ground arith) made ∙ rw m)

  -- The line of a segment: its date, its minutes and its rate, the hourly rate for the minutes rounded
  -- to the cent, and the segment's percentage of that amount, rounded too.
  abbrev pub IsLine : Segment → LineItem F.Float → Type 0
  IsLine s x =
      (x.work_date ≡ s.work_date)
      × (x.minutes_worked ≡ pos s.minutes)
      × (x.applied_rate_percent ≡ F.of_ℕ s.rate)
      × (x.base_amount
          ≡ round_currency F (F.◌/F◌ (F.◌*F◌ hourly_rate (F.of_ℕ s.minutes)) (F.of_ℕ 60)))
      × (x.premium_amount
          ≡ round_currency F (F.◌/F◌ (F.◌*F◌ x.base_amount (F.of_ℕ s.rate)) (F.of_ℕ 100)))

  -- One line for each segment, in order.
  abbrev pub AreLines : List Segment → List (LineItem F.Float) → Type 0
  AreLines [] [] = Unit
  AreLines [] (x ∷ xs) = ⊥
  AreLines (s ∷ l) [] = ⊥
  AreLines (s ∷ l) (x ∷ xs) = IsLine s x × AreLines l xs

  -- Amounts added one after the other, rounded to the cent at each.
  abbrev pub running_total : F.Float → List F.Float → F.Float
  running_total total [] = total
  running_total total (a ∷ rest) = running_total (round_currency F (F.◌+F◌ total a)) rest

  segment_lines : (l : List Segment) → AreLines l (map (segment_line F item hourly_rate) l)
  unfolding segment_line
  segment_lines [] = tt
  segment_lines (s ∷ l) = ((refl, refl, refl, refl, refl), segment_lines l)

  added_lines :
      (amount : LineItem F.Float → F.Float) (total : F.Float) (xs : List (LineItem F.Float))
      → add_lines F amount total xs ≡ running_total total (map amount xs)
  unfolding add_lines
  added_lines amount total [] = refl
  added_lines amount total (x ∷ xs) =
      added_lines amount (round_currency F (F.◌+F◌ total (amount x))) xs

  -- An item that lasts n + 1 whole minutes is cut into a segmentation of its minutes by date and by
  -- the rate that applies to the item, and gets one line for each segment, in order: with the
  -- segment's date, minutes and rate, a base amount of the hourly rate for these minutes, and a premium
  -- of the rate's percentage of the base, both rounded to the cent. The item's worked minutes are n + 1,
  -- and its two amounts are the lines' base amounts and premiums, added in order and rounded at each.
  pub lines_between_lem :
      (start n : ℕ)
      → (l : List Segment) × (r : Lines F.Float) × IsSegmentation item_rate start
          (start + 60 * suc n)
          (suc n)
          l
        × (lines_between F item hourly_rate holidays start (start + 60 * suc n) ≡ ok r)
        × AreLines l r.items
        × (r.worked_minutes ≡ pos (suc n))
        × (r.base_amount ≡ running_total (F.of_ℕ 0) (map (λ x. x.base_amount) r.items))
        × (r.premium_amount ≡ running_total (F.of_ℕ 0) (map (λ x. x.premium_amount) r.items))
  unfolding lines_of
  lines_between_lem start n =
      let (l, seg, made) = lines_made start n in
      (
        l,
        lines_of F item hourly_rate (suc n) l,
        seg,
        made,
        segment_lines l,
        refl,
        added_lines (λ x. x.base_amount) (F.of_ℕ 0) (map (segment_line F item hourly_rate) l),
        added_lines (λ x. x.premium_amount) (F.of_ℕ 0) (map (segment_line F item hourly_rate) l),
      )

  line_minutes :
      (l : List Segment)
      → sum_by (λ x. pos_part x.minutes_worked) (map (segment_line F item hourly_rate) l)
        ≡ sum_by (λ s. s.minutes) l
  unfolding segment_line
  line_minutes [] = refl
  line_minutes (s ∷ l) = omega (arith, line_minutes l)

  -- For an item that lasts n + 1 whole minutes and whose lines are made, the minutes on the lines add
  -- up to n + 1, which is also the item's worked minutes.
  pub lines_account_for_minutes :
      (start n : ℕ) (r : Lines F.Float)
      → lines_between F item hourly_rate holidays start (start + 60 * suc n) ≡ ok r
      → (sum_by (λ x. pos_part x.minutes_worked) r.items ≡ suc n) × (r.worked_minutes ≡ pos (suc n))
  unfolding lines_of
  lines_account_for_minutes start n r e =
      let (l, seg, made) = lines_made start n in
      let total = line_minutes l ∙ segmentation_minutes item_rate _ _ (suc n) l seg in
      let same : lines_of F item hourly_rate (suc n) l ≡ r = cc in rw (← same) (total, refl)

  item_rate-zero :
      is_loondienst_contract_type item.contract_type ≡ false → (t : Time) → item_rate t ≡ 0
  unfolding applied_payroll_rate_for_minute
  item_rate-zero h t = rw h

  unrated_lines :
      is_loondienst_contract_type item.contract_type ≡ false
      → (l : List Segment) → All (IsInDay item_rate) l
      → All (λ x. x.applied_rate_percent ≡ F.of_ℕ 0) (map (segment_line F item hourly_rate) l)
  unfolding segment_line
  unrated_lines h [] hs = tt
  unrated_lines h (s ∷ l) hs =
      let zero_rate : s.rate ≡ 0 = sym hs.0.rate_at_start ∙ item_rate-zero h s.start in
      (ap F.of_ℕ zero_rate, unrated_lines h l hs.1)

  pub lines_without_premium :
      (start n : ℕ) (r : Lines F.Float)
      → is_loondienst_contract_type item.contract_type ≡ false
      → start % 60 ≡ 0
      → lines_between F item hourly_rate holidays start (start + 60 * suc n) ≡ ok r
      → All (λ x. x.applied_rate_percent ≡ F.of_ℕ 0) r.items
  unfolding lines_of
  lines_without_premium start n r h aligned e =
      let (l, made, seg) = segments_between-IsSegmentation item_rate start n in
      let m : (start + 60 * suc n - start) / 60 ≡ suc n = omega arith in
      let returned = lines_of_segments start (start + 60 * suc n) l (ground arith) made in
      let same : lines_of F item hourly_rate ((start + 60 * suc n - start) / 60) l ≡ r = cc in
      rw (← same) (unrated_lines h l (segments_between-IsInDay item_rate start n l aligned made))

-- ===== src/Leave/Minutes.antt =====
-- The minutes that a leave request asks for: `calculateFullDayMinutes`, `calculateHoursMinutes` and
-- `calculateRequestedMinutes` of internal/service/leave_service.go. What the database knows of
-- contracts (`GetEmployeeContractAtDate`) is an argument: the day of the week that an employee has
-- off on a date (`roster_free_day`, a weekday that is never null), if there is a contract.
use hrbackend.Prelude.{
  ℕ, zero, suc, ◌+◌, ◌-◌, ◌*◌, ◌/◌, ◌≤◌, ◌<◌, ◌≡◌, refl, Bool, true, false, not, ◌&&◌, Option, none,
  some, List, [], ◌∷◌, arith, ltb, ◌==◌, if◌then◌else◌, sum_by, Option-cases, Bool-cases, inl, inr,
  ap,
}
use hrbackend.Prelude.Int.{ℤ, pos, ltb_ℤ, int32, int32_half, ◌+32◌}
use hrbackend.Prelude.Results.{Result, ok, err}
use hrbackend.Time.{Time, date_only, weekday}

-- The errors of internal/domain/leave.go, and `db_error` for a query that the database refuses.
pub data LeaveError : Type 0 where
  invalid_request not_found state_invalid forbidden : LeaveError
  balance_insufficient duration_invalid db_error : LeaveError

-- `domain.LeaveContractAtDate` by employee and date.
abbrev pub Contracts : Type 0
Contracts = ℕ → Time → Option ℕ

abbrev pub full_day_leave_minutes : ℕ
full_day_leave_minutes = 480

module _ (contract_at : Contracts) (employee : ℕ) where
  -- `for !current.After(end)`, with the running total; the fuel is the days up to the end.
  unfoldable pub full_day_loop : ℕ → Time → Time → ℤ → Result LeaveError ℤ
  full_day_loop zero current end total = ok total
  full_day_loop (suc fuel) current end total =
      let skipped = full_day_loop fuel (current + 86400) end total in
      let charged =
        full_day_loop fuel (current + 86400) end (total +32 pos full_day_leave_minutes) in
      if ltb end current then ok total else elim (contract_at employee current) [
        | none ↦ err duration_invalid
        | some free_day ↦ if weekday current == free_day then skipped else charged
      ]

  abbrev pub days_between : Time → Time → ℕ
  days_between start end = (end - start) / 86400 + 1

  -- The test after the loop.
  abbrev pub chargeable : Result LeaveError ℤ → Result LeaveError ℤ
  chargeable (err e) = err e
  chargeable (ok total) = if ltb_ℤ (pos 0) total then ok total else err duration_invalid

  unfoldable pub calculate_full_day_minutes : Time → Time → Result LeaveError ℤ
  calculate_full_day_minutes start_date end_date =
      let current = date_only start_date in
      let end = date_only end_date in
      if ltb end current
      then err duration_invalid
      else chargeable (full_day_loop (days_between current end) current end (pos 0))

  -- Times of day are seconds, and a leave of years is not asked for: `int32(duration.Minutes())` is
  -- exact, since a `time.Duration` holds less than 2 ^ 31 minutes.
  unfoldable pub calculate_hours_minutes : Time → Time → Option ℕ → Option ℕ → Result LeaveError ℤ
  calculate_hours_minutes start_date end_date start_time end_time =
      if not (date_only start_date == date_only end_date)
      then err duration_invalid
      else elim (contract_at employee (date_only start_date)) [
        | none ↦ err duration_invalid
        | some free_day ↦
            if weekday (date_only start_date) == free_day
            then err duration_invalid
            else elim start_time [
              | none ↦ err duration_invalid
              | some s ↦ elim end_time [
                | none ↦ err duration_invalid
                | some e ↦
                    if not (ltb s e)
                    then err duration_invalid
                    else if ltb full_day_leave_minutes ((e - s) / 60)
                    then err duration_invalid
                    else ok (pos ((e - s) / 60))
              ]
            ]
      ]

  -- The n days from a date on.
  abbrev pub days_from : ℕ → Time → List Time
  days_from zero t = []
  days_from (suc n) t = t ∷ days_from n (t + 86400)

  -- Every day falls into a contract.
  abbrev pub all_contracted : List Time → Bool
  all_contracted [] = true
  all_contracted (t ∷ ts) = elim (contract_at employee t) [
    | none ↦ false
    | some free_day ↦ all_contracted ts
  ]

  -- 1 for a day of a contract that is not its day off.
  abbrev pub is_charged : Time → ℕ
  is_charged t = elim (contract_at employee t) [
    | none ↦ 0
    | some free_day ↦ if weekday t == free_day then 0 else 1
  ]

  -- 480 minutes for each day that is no day off, where the employee has a contract on all days and some
  -- day is left.
  abbrev pub full_day_reference : List Time → Result LeaveError ℤ
  full_day_reference days =
      if all_contracted days && ltb 0 (sum_by is_charged days)
      then ok (pos (full_day_leave_minutes * sum_by is_charged days))
      else err duration_invalid

  add_exact : (x y : ℕ) → x + y < int32_half → (pos x +32 pos y) ≡ pos (x + y)
  unfolding ◌+32◌ int32
  add_exact x y h = ground arith

  loop_past : (n : ℕ) (t end : Time) (total : ℤ) → end < t → full_day_loop n t end total ≡ ok total
  unfolding full_day_loop
  loop_past zero t end total h = refl
  loop_past (suc n) t end total h = ground arith

  full_day_loop_lem :
      (n : ℕ) (t end : Time) (total : ℕ)
      → t + 86400 * n ≡ end + 86400
      → total + full_day_leave_minutes * n < int32_half
      → full_day_loop n t end (pos total) ≡ (
          if all_contracted (days_from n t)
          then ok (pos (total + full_day_leave_minutes * sum_by is_charged (days_from n t)))
          else err duration_invalid)
  unfolding full_day_loop
  full_day_loop_lem zero t end total h lt = ap (λ n. ok (pos n)) (omega arith)
  full_day_loop_lem (suc n) t end total h lt =
      let skipped = full_day_loop_lem n (t + 86400) end total (omega arith) (omega arith) in
      let charged =
        full_day_loop_lem n (t + 86400) end (total + full_day_leave_minutes) (omega arith)
          (omega arith) in
      elim (Option-cases (contract_at employee t)) [
        | inl none_at ↦ ground arith
        | inr (free_day, at) ↦ elim (Bool-cases (weekday t == free_day)) [
          | inl free ↦ ground (arith, skipped)
          | inr work ↦ ground (arith, charged, add_exact total full_day_leave_minutes (omega arith))
        ]
      ]

  -- From a start date to an end date that is not before it, for so few days that their minutes are an
  -- int32, the day loop returns 480 minutes for each day that is not the contract's day off, and the
  -- error for an invalid duration exactly where a day has no contract or no day is left.
  pub calculate_full_day_minutes_lem :
      (start end : Time)
      → date_only start ≤ date_only end
      → full_day_leave_minutes * days_between (date_only start) (date_only end) < int32_half
      → calculate_full_day_minutes start end
        ≡ full_day_reference
            (days_from (days_between (date_only start) (date_only end)) (date_only start))
  unfolding calculate_full_day_minutes
  calculate_full_day_minutes_lem start end le lt = ground (
    arith,
    full_day_loop_lem (days_between (date_only start) (date_only end)) (date_only start)
        (date_only end) 0 (omega arith) (omega arith),
  )

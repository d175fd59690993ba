-- ===== src/Payout/Budget.antt =====
-- The leave balance under the payout operations of internal/service/payout_service.go.
use hrbackend.Prelude.{ℕ, ◌+◌, ◌*◌, ◌<◌, ◌≡◌, false, Option, arith, Option-cases, inl, inr}
use hrbackend.Prelude.Int.{
  ℤ, pos, pos_part, neg_part, ltb_ℤ, int32, int32_half, ◌-32◌, ◌*32◌, ◌≤ℤ◌, IsInt32,
}
use hrbackend.Prelude.GoText.{Text}
use hrbackend.Prelude.Results.{ok}
use hrbackend.Time.{Time}
use hrbackend.Floats.{Floats}
use hrbackend.Store.Table.{insert, sum_rows}
use hrbackend.Balance.{
  LeaveDb, leave_used, payout_used, reserved, compute_legal_leave_used_for_year,
  compute_reserved_payout_minutes_for_year, lock_employee_for_leave_balance,
}
use hrbackend.Payout.{available_minutes, payout_balance_as_of, payout_rate, insert_payout}
use hrbackend.Payout.Service.{create_checked}

-- The minutes of a year's balance that are spent or asked for.
abbrev pub committed : {Float : Type 0} → LeaveDb Float → ℕ → ℕ → ℕ
committed db employee year =
    leave_used db employee year + payout_used db employee year + reserved db employee year

-- The int32 differences are exact where what is committed is an int32.
pub balance_exact :
    (t : ℤ) (u v : ℕ)
    → IsInt32 t
    → pos 0 ≤ℤ t
    → u + v < int32_half
    → pos_part (t -32 pos u -32 pos v) + u + v ≡ neg_part (t -32 pos u -32 pos v) + pos_part t
unfolding ◌-32◌ int32
balance_exact t u v ht hp h = ground arith

-- Below 2 ^ 31 minutes the hours are turned into minutes exactly.
pub minutes_exact : (h : ℕ) → h * 60 < int32_half → pos h *32 60 ≡ pos (h * 60)
unfolding ◌*32◌ int32
minutes_exact h lt = ground arith

module _ (F : Floats) (legal_total : ℕ → ℕ → Time → ℤ) (contract_rate : ℕ → Option F.Float)
    (now : Time) (employee year : ℕ) where
  abbrev pub total : ℤ
  total = legal_total employee year (payout_balance_as_of year now)

  -- What the balance query returns, if it does, and that it changes nothing.
  pub available_minutes_ok :
      (db db' : LeaveDb F.Float) (a : ℤ)
      → available_minutes F legal_total contract_rate employee year now db ≡ (ok a, db')
      → (db' ≡ db)
        × (a
            ≡ total
              -32 pos (leave_used db employee year + payout_used db employee year)
              -32 pos (reserved db employee year))
  unfolding available_minutes compute_legal_leave_used_for_year
      compute_reserved_payout_minutes_for_year lock_employee_for_leave_balance
  available_minutes_ok db db' a e = ground arith

  -- A row that is added to the payouts.
  pub insert_committed :
      (fresh created_by : ℕ) (hours : ℤ) (rate : F.Float) (remark : Option Text)
      (db db' : LeaveDb F.Float) (k : ℕ)
      → insert_payout F legal_total contract_rate fresh employee created_by hours
          (pos year)
          rate
          remark
          db
        ≡ (ok k, db')
      → committed db' employee year ≡ committed db employee year + pos_part hours * 60
  unfolding insert_payout leave_used payout_used reserved sum_rows insert
  insert_committed fresh created_by hours rate remark db db' k e = ground arith

  -- A checked creation that succeeds found the balance large enough and inserted a row.
  pub create_checked_inserts :
      (fresh created_by : ℕ) (hours : ℤ) (remark : Option Text) (db db' : LeaveDb F.Float) (k : ℕ)
      → create_checked F legal_total contract_rate fresh now employee created_by hours
          (pos year)
          remark
          db
        ≡ (ok k, db')
      → (rate : F.Float) × (insert_payout F legal_total contract_rate fresh employee created_by
            hours
            (pos year)
            rate
            remark
            db
          ≡ (ok k, db'))
        × (ltb_ℤ
              (total
                -32 pos (leave_used db employee year + payout_used db employee year)
                -32 pos (reserved db employee year))
              (hours *32 60)
            ≡ false)
  unfolding create_checked available_minutes compute_legal_leave_used_for_year
      compute_reserved_payout_minutes_for_year lock_employee_for_leave_balance payout_rate
  create_checked_inserts fresh created_by hours remark db db' k e =
      elim (Option-cases (contract_rate employee)) [
        | inl h ↦ ground arith
        | inr (rate, h) ↦ (rate, ground arith, ground arith)
      ]

  -- A checked creation that succeeds leaves no more committed than the total.
  pub create_checked_ok :
      (fresh created_by hours : ℕ) (remark : Option Text) (db db' : LeaveDb F.Float) (k : ℕ)
      → create_checked F legal_total contract_rate fresh now employee created_by
          (pos hours)
          (pos year)
          remark
          db
        ≡ (ok k, db')
      → IsInt32 total
      → pos 0 ≤ℤ total
      → hours * 60 < int32_half
      → committed db employee year < int32_half
      → pos (committed db' employee year) ≤ℤ total
  create_checked_ok fresh created_by hours remark db db' k e ht hp hh hc =
      let (rate, inserted, enough) =
        create_checked_inserts fresh created_by (pos hours) remark db db' k e in
      ground (
        arith,
        insert_committed fresh created_by (pos hours) rate remark db db' k inserted,
        minutes_exact hours hh,
        balance_exact total (leave_used db employee year + payout_used db employee year)
            (reserved db employee year) ht hp hc,
      )

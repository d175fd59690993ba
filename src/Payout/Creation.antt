-- ===== src/Payout/Creation.antt =====
-- New payout requests and the leave balance: `CreatePayoutRequest` and
-- `CreateApprovedPayoutRequestByAdmin` of internal/service/payout_service.go.
use hrbackend.Params.{uuid_nil}
use hrbackend.Prelude.{
  ℕ, ◌+◌, ◌*◌, ◌≤◌, ◌<◌, ◌≡◌, true, false, Option, none, some, arith, ◌||◌, ◌≢◌,
}
use hrbackend.Prelude.Int.{
  ℤ, pos, negsuc, pos_part, int32, int32_half, int32_mod, ◌-32◌, ◌*32◌, ◌≤ℤ◌, IsInt32,
}
use hrbackend.Prelude.GoText.{Text}
use hrbackend.Prelude.Results.{ok}
use hrbackend.Time.{Time}
use hrbackend.Floats.{Floats}
use hrbackend.Store.{exec_tx}
use hrbackend.Store.Table.{select}
use hrbackend.Balance.{
  LeaveDb, known, leave_used, payout_used, reserved, compute_legal_leave_used_for_year,
  compute_reserved_payout_minutes_for_year, lock_employee_for_leave_balance,
}
use hrbackend.Payout.{
  CreateParams, not_positive, year_out_of_range, available_minutes, payout_rate, insert_payout,
}
use hrbackend.Payout.Service.{create_checked, create_payout_request}
use hrbackend.Payout.Budget.{committed, total, create_checked_ok}

module _ (F : Floats) (legal_total : ℕ → ℕ → Time → ℤ) (contract_rate : ℕ → Option F.Float) where
  pub checked_within :
      (fresh : ℕ) (now : Time) (employee created_by : ℕ) (hours year : ℤ) (remark : Option Text)
      (db db' : LeaveDb F.Float) (k : ℕ)
      → create_checked F legal_total contract_rate fresh now employee created_by hours year remark
          db
        ≡ (ok k, db')
      → not_positive hours || year_out_of_range year ≡ false
      → IsInt32 (total F legal_total contract_rate now employee (pos_part year))
      → pos 0 ≤ℤ total F legal_total contract_rate now employee (pos_part year)
      → pos_part hours * 60 < int32_half
      → committed db employee (pos_part year) < int32_half
      → pos (committed db' employee (pos_part year))
        ≤ℤ total F legal_total contract_rate now employee (pos_part year)
  checked_within fresh now employee created_by (pos h) (pos y) remark db db' k e v ht hp hh hc =
      create_checked_ok F legal_total contract_rate now employee y fresh created_by h remark db db'
        k e ht hp hh hc
  checked_within fresh now employee created_by (negsuc h) y remark db db' k e v ht hp hh hc =
      ground arith
  checked_within fresh now employee created_by (pos h) (negsuc y) remark db db' k e v ht hp hh hc =
      ground arith

  -- A request that `CreatePayoutRequest` accepts leaves the employee's committed minutes of the year
  -- (leave used, payouts settled, payouts waiting) within the year's total. Conditions: the total is
  -- a nonnegative int32, the minutes asked for and the minutes committed before are below 2 ^ 31.
  pub create_payout_request_within_budget :
      (fresh actor : ℕ) (now : Time) (p : CreateParams) (db db' : LeaveDb F.Float) (k : ℕ)
      → create_payout_request F legal_total contract_rate fresh now actor p db ≡ (ok k, db')
      → IsInt32 (total F legal_total contract_rate now p.employee_id (pos_part p.balance_year))
      → pos 0 ≤ℤ total F legal_total contract_rate now p.employee_id (pos_part p.balance_year)
      → pos_part p.requested_hours * 60 < int32_half
      → committed db p.employee_id (pos_part p.balance_year) < int32_half
      → pos (committed db' p.employee_id (pos_part p.balance_year))
        ≤ℤ total F legal_total contract_rate now p.employee_id (pos_part p.balance_year)
  unfolding create_payout_request exec_tx
  create_payout_request_within_budget fresh actor now p db db' k e ht hp hh hc =
      checked_within fresh now p.employee_id p.created_by_employee_id p.requested_hours
        p.balance_year p.request_note db db' k (ground arith) (ground arith) ht hp hh hc

  -- `CreatePayoutRequest` turns hours into minutes in int32: a request by a known employee with a
  -- positive rate, for a year from 2000 to 2100 and hours whose minutes lie from 2 ^ 31 to below
  -- 2 ^ 32, is accepted whenever the available minutes are not negative, however few they are.
  -- Conditions: the key for the row is free, the rate is positive as its column keeps it, the gross
  -- amount fits its column and is not negative there, and the minutes used and reserved are below
  -- 2 ^ 31.
  pub create_payout_request_overflow :
      (fresh actor hours year : ℕ) (rate kept gross : F.Float) (now : Time) (remark : Option Text)
      (db : LeaveDb F.Float)
      → actor ≢ uuid_nil
      → int32_half ≤ hours * 60
      → hours * 60 < int32_mod
      → 2000 ≤ year
      → year ≤ 2100
      → known actor db.employees ≡ true
      → contract_rate actor ≡ some rate
      → F.is_positive rate ≡ true
      → F.to_rate rate ≡ some kept
      → F.is_positive kept ≡ true
      → F.to_amount (F.◌*F◌ (F.of_ℤ (pos hours)) rate) ≡ some gross
      → F.is_negative gross ≡ false
      → select fresh db.payouts ≡ none
      → leave_used db actor year + payout_used db actor year < int32_half
      → reserved db actor year < int32_half
      → pos 0
        ≤ℤ total F legal_total contract_rate now actor year
          -32 pos (leave_used db actor year + payout_used db actor year)
          -32 pos (reserved db actor year)
      → (create_payout_request F legal_total contract_rate fresh now actor
          (record {
            employee_id = actor;
            created_by_employee_id = actor;
            requested_hours = pos hours;
            balance_year = pos year;
            request_note = remark;
          })
          db).0
        ≡ ok fresh
  unfolding create_payout_request create_checked available_minutes payout_rate insert_payout exec_tx
      compute_legal_leave_used_for_year compute_reserved_payout_minutes_for_year
      lock_employee_for_leave_balance ◌*32◌ int32
  create_payout_request_overflow fresh actor hours year rate kept gross now remark db ha h1 h2 y1 y2
        hk hr hp hkr hkp hka hkn hs hu hv hb =
      ground arith

-- ===== src/Payout/Lifecycle.antt =====
-- The life of a payout request: every operation of internal/service/payout_service.go as a step on
-- the requests, whether it succeeds or fails.
pub mod WellFormed
pub mod Inverts
pub mod Steps
pub mod Invariant
use hrbackend.Prelude.{
  ℕ, ◌+◌, ◌*◌, ◌≤◌, ◌<◌, ◌≡◌, ◌≢◌, ◌⊎◌, refl, Bool, true, false, Option, none, some, List, [], ◌∷◌,
  arith, Option-cases, Bool-cases, inl, inr, ◌||◌, if◌then◌else◌, ap, subst, sym,
}
use hrbackend.Prelude.Int.{ℤ, pos, negsuc, pos_part, ltb_ℤ}
use hrbackend.Prelude.GoText.{Text, codes, text_eq, normalized}
use hrbackend.Prelude.Results.{Result, ok, err, Result-cases}
use hrbackend.Time.{Time}
use hrbackend.Floats.{Floats}
use hrbackend.Store.{Action, IsAtomic, exec_tx, ◌>>=◌, ◌>>◌}
use hrbackend.Store.Table.{
  Table, select, update, insert, AllRows, HasKeys, update-HasKeys, insert-HasKeys, update-insert,
  select-AllRows, update-AllRows, select-update_self, select-update, select-insert,
}
use hrbackend.Balance.{
  PayoutRow, PayoutStatus, pending, approved, rejected, paid, LeaveDb,
  compute_legal_leave_used_for_year, compute_reserved_payout_minutes_for_year,
  lock_employee_for_leave_balance,
}
use hrbackend.Payout.Decision.{decided_as, approve_inverts, approve_checked_inverts}
use hrbackend.Payout.{
  CreateParams, UpdateParams, CreateByAdminParams, DecideParams, PayoutError, not_positive,
  year_out_of_range, available_minutes, payout_rate, insert_payout, write_payout_fields,
  get_payout_request_for_update, update_payout, approve_payout_request, reject_payout_request,
  mark_payout_request_paid,
}
use hrbackend.Payout.Service.{
  create_checked, approve_checked, create_payout_request, update_payout_request,
  update_payout_request_by_admin, create_approved_payout_request_by_admin,
  decide_payout_request_by_admin, mark_payout_request_paid_by_admin,
}

-- A call of the service, with the key that the database would make for a new row.
pub data PayoutCall : Type 0 where
  create : ℕ → ℕ → CreateParams → PayoutCall
  update_own : ℕ → ℕ → UpdateParams → PayoutCall
  update_any : ℕ → ℕ → UpdateParams → PayoutCall
  create_approved : ℕ → ℕ → CreateByAdminParams → PayoutCall
  decide : ℕ → ℕ → DecideParams → PayoutCall
  mark_paid : ℕ → ℕ → PayoutCall

-- What the record of a request in each status holds.
abbrev pub StageHolds : {Float : Type 0} → PayoutStatus → PayoutRow Float → Type 0
StageHolds pending r = (r.decided_by_employee_id ≡ none) × (r.paid_by_employee_id ≡ none)
StageHolds rejected r = (r.decided_by_employee_id ≢ none) × (r.paid_by_employee_id ≡ none)
StageHolds approved r = (r.decided_by_employee_id ≢ none) × (r.paid_by_employee_id ≡ none)
StageHolds paid r = (r.decided_by_employee_id ≢ none) × (r.paid_by_employee_id ≢ none)

-- The statuses that a request may pass between in one call.
pub data Follows : PayoutStatus → PayoutStatus → Type 0 where
  stays : {s : PayoutStatus} → Follows s s
  approves : Follows pending approved
  rejects : Follows pending rejected
  pays : Follows approved paid

-- The row that `MarkPayoutRequestPaid` writes.
abbrev pub paid_as : {Float : Type 0} → ℕ → Time → PayoutRow Float → PayoutRow Float
paid_as admin now r = record r {
  status = paid;
  paid_by_employee_id = some admin;
  paid_at = some now;
}

-- The row that `UpdatePayoutRequest` writes.
abbrev pub rewritten_as :
    {Float : Type 0} → UpdateParams → Float → PayoutRow Float → PayoutRow Float
rewritten_as p gross r = record r {
  requested_hours = pos_part p.requested_hours;
  balance_year = pos_part p.balance_year;
  gross_amount = gross;
  request_note = p.request_note;
}

-- The row that `RejectPayoutRequest` writes.
abbrev pub rejected_as :
    {Float : Type 0} → ℕ → Option Text → Time → PayoutRow Float → PayoutRow Float
rejected_as admin remark now r = record r {
  status = rejected;
  decision_note = remark;
  decided_by_employee_id = some admin;
  decided_at = some now;
}

-- The row that `CreatePayoutRequest` inserts.
abbrev pub filed_as :
    {Float : Type 0} → ℕ → ℕ → ℤ → ℤ → Float → Float → Option Text → PayoutRow Float
filed_as employee created_by hours year rate gross remark = record {
  employee_id = employee;
  created_by_employee_id = created_by;
  requested_hours = pos_part hours;
  balance_year = pos_part year;
  hourly_rate = rate;
  gross_amount = gross;
  pay_period_start = none;
  status = pending;
  request_note = remark;
  decision_note = none;
  decided_by_employee_id = none;
  paid_by_employee_id = none;
  decided_at = none;
  paid_at = none;
}

module _ (F : Floats) where
  open F use {Float, of_ℤ, ◌*F◌, is_positive, is_negative, to_rate, to_amount}

  -- What the columns keep of a rate and of the hours at that rate.
  abbrev pub AreKept : ℤ → Float → Float → Float → Type 0
  AreKept hours rate kept gross =
      (to_rate rate ≡ some kept)
      × (to_amount (◌*F◌ (of_ℤ hours) rate) ≡ some gross)
      × (is_positive kept ≡ true)
      × (is_negative gross ≡ false)

  -- The amount is the hours times a rate, rounded to its column: the request's rate, or the
  -- contract's that was rounded to the request's. The rate is positive, the amount not negative.
  abbrev pub AmountsFit : PayoutRow Float → Type 0
  AmountsFit r =
      (is_positive r.hourly_rate ≡ true)
      × (is_negative r.gross_amount ≡ false)
      × ((rate : Float) × ((rate ≡ r.hourly_rate) ⊎ (to_rate rate ≡ some r.hourly_rate))
          × (to_amount (◌*F◌ (of_ℤ (pos r.requested_hours)) rate) ≡ some r.gross_amount))

  -- The schema's bounds, the amount, and the stage.
  abbrev pub IsWellFormed : PayoutRow Float → Type 0
  IsWellFormed r =
      (0 < r.requested_hours)
      × (2000 ≤ r.balance_year)
      × (r.balance_year ≤ 2100)
      × AmountsFit r
      × StageHolds r.status r

  -- A call either leaves the database, or files a request under a key not in use, or revises one.
  pub data PayoutStep (db db' : LeaveDb Float) : Type 0 where
    idle : db' ≡ db → PayoutStep db db'
    filed :
        (k : ℕ) (r : PayoutRow Float)
        → select k db.payouts ≡ none
        → IsWellFormed r
        → Follows pending r.status
        → db' ≡ record db { payouts = insert k r db.payouts }
        → PayoutStep db db'
    revised :
        (k : ℕ) (f : PayoutRow Float → PayoutRow Float) (r : PayoutRow Float)
        → select k db.payouts ≡ some r
        → (IsWellFormed r → IsWellFormed (f r))
        → Follows r.status (f r).status
        → (f r).employee_id ≡ r.employee_id
        → (f r).hourly_rate ≡ r.hourly_rate
        → db' ≡ record db { payouts = update k f db.payouts }
        → PayoutStep db db'

  module _ (legal_total : ℕ → ℕ → Time → ℤ) (contract_rate : ℕ → Option Float) where
    -- The database after a call.
    unfoldable pub perform : Time → PayoutCall → LeaveDb Float → LeaveDb Float
    perform now (create fresh actor p) db =
        (create_payout_request F legal_total contract_rate fresh now actor p db).1
    perform now (update_own actor id p) db =
        (update_payout_request F legal_total contract_rate actor id p db).1
    perform now (update_any admin id p) db =
        (update_payout_request_by_admin F legal_total contract_rate admin id p db).1
    perform now (create_approved fresh admin p) db =
        (create_approved_payout_request_by_admin F legal_total contract_rate fresh now admin p db).1
    perform now (decide admin id p) db =
        (decide_payout_request_by_admin F legal_total contract_rate admin id p now db).1
    perform now (mark_paid admin id) db =
        (mark_payout_request_paid_by_admin F legal_total contract_rate admin id now db).1

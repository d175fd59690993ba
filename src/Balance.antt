-- ===== src/Balance.antt =====
-- The leave tables and the balance queries on them, which the leave and the payout service share:
-- `ComputeLegalLeaveUsedForYear`, `ComputeReservedPayoutMinutesForYear` and the locks, as
-- internal/repository/payout_repo.go and leave_repo.go call them
-- (internal/repository/db/query/leave_balance.sql, payout_request.sql). Keys (UUIDs) are numbers, and
-- `uuid.Nil` is 0. Columns that no rule reads (creation and update stamps) are left out.
use hrbackend.Prelude.{
  ℕ, ◌+◌, ◌*◌, Bool, true, false, ◌&&◌, ◌||◌, Option, none, some, List, [], ◌∷◌, ltb, leb, ◌==◌,
  if◌then◌else◌,
}
use hrbackend.Prelude.Int.{int32_half}
use hrbackend.Prelude.GoText.{Text}
use hrbackend.Time.{Time}
use hrbackend.Time.Calendar.{days_before_year}
use hrbackend.Store.{Action, one_row}
use hrbackend.Store.Table.{Table, sum_rows}

-- `leave_request_type_enum`, `leave_request_status_enum` and `leave_duration_type_enum`.
pub data LeaveType : Type 0 where
  vacation personal sick pregnancy unpaid other : LeaveType

pub data LeaveStatus : Type 0 where
  pending approved rejected cancelled expired : LeaveStatus

pub data DurationType : Type 0 where
  full_day hours : DurationType

-- `leave_requests`. Dates are midnights; times of day are seconds.
pub record LeaveRow : Type 0 where
  pub employee_id : ℕ
  pub created_by_employee_id : ℕ
  pub leave_type : LeaveType
  pub status : LeaveStatus
  pub duration_type : DurationType
  pub requested_minutes : ℕ
  pub start_time : Option ℕ
  pub end_time : Option ℕ
  pub start_date : Time
  pub end_date : Time
  pub reason : Option Text
  pub decision_note : Option Text
  pub decided_by_employee_id : Option ℕ
  pub decided_at : Option Time

-- `payout_request_status_enum`.
pub data PayoutStatus : Type 0 where
  pending approved rejected paid : PayoutStatus

-- `leave_payout_requests`. The schema's checks keep the hours positive and the year in 2000 to 2100.
pub record PayoutRow (Float : Type 0) : Type 0 where
  pub employee_id : ℕ
  pub created_by_employee_id : ℕ
  pub requested_hours : ℕ
  pub balance_year : ℕ
  pub hourly_rate : Float
  pub gross_amount : Float
  pub pay_period_start : Option Time
  pub status : PayoutStatus
  pub request_note : Option Text
  pub decision_note : Option Text
  pub decided_by_employee_id : Option ℕ
  pub paid_by_employee_id : Option ℕ
  pub decided_at : Option Time
  pub paid_at : Option Time

-- `leave_policies`, which has one row for a type at most.
pub record LeavePolicy : Type 0 where
  pub deducts_balance : Bool
  pub is_active : Bool

pub record LeaveDb (Float : Type 0) : Type 0 where
  pub employees : List ℕ
  pub policies : LeaveType → Option LeavePolicy
  pub leaves : Table LeaveRow
  pub payouts : Table (PayoutRow Float)

abbrev pub is_approved : LeaveStatus → Bool
is_approved approved = true
is_approved _ = false

abbrev pub is_pending_payout : PayoutStatus → Bool
is_pending_payout pending = true
is_pending_payout _ = false

-- `status IN ('approved', 'paid')`.
abbrev pub is_settled : PayoutStatus → Bool
is_settled approved = true
is_settled paid = true
is_settled _ = false

abbrev pub deducts : Option LeavePolicy → Bool
deducts none = false
deducts (some p) = p.deducts_balance

-- `start_date >= make_date(year, 1, 1) AND start_date < make_date(year + 1, 1, 1)`.
abbrev pub in_year : ℕ → Time → Bool
in_year year t =
    leb (days_before_year year * 86400) t && ltb t (days_before_year (year + 1) * 86400)

abbrev pub known : ℕ → List ℕ → Bool
known k [] = false
known k (j ∷ js) = (k == j) || known k js

-- A column that references an employee, and may be null.
abbrev pub is_known : Option ℕ → List ℕ → Bool
is_known none employees = true
is_known (some k) employees = known k employees

module _ {Float : Type 0} where
  -- What an approved leave takes from the balance.
  abbrev pub leave_share : LeaveDb Float → ℕ → ℕ → LeaveRow → ℕ
  leave_share db employee year r =
      if (r.employee_id == employee)
        && is_approved r.status
        && deducts (db.policies r.leave_type)
        && in_year year r.start_date
      then r.requested_minutes
      else 0

  abbrev pub payout_share : (PayoutStatus → Bool) → ℕ → ℕ → PayoutRow Float → ℕ
  payout_share test employee year r =
      if (r.employee_id == employee) && (r.balance_year == year) && test r.status
      then r.requested_hours * 60
      else 0

  -- Minutes of approved leave, of settled payouts, and of payouts that wait for a decision.
  unfoldable pub leave_used : LeaveDb Float → ℕ → ℕ → ℕ
  leave_used db employee year = sum_rows (leave_share db employee year) db.leaves

  unfoldable pub payout_used : LeaveDb Float → ℕ → ℕ → ℕ
  payout_used db employee year = sum_rows (payout_share is_settled employee year) db.payouts

  unfoldable pub reserved : LeaveDb Float → ℕ → ℕ → ℕ
  reserved db employee year = sum_rows (payout_share is_pending_payout employee year) db.payouts

  -- The minutes of a year's balance that are spent.
  abbrev pub settled : LeaveDb Float → ℕ → ℕ → ℕ
  settled db employee year = leave_used db employee year + payout_used db employee year

  -- The cast `::int`, and the product `requested_hours * 60` before it, fail where the sum is no
  -- int32: each product is at most the sum.
  abbrev checked : {E : Type 0} → ℕ → E → Action (LeaveDb Float) E ℕ
  checked n e db = one_row (if ltb n int32_half then some n else none) e db

  unfoldable pub compute_legal_leave_used_for_year :
      {E : Type 0} → ℕ → ℕ → E → Action (LeaveDb Float) E ℕ
  compute_legal_leave_used_for_year employee year e db =
      checked (leave_used db employee year + payout_used db employee year) e db

  unfoldable pub compute_reserved_payout_minutes_for_year :
      {E : Type 0} → ℕ → ℕ → E → Action (LeaveDb Float) E ℕ
  compute_reserved_payout_minutes_for_year employee year e db =
      checked (reserved db employee year) e db

  -- `LockEmployeeForLeaveBalance`.
  unfoldable pub lock_employee_for_leave_balance :
      {E : Type 0} → ℕ → E → Action (LeaveDb Float) E (Unit {0})
  lock_employee_for_leave_balance employee e db =
      one_row (if known employee db.employees then some tt else none) e db

-- ===== src/Leave/Service.antt =====
-- The operations of internal/service/leave_service.go that change leave requests. Notifications, logs
-- and listings are left out. The clock `now`, the key `fresh` that the database makes, the legal
-- leave of a year (`calculate_legal_leave_minutes`) and the contracts are arguments.
use hrbackend.Params.{uuid_nil, is_given}
use hrbackend.Prelude.{ℕ, Bool, true, false, not, ◌&&◌, ◌||◌, Option, [], ltb, ◌==◌, if◌then◌else◌}
use hrbackend.Prelude.Int.{ℤ, pos, ltb_ℤ, ◌-32◌}
use hrbackend.Prelude.GoText.{Text, codes, text_eq, trim_space}
use hrbackend.Prelude.Results.{Result, err}
use hrbackend.Time.{Time, date_only}
use hrbackend.Store.{pure, raise_if, one_row, ◌>>=◌, ◌>>◌, exec_tx}
use hrbackend.Balance.{
  LeaveType, LeaveStatus, pending, approved, rejected, full_day, hours, LeaveRow, LeavePolicy,
  compute_legal_leave_used_for_year, lock_employee_for_leave_balance,
}
use hrbackend.Leave.Queries.{
  LeaveFields, LeaveCall, leave_type_of, duration_type_of, year_of, lift,
  get_active_leave_policy_by_type, insert_leave_request, get_leave_request_for_update,
  update_leave_request_editable_fields, update_leave_request_decision,
}
use hrbackend.Leave.Updates.{UpdateLeaveParams, normalize_update_params}
use hrbackend.Leave.Minutes.{
  LeaveError, invalid_request, not_found, state_invalid, forbidden, balance_insufficient,
  duration_invalid, db_error, Contracts, calculate_full_day_minutes, calculate_hours_minutes,
}

pub record CreateLeaveParams : Type 0 where
  pub employee_id : ℕ
  pub created_by_employee_id : ℕ
  pub leave_type : Text
  pub duration_type : Text
  pub start_date : Time
  pub end_date : Time
  pub start_time : Option ℕ
  pub end_time : Option ℕ
  pub reason : Option Text

pub record DecideLeaveParams : Type 0 where
  pub decision : Text
  pub decision_note : Option Text

abbrev pub is_pending : LeaveStatus → Bool
is_pending pending = true
is_pending _ = false

abbrev pub is_rejected : LeaveStatus → Bool
is_rejected rejected = true
is_rejected _ = false

-- `calculateRequestedMinutes` and `calculateRequestedMinutesForUpdate`.
unfoldable pub calculate_requested_minutes : Contracts → ℕ → LeaveFields → Result LeaveError ℤ
calculate_requested_minutes contract_at employee f = elim f.duration_type [
  | full_day ↦
      if is_given f.start_time || is_given f.end_time
      then err duration_invalid
      else calculate_full_day_minutes contract_at employee f.start_date f.end_date
  | hours ↦
      if not (is_given f.start_time) || not (is_given f.end_time)
      then err duration_invalid
      else calculate_hours_minutes contract_at employee f.start_date f.end_date f.start_time
          f.end_time
]

module _ {Float : Type 0} (legal_total : ℕ → ℕ → Time → ℤ) (contract_at : Contracts) where
  -- The policy of a leave type, and for a type that deducts balance dates within one year.
  unfoldable pub check_policy : LeaveType → Time → Time → LeaveCall Float LeavePolicy
  check_policy t start end = do
    policy ← get_active_leave_policy_by_type t
    raise_if (policy.deducts_balance && not (year_of start == year_of end)) invalid_request
    pure policy

  -- `createLeaveRequest`, which the two operations share.
  unfoldable pub create_leave : ℕ → CreateLeaveParams → LeaveCall Float ℕ
  create_leave fresh p = do
    raise_if ((p.employee_id == uuid_nil) || (p.created_by_employee_id == uuid_nil)) invalid_request
    leave_type ← one_row (leave_type_of (trim_space p.leave_type)) invalid_request
    duration_type ← one_row (duration_type_of (trim_space p.duration_type)) invalid_request
    raise_if ((p.start_date == 0) || (p.end_date == 0)) invalid_request
    raise_if (ltb p.end_date p.start_date) invalid_request
    check_policy leave_type p.start_date p.end_date
    let fields : LeaveFields = record {
      leave_type = leave_type;
      duration_type = duration_type;
      start_date = p.start_date;
      end_date = p.end_date;
      start_time = p.start_time;
      end_time = p.end_time;
      reason = p.reason;
    }
    minutes ← lift (calculate_requested_minutes contract_at p.employee_id fields)
    insert_leave_request fresh p.employee_id p.created_by_employee_id fields minutes

  unfoldable pub create_leave_request : ℕ → ℕ → CreateLeaveParams → LeaveCall Float ℕ
  create_leave_request fresh actor p = do
    raise_if (actor == uuid_nil) invalid_request
    create_leave fresh (record p { employee_id = actor; created_by_employee_id = actor })

  unfoldable pub create_leave_request_by_admin : ℕ → ℕ → CreateLeaveParams → LeaveCall Float ℕ
  create_leave_request_by_admin fresh admin p = do
    raise_if ((admin == uuid_nil) || (p.employee_id == uuid_nil)) invalid_request
    create_leave fresh (record p { created_by_employee_id = admin })

  -- The part of the two updates behind their guards.
  unfoldable pub edit_leave :
      ℕ → LeaveRow → UpdateLeaveParams → Bool → Time → LeaveCall Float LeaveRow
  edit_leave id current u enforce_future_start now = do
    next ← lift (normalize_update_params current u enforce_future_start now)
    check_policy next.leave_type next.start_date next.end_date
    minutes ← lift (calculate_requested_minutes contract_at current.employee_id next)
    update_leave_request_editable_fields id next minutes

  unfoldable pub update_leave_request : ℕ → ℕ → UpdateLeaveParams → Time → LeaveCall Float LeaveRow
  update_leave_request actor id u now = do
    raise_if ((actor == uuid_nil) || (id == uuid_nil)) invalid_request
    exec_tx (do
      current ← get_leave_request_for_update id
      raise_if (not (current.employee_id == actor)) forbidden
      raise_if (not (is_pending current.status)) state_invalid
      raise_if (not (ltb (date_only now) (date_only current.start_date))) state_invalid
      edit_leave id current u true now)

  unfoldable pub update_leave_request_by_admin :
      ℕ → ℕ → UpdateLeaveParams → Text → Time → LeaveCall Float LeaveRow
  update_leave_request_by_admin admin id u remark now = do
    raise_if ((admin == uuid_nil) || (id == uuid_nil)) invalid_request
    raise_if (text_eq (trim_space remark) []) invalid_request
    exec_tx (do
      current ← get_leave_request_for_update id
      raise_if (not (is_pending current.status) && not (is_rejected current.status)) state_invalid
      edit_leave id current u false now)

  -- The checks of an approval: `legalCalculatedMinutes-legalUsedMinutes < requestedMinutes` in int32.
  unfoldable pub check_leave_balance : LeaveRow → Time → LeaveCall Float (Unit {0})
  check_leave_balance current now = do
    policy ← get_active_leave_policy_by_type current.leave_type
    (if not policy.deducts_balance then pure tt else (do
      raise_if (not (year_of current.start_date == year_of current.end_date)) invalid_request
      raise_if (not (ltb 0 current.requested_minutes)) invalid_request
      lock_employee_for_leave_balance current.employee_id not_found
      used ←
          compute_legal_leave_used_for_year current.employee_id (year_of current.start_date)
            db_error
      raise_if
          (ltb_ℤ (legal_total current.employee_id (year_of current.start_date) now -32 pos used)
            (pos current.requested_minutes))
          balance_insufficient))

  unfoldable pub decide_leave_request_by_admin :
      ℕ → ℕ → DecideLeaveParams → Time → LeaveCall Float LeaveRow
  decide_leave_request_by_admin admin id p now =
      let approve = text_eq (trim_space p.decision) (codes "approve") in
      let reject = text_eq (trim_space p.decision) (codes "reject") in
      do
        raise_if ((admin == uuid_nil) || (id == uuid_nil)) invalid_request
        raise_if (not approve && not reject) invalid_request
        exec_tx (do
          current ← get_leave_request_for_update id
          raise_if (not (is_pending current.status)) state_invalid
          (if approve then check_leave_balance current now else pure tt)
          update_leave_request_decision id (if approve then approved else rejected) p.decision_note
              admin now)

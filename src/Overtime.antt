-- ===== src/Overtime.antt =====
-- Overtime: internal/service/overtime_service.go over internal/repository/overtime_repo.go, with the
-- constraints of migrations/000001_init.up.sql. Notifications, logs, listings and monthly figures are
-- left out. `paid_period_id` is written by the closing of a pay period, which is no part of the
-- service. The clock `now` and the key `fresh` that the database makes are arguments.
pub mod Queries
pub mod Service
pub mod Reasons
pub mod Steps
pub mod Inverts
pub mod Lifecycle
pub mod Invariant
pub mod Descriptions
use hrbackend.Params.{coalesce, coalesce_null}
use hrbackend.Prelude.{
  ℕ, ◌+◌, Bool, true, false, not, ◌&&◌, ◌||◌, Option, none, some, List, [], ltb, if◌then◌else◌,
  ◌==◌,
}
use hrbackend.Prelude.Int.{ℤ, pos, pos_part, ltb_ℤ}
use hrbackend.Prelude.GoText.{Text, codes, text_eq, normalized, trim_space}
use hrbackend.Prelude.Results.{Result, ok, err}
use hrbackend.Time.{Time, date_only}
use hrbackend.Store.{Action, raise_if, one_row, gets, ◌>>=◌, ◌>>◌}
use hrbackend.Store.Table.{Table, select, update, insert, delete}
use hrbackend.Balance.{known}

-- The errors of internal/domain/overtime.go, and `db_error` for a query that the database refuses.
pub data OvertimeError : Type 0 where
  not_found forbidden invalid_request state_invalid db_error : OvertimeError

-- `overtime_status_enum` and `overtime_reason_enum`.
pub data OvertimeStatus : Type 0 where
  submitted approved rejected : OvertimeStatus

pub data OvertimeReason : Type 0 where
  client_crisis understaffing meeting_consultation training_education completing_administration :
      OvertimeReason
  handover emergency project_work event_activity other : OvertimeReason

-- `overtime_entries`, less the stamps that no rule reads.
pub record OvertimeRow : Type 0 where
  pub employee_id : ℕ
  pub schedule_id : Option ℕ
  pub entry_date : Time
  pub minutes : ℕ
  pub reason : OvertimeReason
  pub description : Option Text
  pub status : OvertimeStatus
  pub approved_at : Option Time
  pub approved_by_employee_id : Option ℕ
  pub rejection_reason : Option Text
  pub paid_period_id : Option ℕ

-- The tables that the calls read and change: a schedule is the employee it belongs to.
pub record OvertimeDb : Type 0 where
  pub employees : List ℕ
  pub schedules : Table ℕ
  pub entries : Table OvertimeRow

abbrev pub OvertimeCall : Type 0 → Type 0
OvertimeCall A = Action OvertimeDb OvertimeError A

pub record CreateOvertimeParams : Type 0 where
  pub employee_id : ℕ
  pub schedule_id : Option ℕ
  pub entry_date : Time
  pub minutes : ℤ
  pub reason : Text
  pub description : Option Text

pub record DecideOvertimeParams : Type 0 where
  pub decision : Text
  pub rejection_reason : Option Text

pub record UpdateOvertimeParams : Type 0 where
  pub schedule_id : Option ℕ
  pub entry_date : Option Time
  pub minutes : Option ℤ
  pub reason : Option Text
  pub description : Option Text

-- `isValidOvertimeReason` and `toDBOvertimeReason`.
unfoldable pub overtime_reason_of : Text → Option OvertimeReason
overtime_reason_of value =
    let t = normalized value in
    if text_eq t (codes "client_crisis")
    then some client_crisis
    else if text_eq t (codes "understaffing")
    then some understaffing
    else if text_eq t (codes "meeting_consultation")
    then some meeting_consultation
    else if text_eq t (codes "training_education")
    then some training_education
    else if text_eq t (codes "completing_administration")
    then some completing_administration
    else if text_eq t (codes "handover")
    then some handover
    else if text_eq t (codes "emergency")
    then some emergency
    else if text_eq t (codes "project_work")
    then some project_work
    else if text_eq t (codes "event_activity")
    then some event_activity
    else if text_eq t (codes "other")
    then some other
    else none

-- `trimOvertimeStringPtr`.
abbrev pub trim_overtime_string_ptr : Option Text → Option Text
trim_overtime_string_ptr none = none
trim_overtime_string_ptr (some t) = if text_eq (trim_space t) [] then none else some (trim_space t)

abbrev pub is_submitted : OvertimeStatus → Bool
is_submitted submitted = true
is_submitted _ = false

-- The fields of an entry that a call may write.
pub record NewEntry : Type 0 where
  pub employee_id : ℕ
  pub schedule_id : Option ℕ
  pub entry_date : Time
  pub minutes : ℤ
  pub reason : OvertimeReason
  pub description : Option Text

pub record EntryChanges : Type 0 where
  pub schedule_id : Option ℕ
  pub entry_date : Option Time
  pub minutes : Option ℤ
  pub reason : Option OvertimeReason
  pub description : Option Text

-- The row that `CreateOvertimeEntry` inserts.
abbrev pub submitted_as : NewEntry → OvertimeRow
submitted_as n = record {
  employee_id = n.employee_id;
  schedule_id = n.schedule_id;
  entry_date = date_only n.entry_date;
  minutes = pos_part n.minutes;
  reason = n.reason;
  description = n.description;
  status = submitted;
  approved_at = none;
  approved_by_employee_id = none;
  rejection_reason = none;
  paid_period_id = none;
}

-- The rows that `ApproveOvertimeEntry`, `RejectOvertimeEntry` and `UpdateOvertimeEntryByAdmin` write.
abbrev pub approved_as : ℕ → Time → OvertimeRow → OvertimeRow
approved_as admin now r = record r {
  status = approved;
  approved_at = some now;
  approved_by_employee_id = some admin;
  rejection_reason = none;
}

abbrev pub rejected_as : Option Text → OvertimeRow → OvertimeRow
rejected_as why r = record r {
  status = rejected;
  rejection_reason = why;
  approved_at = none;
  approved_by_employee_id = none;
}

abbrev pub positive : ℤ → Bool
positive m = ltb_ℤ (pos 0) m

abbrev pub changed_as : EntryChanges → OvertimeRow → OvertimeRow
changed_as c r = record r {
  schedule_id = coalesce_null c.schedule_id r.schedule_id;
  entry_date = coalesce c.entry_date r.entry_date;
  minutes = (elim c.minutes [ none ↦ r.minutes | some m ↦ pos_part m ]);
  reason = coalesce c.reason r.reason;
  description = coalesce_null c.description r.description;
}

-- ===== src/Leave/Queries.antt =====
-- The leave requests in the database: internal/repository/leave_repo.go over
-- internal/repository/db/query/leave_request.sql and leave_policy.sql, with the constraints of
-- migrations/000001_init.up.sql.
use hrbackend.Prelude.{
  ℕ, ◌*◌, ◌/◌, ◌%◌, Bool, true, false, not, ◌&&◌, ◌||◌, Option, none, some, ltb, leb, ◌==◌,
  if◌then◌else◌,
}
use hrbackend.Prelude.Int.{ℤ, pos_part}
use hrbackend.Prelude.GoText.{Text, codes, text_eq}
use hrbackend.Prelude.Results.{Result, ok, err}
use hrbackend.Time.{Time, date_only, day_of}
use hrbackend.Time.Calendar.{year_day}
use hrbackend.Store.{Action, raise_if, one_row, gets, ◌>>=◌, ◌>>◌}
use hrbackend.Store.Table.{select, update, insert}
use hrbackend.Balance.{
  LeaveType, vacation, personal, sick, pregnancy, unpaid, other, LeaveStatus, pending, DurationType,
  full_day, hours, LeaveRow, LeavePolicy, LeaveDb, known, is_known,
}
use hrbackend.Leave.Minutes.{LeaveError, invalid_request, not_found, db_error}

-- `isValidLeaveType` and `toDBLeaveType`, on a text without spaces around it.
unfoldable pub leave_type_of : Text → Option LeaveType
leave_type_of t =
    if text_eq t (codes "vacation")
    then some vacation
    else if text_eq t (codes "personal")
    then some personal
    else if text_eq t (codes "sick")
    then some sick
    else if text_eq t (codes "pregnancy")
    then some pregnancy
    else if text_eq t (codes "unpaid")
    then some unpaid
    else if text_eq t (codes "other")
    then some other
    else none

-- `isValidLeaveDurationType` and `toDBLeaveDurationType`.
unfoldable pub duration_type_of : Text → Option DurationType
duration_type_of t =
    if text_eq t (codes "full_day")
    then some full_day
    else if text_eq t (codes "hours")
    then some hours
    else none

-- `t.Year()`.
abbrev pub year_of : Time → ℕ
year_of t = (year_day (day_of t)).year

-- `timePtrFromPgTime`, which drops the seconds, and `pgTimeFromTimePtr`.
abbrev pub time_ptr_from_pg_time : Option ℕ → Option ℕ
time_ptr_from_pg_time none = none
time_ptr_from_pg_time (some t) = some (t / 60 * 60)

abbrev pub pg_time_from_time_ptr : Option ℕ → Option ℕ
pg_time_from_time_ptr none = none
pg_time_from_time_ptr (some t) = some (t % 86400)

-- `leave_requests_duration_fields_valid`.
abbrev pub duration_fields_valid : DurationType → Time → Time → Option ℕ → Option ℕ → Bool
duration_fields_valid full_day start_date end_date none none = true
duration_fields_valid full_day start_date end_date none (some e) = false
duration_fields_valid full_day start_date end_date (some s) e = false
duration_fields_valid hours start_date end_date none e = false
duration_fields_valid hours start_date end_date (some s) none = false
duration_fields_valid hours start_date end_date (some s) (some e) =
    (start_date == end_date) && ltb s e

-- The constraints of `leave_requests`.
abbrev pub row_valid : LeaveRow → Bool
row_valid r =
    leb r.start_date r.end_date
    && duration_fields_valid r.duration_type r.start_date r.end_date r.start_time r.end_time
    && ltb 0 r.requested_minutes

-- What a request asks for.
pub record LeaveFields : Type 0 where
  pub leave_type : LeaveType
  pub duration_type : DurationType
  pub start_date : Time
  pub end_date : Time
  pub start_time : Option ℕ
  pub end_time : Option ℕ
  pub reason : Option Text

abbrev pub LeaveCall : Type 0 → Type 0 → Type 0
LeaveCall Float A = Action (LeaveDb Float) LeaveError A

-- The row that `CreateLeaveRequest` inserts.
abbrev pub requested_as : ℕ → ℕ → LeaveFields → ℤ → LeaveRow
requested_as employee created_by f minutes = record {
  employee_id = employee;
  created_by_employee_id = created_by;
  leave_type = f.leave_type;
  status = pending;
  duration_type = f.duration_type;
  requested_minutes = pos_part minutes;
  start_time = pg_time_from_time_ptr f.start_time;
  end_time = pg_time_from_time_ptr f.end_time;
  start_date = date_only f.start_date;
  end_date = date_only f.end_date;
  reason = f.reason;
  decision_note = none;
  decided_by_employee_id = none;
  decided_at = none;
}

-- The row that `UpdateLeaveRequestEditableFields` writes.
abbrev pub edited_as : LeaveFields → ℤ → LeaveRow → LeaveRow
edited_as f minutes r = record r {
  leave_type = f.leave_type;
  duration_type = f.duration_type;
  start_date = date_only f.start_date;
  end_date = date_only f.end_date;
  requested_minutes = pos_part minutes;
  start_time = pg_time_from_time_ptr f.start_time;
  end_time = pg_time_from_time_ptr f.end_time;
  reason = (elim f.reason [ none ↦ r.reason | some t ↦ some t ]);
}

-- The row that `UpdateLeaveRequestDecision` writes.
abbrev pub leave_decided_as : LeaveStatus → Option Text → ℕ → Time → LeaveRow → LeaveRow
leave_decided_as s remark admin now r = record r {
  status = s;
  decision_note = remark;
  decided_by_employee_id = some admin;
  decided_at = some now;
}

-- `toDomainLeaveRequest`: a row as the service sees it, its times of day without seconds.
abbrev pub as_read : LeaveRow → LeaveRow
as_read r = record r {
  start_time = time_ptr_from_pg_time r.start_time;
  end_time = time_ptr_from_pg_time r.end_time;
}

module _ {Float : Type 0} where
  -- A pure result as a call.
  abbrev pub lift : {A : Type 0} → Result LeaveError A → LeaveCall Float A
  lift r db = (r, db)

  -- `GetActiveLeavePolicyByType`.
  unfoldable pub get_active_leave_policy_by_type : LeaveType → LeaveCall Float LeavePolicy
  get_active_leave_policy_by_type t db =
      one_row (elim (db.policies t) [ none ↦ none | some p ↦ if p.is_active then some p else none ])
        invalid_request db

  -- `CreateLeaveRequest` of the repository.
  unfoldable pub insert_leave_request : ℕ → ℕ → ℕ → LeaveFields → ℤ → LeaveCall Float ℕ
  insert_leave_request fresh employee created_by f minutes = do
    employees ← gets (λ db. db.employees)
    leaves ← gets (λ db. db.leaves)
    raise_if
        (not (row_valid (requested_as employee created_by f minutes))
          || not (known employee employees)
          || not (known created_by employees))
        db_error
    (λ db. elim (select fresh leaves) [
      | some r ↦ (err db_error, db)
      | none ↦ (
        ok fresh,
        record db { leaves = insert fresh (requested_as employee created_by f minutes) db.leaves },
      )
    ])

  -- `GetLeaveRequestForUpdate`.
  unfoldable pub get_leave_request_for_update : ℕ → LeaveCall Float LeaveRow
  get_leave_request_for_update id db = elim (select id db.leaves) [
    | none ↦ (err not_found, db)
    | some r ↦ (ok (as_read r), db)
  ]

  -- An update of a row that has constraints to meet, and may write the key of an employee.
  unfoldable pub update_leave : ℕ → Option ℕ → (LeaveRow → LeaveRow) → LeaveCall Float LeaveRow
  update_leave id key f = do
    leaves ← gets (λ db. db.leaves)
    r ← one_row (select id leaves) not_found
    employees ← gets (λ db. db.employees)
    raise_if (not (row_valid (f r)) || not (is_known key employees)) db_error
    (λ db. (ok (f r), record db { leaves = update id f db.leaves }))

  unfoldable pub update_leave_request_editable_fields :
      ℕ → LeaveFields → ℤ → LeaveCall Float LeaveRow
  update_leave_request_editable_fields id f minutes = update_leave id none (edited_as f minutes)

  unfoldable pub update_leave_request_decision :
      ℕ → LeaveStatus → Option Text → ℕ → Time → LeaveCall Float LeaveRow
  update_leave_request_decision id s remark admin now =
      update_leave id (some admin) (leave_decided_as s remark admin now)

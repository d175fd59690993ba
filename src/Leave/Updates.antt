-- ===== src/Leave/Updates.antt =====
-- `normalizeUpdateParams` of internal/service/leave_service.go: what an update asks for, over what the
-- request has.
use hrbackend.Params.{is_given, coalesce, coalesce_null, trimmed, midnight_of}
use hrbackend.Prelude.{
  ℕ, Bool, true, false, not, ◌&&◌, ◌||◌, Option, none, some, ltb, if◌then◌else◌,
}
use hrbackend.Prelude.GoText.{Text, trim_space}
use hrbackend.Prelude.Results.{Result, ok, err}
use hrbackend.Time.{Time, date_only}
use hrbackend.Balance.{LeaveRow}
use hrbackend.Leave.Queries.{LeaveFields, leave_type_of, duration_type_of}
use hrbackend.Leave.Minutes.{LeaveError, invalid_request, state_invalid}

-- `domain.UpdateLeaveRequestParams`, less the minutes, which the service fills in.
pub record UpdateLeaveParams : Type 0 where
  pub leave_type : Option Text
  pub duration_type : Option Text
  pub start_date : Option Time
  pub end_date : Option Time
  pub start_time : Option ℕ
  pub end_time : Option ℕ
  pub reason : Option Text

-- The parsed value of a text that is given, the current one of a text that is not.
abbrev pub parsed_or : {A : Type 0} → (Text → Option A) → Option Text → A → Result LeaveError A
parsed_or parse none current = ok current
parsed_or parse (some t) current = elim (parse (trim_space t)) [
  | none ↦ err invalid_request
  | some a ↦ ok a
]

abbrev pub fail : {A : Type 0} → Bool → LeaveError → Result LeaveError A → Result LeaveError A
fail true e r = err e
fail false e r = r

abbrev pub has_updates : UpdateLeaveParams → Bool
has_updates u =
    is_given u.leave_type
    || is_given u.duration_type
    || is_given u.start_date
    || is_given u.end_date
    || is_given u.start_time
    || is_given u.end_time
    || is_given u.reason

unfoldable pub normalize_update_params :
    LeaveRow → UpdateLeaveParams → Bool → Time → Result LeaveError LeaveFields
normalize_update_params current u enforce_future_start now =
    let start_date = coalesce (midnight_of u.start_date) (date_only current.start_date) in
    let end_date = coalesce (midnight_of u.end_date) (date_only current.end_date) in
    elim (parsed_or leave_type_of u.leave_type current.leave_type) [
      | err e ↦ err e
      | ok leave_type ↦ elim (parsed_or duration_type_of u.duration_type current.duration_type) [
        | err e ↦ err e
        | ok duration_type ↦ fail (not (has_updates u)) invalid_request (
            fail (ltb end_date start_date) invalid_request (
              fail (enforce_future_start && not (ltb (date_only now) start_date)) state_invalid (
                ok (record {
                  leave_type = leave_type;
                  duration_type = duration_type;
                  start_date = start_date;
                  end_date = end_date;
                  start_time =
                      (if is_given u.duration_type
                        then u.start_time
                        else coalesce_null u.start_time current.start_time);
                  end_time =
                      (if is_given u.duration_type
                        then u.end_time
                        else coalesce_null u.end_time current.end_time);
                  reason = coalesce_null (trimmed u.reason) current.reason;
                }))))
      ]
    ]

-- ===== src/Overtime/Service.antt =====
-- The operations of internal/service/overtime_service.go that change overtime entries.
use hrbackend.Params.{uuid_nil, is_given, midnight_of}
use hrbackend.Prelude.{ℕ, false, not, ◌&&◌, ◌||◌, Option, none, some, if◌then◌else◌, ◌==◌}
use hrbackend.Prelude.GoText.{Text, codes, text_eq, normalized}
use hrbackend.Prelude.Results.{ok, err}
use hrbackend.Time.{Time}
use hrbackend.Store.{pure, raise_if, one_row, ◌>>=◌, ◌>>◌, exec_tx}
use hrbackend.Overtime.{
  invalid_request, forbidden, state_invalid, OvertimeReason, OvertimeRow, OvertimeCall,
  CreateOvertimeParams, DecideOvertimeParams, UpdateOvertimeParams, NewEntry, EntryChanges,
  overtime_reason_of, trim_overtime_string_ptr, is_submitted, positive,
}
use hrbackend.Overtime.Queries.{
  insert_overtime_entry, get_overtime_entry_for_update, approve_overtime_entry,
  reject_overtime_entry, write_overtime_changes, delete_overtime_entry,
}

-- `normalizeCreateOvertimeEntryParams`.
unfoldable pub normalize_create : CreateOvertimeParams → OvertimeCall NewEntry
normalize_create p = do
  raise_if (p.employee_id == uuid_nil) invalid_request
  raise_if (p.entry_date == 0) invalid_request
  raise_if (not (positive p.minutes)) invalid_request
  reason ← one_row (overtime_reason_of (normalized p.reason)) invalid_request
  pure (record {
    employee_id = p.employee_id;
    schedule_id = p.schedule_id;
    entry_date = p.entry_date;
    minutes = p.minutes;
    reason = reason;
    description = p.description;
  })

-- The reason that an update asks for.
abbrev pub changed_reason : Option Text → OvertimeCall (Option OvertimeReason)
changed_reason none db = (ok none, db)
changed_reason (some t) db = elim (overtime_reason_of (normalized t)) [
  | none ↦ (err invalid_request, db)
  | some r ↦ (ok (some r), db)
]

-- `normalizeUpdateOvertimeEntryParams`.
unfoldable pub normalize_update : UpdateOvertimeParams → OvertimeCall EntryChanges
normalize_update p = do
  raise_if
      (not (
        is_given p.schedule_id
        || is_given p.entry_date
        || is_given p.minutes
        || is_given p.reason
        || is_given p.description))
      invalid_request
  raise_if (elim p.minutes [ none ↦ false | some m ↦ not (positive m) ]) invalid_request
  reason ← changed_reason p.reason
  pure (record {
    schedule_id = p.schedule_id;
    entry_date = midnight_of p.entry_date;
    minutes = p.minutes;
    reason = reason;
    description = trim_overtime_string_ptr p.description;
  })

-- `createOvertimeEntry`, which the two operations share.
unfoldable pub create_normalized : ℕ → CreateOvertimeParams → OvertimeCall ℕ
create_normalized fresh p = do n ← normalize_create p; insert_overtime_entry fresh n

unfoldable pub create_overtime_entry : ℕ → ℕ → CreateOvertimeParams → OvertimeCall ℕ
create_overtime_entry fresh actor p = do
  raise_if (actor == uuid_nil) invalid_request
  create_normalized fresh (record p { employee_id = actor })

unfoldable pub create_overtime_entry_by_admin : ℕ → ℕ → CreateOvertimeParams → OvertimeCall ℕ
create_overtime_entry_by_admin fresh admin p = do
  raise_if (admin == uuid_nil) invalid_request
  raise_if (p.employee_id == uuid_nil) invalid_request
  create_normalized fresh p

unfoldable pub decide_overtime_entry_by_admin :
    ℕ → ℕ → DecideOvertimeParams → Time → OvertimeCall OvertimeRow
decide_overtime_entry_by_admin admin id p now =
    let approve = text_eq (normalized p.decision) (codes "approve") in
    let reject = text_eq (normalized p.decision) (codes "reject") in
    let why = trim_overtime_string_ptr p.rejection_reason in
    do
      raise_if ((admin == uuid_nil) || (id == uuid_nil)) invalid_request
      raise_if (not approve && not reject) invalid_request
      raise_if (reject && not (is_given why)) invalid_request
      exec_tx (do
        current ← get_overtime_entry_for_update id
        raise_if (not (is_submitted current.status)) state_invalid
        (if approve then approve_overtime_entry id admin now else reject_overtime_entry id why))

-- The part of the two updates behind their guards.
unfoldable pub change_entry : ℕ → ℕ → UpdateOvertimeParams → OvertimeCall OvertimeRow
change_entry id employee p = do c ← normalize_update p; write_overtime_changes id employee c

unfoldable pub update_overtime_entry_by_admin :
    ℕ → ℕ → UpdateOvertimeParams → OvertimeCall OvertimeRow
update_overtime_entry_by_admin admin id p = do
  raise_if ((admin == uuid_nil) || (id == uuid_nil)) invalid_request
  exec_tx (do
    current ← get_overtime_entry_for_update id
    raise_if (is_given current.paid_period_id) state_invalid
    change_entry id current.employee_id p)

unfoldable pub update_my_overtime_entry : ℕ → ℕ → UpdateOvertimeParams → OvertimeCall OvertimeRow
update_my_overtime_entry actor id p = do
  raise_if ((actor == uuid_nil) || (id == uuid_nil)) invalid_request
  exec_tx (do
    current ← get_overtime_entry_for_update id
    raise_if (not (current.employee_id == actor)) forbidden
    raise_if (not (is_submitted current.status) || is_given current.paid_period_id) state_invalid
    change_entry id current.employee_id p)

unfoldable pub delete_overtime_entry_by_admin : ℕ → ℕ → OvertimeCall (Unit {0})
delete_overtime_entry_by_admin admin id = do
  raise_if ((admin == uuid_nil) || (id == uuid_nil)) invalid_request
  exec_tx (do
    current ← get_overtime_entry_for_update id
    raise_if (is_given current.paid_period_id) state_invalid
    delete_overtime_entry id)

unfoldable pub delete_my_overtime_entry : ℕ → ℕ → OvertimeCall (Unit {0})
delete_my_overtime_entry actor id = do
  raise_if ((actor == uuid_nil) || (id == uuid_nil)) invalid_request
  exec_tx (do
    current ← get_overtime_entry_for_update id
    raise_if (not (current.employee_id == actor)) forbidden
    raise_if (not (is_submitted current.status) || is_given current.paid_period_id) state_invalid
    delete_overtime_entry id)

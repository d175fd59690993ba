-- ===== src/Overtime/Queries.antt =====
-- The overtime entries in the database: internal/repository/overtime_repo.go over
-- internal/repository/db/query/overtime.sql.
use hrbackend.Prelude.{ℕ, false, not, ◌||◌, Option, none, some, if◌then◌else◌, ◌==◌}
use hrbackend.Prelude.GoText.{Text}
use hrbackend.Prelude.Results.{ok, err}
use hrbackend.Time.{Time}
use hrbackend.Store.{raise_if, one_row, gets, ◌>>=◌, ◌>>◌}
use hrbackend.Store.Table.{select, update, insert, delete}
use hrbackend.Balance.{known}
use hrbackend.Overtime.{
  EntryChanges, NewEntry, OvertimeCall, OvertimeRow, approved_as, changed_as, positive, rejected_as,
  submitted_as, not_found, invalid_request, db_error,
}

-- The check on the schedule that an entry names: it is there, and it is the employee's.
unfoldable pub check_schedule : Option ℕ → ℕ → OvertimeCall (Unit {0})
check_schedule none employee db = (ok tt, db)
check_schedule (some s) employee db = elim (select s db.schedules) [
  | none ↦ (err invalid_request, db)
  | some owner ↦ if owner == employee then (ok tt, db) else (err invalid_request, db)
]

-- `CreateOvertimeEntry` of the repository.
unfoldable pub insert_overtime_entry : ℕ → NewEntry → OvertimeCall ℕ
insert_overtime_entry fresh n = do
  check_schedule n.schedule_id n.employee_id
  employees ← gets (λ db. db.employees)
  raise_if (not (positive n.minutes) || not (known n.employee_id employees)) db_error
  (λ db. elim (select fresh db.entries) [
    | some r ↦ (err db_error, db)
    | none ↦ (ok fresh, record db { entries = insert fresh (submitted_as n) db.entries })
  ])

unfoldable pub get_overtime_entry_for_update : ℕ → OvertimeCall OvertimeRow
get_overtime_entry_for_update id db = one_row (select id db.entries) not_found db

-- An `UPDATE … WHERE id = … RETURNING …` of an entry.
unfoldable pub update_entry : ℕ → (OvertimeRow → OvertimeRow) → OvertimeCall OvertimeRow
update_entry id f db = elim (select id db.entries) [
  | none ↦ (err not_found, db)
  | some r ↦ (ok (f r), record db { entries = update id f db.entries })
]

unfoldable pub approve_overtime_entry : ℕ → ℕ → Time → OvertimeCall OvertimeRow
approve_overtime_entry id admin now = do
  employees ← gets (λ db. db.employees)
  raise_if (not (known admin employees)) db_error
  update_entry id (approved_as admin now)

unfoldable pub reject_overtime_entry : ℕ → Option Text → OvertimeCall OvertimeRow
reject_overtime_entry id why = update_entry id (rejected_as why)

-- The transaction repository's `UpdateOvertimeEntryByAdmin`: minutes that are not positive break the
-- table's constraint.
unfoldable pub write_overtime_changes : ℕ → ℕ → EntryChanges → OvertimeCall OvertimeRow
write_overtime_changes id employee c = do
  check_schedule c.schedule_id employee
  raise_if (elim c.minutes [ none ↦ false | some m ↦ not (positive m) ]) db_error
  update_entry id (changed_as c)

unfoldable pub delete_overtime_entry : ℕ → OvertimeCall (Unit {0})
delete_overtime_entry id db = elim (select id db.entries) [
  | none ↦ (err not_found, db)
  | some r ↦ (ok tt, record db { entries = delete id db.entries })
]

-- ===== src/Overtime/Descriptions.antt =====
-- The description of an overtime entry: `UpdateOvertimeEntryByAdmin` of
-- internal/service/overtime_service.go over the query of the same name.
use hrbackend.Params.{uuid_nil}
use hrbackend.Prelude.{ℕ, ◌≡◌, ◌≢◌, none, some, [], arith}
use hrbackend.Prelude.GoText.{Text, text_eq, trim_space}
use hrbackend.Prelude.Results.{ok}
use hrbackend.Store.{exec_tx}
use hrbackend.Store.Table.{select, select-update_self}
use hrbackend.Overtime.{OvertimeRow, OvertimeDb, EntryChanges, changed_as}
use hrbackend.Overtime.Queries.{
  check_schedule, get_overtime_entry_for_update, update_entry, write_overtime_changes,
}
use hrbackend.Overtime.Service.{normalize_update, change_entry, update_overtime_entry_by_admin}

-- An administrator cannot clear the description of an overtime entry: an update with nothing but a
-- blank description, of an entry that is not paid, succeeds, and leaves the entry as it was, its old
-- description included. Condition: neither key is nil.
pub blank_description_ignored :
    (admin id : ℕ) (blank : Text) (db : OvertimeDb) (r : OvertimeRow)
    → admin ≢ uuid_nil
    → id ≢ uuid_nil
    → select id db.entries ≡ some r
    → r.paid_period_id ≡ none
    → trim_space blank ≡ []
    → ((update_overtime_entry_by_admin admin id
          (record {
            schedule_id = none;
            entry_date = none;
            minutes = none;
            reason = none;
            description = some blank;
          })
          db).0
        ≡ ok r)
      × (select id
            (update_overtime_entry_by_admin admin id
              (record {
                schedule_id = none;
                entry_date = none;
                minutes = none;
                reason = none;
                description = some blank;
              })
              db).1.entries
          ≡ some r)
unfolding update_overtime_entry_by_admin exec_tx get_overtime_entry_for_update change_entry
    normalize_update write_overtime_changes check_schedule update_entry text_eq
blank_description_ignored admin id blank db r ha hi hs unpaid hb =
    let same : EntryChanges = record {
      schedule_id = none;
      entry_date = none;
      minutes = none;
      reason = none;
      description = none;
    } in
    let kept = select-update_self id (changed_as same) db.entries r hs in
    (ground arith, ground (arith, kept))

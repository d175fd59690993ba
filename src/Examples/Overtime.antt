-- ===== src/Examples/Overtime.antt =====
-- An overtime entry of one employee, through internal/service/overtime_service.go.
use hrbackend.Prelude.{◌*◌, ◌≡◌, refl, none, some, [], ◌∷◌, arith}
use hrbackend.Prelude.Int.{pos}
use hrbackend.Prelude.GoText.{codes, trim_space}
use hrbackend.Prelude.Results.{ok}
use hrbackend.Time.{Time}
use hrbackend.Store.Table.{select}
use hrbackend.Overtime.{
  submitted, emergency, OvertimeRow, OvertimeDb, CreateOvertimeParams, DecideOvertimeParams,
  UpdateOvertimeParams,
}
use hrbackend.Overtime.Service.{update_overtime_entry_by_admin}
use hrbackend.Overtime.Lifecycle.{create, decide, delete_own, perform}
use hrbackend.Overtime.Invariant.{
  IsSound, Continues, perform_all, overtime_calls-IsSound, overtime_call-Continues,
}
use hrbackend.Overtime.Descriptions.{blank_description_ignored}

abbrev now : Time
now = 739931 * 86400

abbrev entry : OvertimeRow
entry = record {
  employee_id = 7;
  schedule_id = some 3;
  entry_date = now;
  minutes = 45;
  reason = emergency;
  description = some (codes "handover ran late");
  status = submitted;
  approved_at = none;
  approved_by_employee_id = none;
  rejection_reason = none;
  paid_period_id = none;
}

abbrev db : OvertimeDb
db = record { employees = 7 ∷ 9 ∷ []; schedules = (3, 7) ∷ []; entries = (1, entry) ∷ [] }

abbrev new_entry : CreateOvertimeParams
new_entry = record {
  employee_id = 7;
  schedule_id = none;
  entry_date = now;
  minutes = pos 30;
  reason = codes "Emergency";
  description = none;
}

abbrev rejection : DecideOvertimeParams
rejection = record { decision = codes "reject"; rejection_reason = some (codes "not agreed") }

abbrev blank_description : UpdateOvertimeParams
blank_description = record {
  schedule_id = none;
  entry_date = none;
  minutes = none;
  reason = none;
  description = some (codes "  ");
}

db-IsSound : IsSound db
unfolding select
db-IsSound = ((tt, tt), ((ground arith, refl, (refl, refl, refl)), tt))

overtime_calls-IsSound_example : IsSound (
    perform_all
      ((now, create 2 7 new_entry) ∷ (now, decide 9 1 rejection) ∷ (now, delete_own 7 2) ∷ [])
      db)
overtime_calls-IsSound_example =
    overtime_calls-IsSound
      ((now, create 2 7 new_entry) ∷ (now, decide 9 1 rejection) ∷ (now, delete_own 7 2) ∷ []) db
      db-IsSound

overtime_call-Continues_example :
    Continues entry (select 1 (perform now (decide 9 1 rejection) db).entries)
unfolding select
overtime_call-Continues_example =
    overtime_call-Continues now (decide 9 1 rejection) db 1 entry db-IsSound refl

blank_description_ignored_example :
    ((update_overtime_entry_by_admin 9 1 blank_description db).0 ≡ ok entry)
    × (select 1 (update_overtime_entry_by_admin 9 1 blank_description db).1.entries ≡ some entry)
unfolding select trim_space
blank_description_ignored_example =
    blank_description_ignored 9 1 (codes "  ") db entry (ground arith) (ground arith) refl refl refl

-- ===== src/Overtime/Lifecycle.antt =====
-- The life of an overtime entry under the operations of internal/service/overtime_service.go, failing
-- ones included.
use hrbackend.Prelude.{ℕ, refl, arith}
use hrbackend.Time.{Time}
use hrbackend.Store.{IsAtomic, atomic_cases, exec_tx}
use hrbackend.Overtime.{
  OvertimeDb, CreateOvertimeParams, DecideOvertimeParams, UpdateOvertimeParams,
}
use hrbackend.Overtime.Service.{
  create_overtime_entry, create_overtime_entry_by_admin, decide_overtime_entry_by_admin,
  update_overtime_entry_by_admin, update_my_overtime_entry, delete_overtime_entry_by_admin,
  delete_my_overtime_entry,
}
use hrbackend.Overtime.Steps.{OvertimeStep, idle}
use hrbackend.Overtime.Inverts.{
  create_overtime_entry_step, create_overtime_entry_by_admin_step,
  decide_overtime_entry_by_admin_step, update_overtime_entry_by_admin_step,
  update_my_overtime_entry_step, delete_overtime_entry_by_admin_step, delete_my_overtime_entry_step,
  create_overtime_entry-IsAtomic, create_overtime_entry_by_admin-IsAtomic,
}

-- A call of the service, with the key that the database would make for a new row.
pub data OvertimeRequest : Type 0 where
  create : ℕ → ℕ → CreateOvertimeParams → OvertimeRequest
  create_by_admin : ℕ → ℕ → CreateOvertimeParams → OvertimeRequest
  decide : ℕ → ℕ → DecideOvertimeParams → OvertimeRequest
  change_by_admin : ℕ → ℕ → UpdateOvertimeParams → OvertimeRequest
  change_own : ℕ → ℕ → UpdateOvertimeParams → OvertimeRequest
  delete_by_admin : ℕ → ℕ → OvertimeRequest
  delete_own : ℕ → ℕ → OvertimeRequest

-- The database after a call.
unfoldable pub perform : Time → OvertimeRequest → OvertimeDb → OvertimeDb
perform now (create fresh actor p) db = (create_overtime_entry fresh actor p db).1
perform now (create_by_admin fresh admin p) db = (create_overtime_entry_by_admin fresh admin p db).1
perform now (decide admin id p) db = (decide_overtime_entry_by_admin admin id p now db).1
perform now (change_by_admin admin id p) db = (update_overtime_entry_by_admin admin id p db).1
perform now (change_own actor id p) db = (update_my_overtime_entry actor id p db).1
perform now (delete_by_admin admin id) db = (delete_overtime_entry_by_admin admin id db).1
perform now (delete_own actor id) db = (delete_my_overtime_entry actor id db).1

update_overtime_entry_by_admin-IsAtomic :
    (admin id : ℕ) (p : UpdateOvertimeParams) → IsAtomic (update_overtime_entry_by_admin admin id p)
unfolding update_overtime_entry_by_admin exec_tx
update_overtime_entry_by_admin-IsAtomic admin id p db e h = ground arith

update_my_overtime_entry-IsAtomic :
    (actor id : ℕ) (p : UpdateOvertimeParams) → IsAtomic (update_my_overtime_entry actor id p)
unfolding update_my_overtime_entry exec_tx
update_my_overtime_entry-IsAtomic actor id p db e h = ground arith

delete_overtime_entry_by_admin-IsAtomic :
    (admin id : ℕ) → IsAtomic (delete_overtime_entry_by_admin admin id)
unfolding delete_overtime_entry_by_admin exec_tx
delete_overtime_entry_by_admin-IsAtomic admin id db e h = ground arith

delete_my_overtime_entry-IsAtomic : (actor id : ℕ) → IsAtomic (delete_my_overtime_entry actor id)
unfolding delete_my_overtime_entry exec_tx
delete_my_overtime_entry-IsAtomic actor id db e h = ground arith

decide_overtime_entry_by_admin-IsAtomic :
    (admin id : ℕ) (p : DecideOvertimeParams) (now : Time)
    → IsAtomic (decide_overtime_entry_by_admin admin id p now)
unfolding decide_overtime_entry_by_admin exec_tx
decide_overtime_entry_by_admin-IsAtomic admin id p now db e h = ground arith

-- Every call is a step, whatever it is given.
pub perform-OvertimeStep :
    (now : Time) (call : OvertimeRequest) (db : OvertimeDb) → OvertimeStep db (perform now call db)
unfolding perform
perform-OvertimeStep now (create fresh actor p) db =
    atomic_cases (OvertimeStep db) (create_overtime_entry fresh actor p) db
      (create_overtime_entry-IsAtomic fresh actor p) (idle refl)
      (λ k e. create_overtime_entry_step fresh actor p db _ k e)
perform-OvertimeStep now (create_by_admin fresh admin p) db =
    atomic_cases (OvertimeStep db) (create_overtime_entry_by_admin fresh admin p) db
      (create_overtime_entry_by_admin-IsAtomic fresh admin p) (idle refl)
      (λ k e. create_overtime_entry_by_admin_step fresh admin p db _ k e)
perform-OvertimeStep now (decide admin id p) db =
    atomic_cases (OvertimeStep db) (decide_overtime_entry_by_admin admin id p now) db
      (decide_overtime_entry_by_admin-IsAtomic admin id p now) (idle refl)
      (λ r e. decide_overtime_entry_by_admin_step admin id p now db _ r e)
perform-OvertimeStep now (change_by_admin admin id p) db =
    atomic_cases (OvertimeStep db) (update_overtime_entry_by_admin admin id p) db
      (update_overtime_entry_by_admin-IsAtomic admin id p) (idle refl)
      (λ r e. update_overtime_entry_by_admin_step admin id p db _ r e)
perform-OvertimeStep now (change_own actor id p) db =
    atomic_cases (OvertimeStep db) (update_my_overtime_entry actor id p) db
      (update_my_overtime_entry-IsAtomic actor id p) (idle refl)
      (λ r e. update_my_overtime_entry_step actor id p db _ r e)
perform-OvertimeStep now (delete_by_admin admin id) db =
    atomic_cases (OvertimeStep db) (delete_overtime_entry_by_admin admin id) db
      (delete_overtime_entry_by_admin-IsAtomic admin id) (idle refl)
      (λ r e. delete_overtime_entry_by_admin_step admin id db _ e)
perform-OvertimeStep now (delete_own actor id) db =
    atomic_cases (OvertimeStep db) (delete_my_overtime_entry actor id) db
      (delete_my_overtime_entry-IsAtomic actor id) (idle refl)
      (λ r e. delete_my_overtime_entry_step actor id db _ e)

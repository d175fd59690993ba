-- ===== src/Leave/Lifecycle.antt =====
-- The life of a leave request under the operations of internal/service/leave_service.go, failing ones
-- included.
use hrbackend.Prelude.{ℕ, ◌≢◌, ◌≡◌, refl, true, none, arith}
use hrbackend.Prelude.Int.{ℤ}
use hrbackend.Prelude.GoText.{Text}
use hrbackend.Prelude.Results.{ok}
use hrbackend.Time.{Time}
use hrbackend.Store.{IsAtomic, atomic_cases, exec_tx}
use hrbackend.Balance.{
  LeaveStatus, pending, approved, rejected, cancelled, expired, LeaveRow, LeaveDb,
}
use hrbackend.Leave.Queries.{row_valid}
use hrbackend.Leave.Updates.{UpdateLeaveParams}
use hrbackend.Leave.Service.{
  CreateLeaveParams, DecideLeaveParams, create_leave_request, create_leave_request_by_admin,
  update_leave_request, update_leave_request_by_admin, decide_leave_request_by_admin,
}
use hrbackend.Leave.Minutes.{Contracts}
use hrbackend.Leave.Steps.{LeaveStep, idle}
use hrbackend.Leave.Inverts.{
  create_leave_step, update_leave_request_step, update_leave_request_by_admin_step,
  decide_leave_request_step, create_leave-IsAtomic,
}

-- A call of the service, with the key that the database would make for a new row.
pub data ServiceCall : Type 0 where
  file : ℕ → ℕ → CreateLeaveParams → ServiceCall
  file_by_admin : ℕ → ℕ → CreateLeaveParams → ServiceCall
  change : ℕ → ℕ → UpdateLeaveParams → ServiceCall
  change_by_admin : ℕ → ℕ → UpdateLeaveParams → Text → ServiceCall
  decide : ℕ → ℕ → DecideLeaveParams → ServiceCall

-- The statuses that a request may pass between in one call.
pub data Follows : LeaveStatus → LeaveStatus → Type 0 where
  stays : {s : LeaveStatus} → Follows s s
  approves : Follows pending approved
  rejects : Follows pending rejected

-- The constraints of the table, and who decided.
abbrev pub StageHolds : LeaveStatus → LeaveRow → Type 0
StageHolds pending r = r.decided_by_employee_id ≡ none
StageHolds approved r = r.decided_by_employee_id ≢ none
StageHolds rejected r = r.decided_by_employee_id ≢ none
StageHolds cancelled r = Unit
StageHolds expired r = Unit

abbrev pub IsWellFormed : LeaveRow → Type 0
IsWellFormed r = (row_valid r ≡ true) × StageHolds r.status r

module _ {Float : Type 0} (legal_total : ℕ → ℕ → Time → ℤ) (contract_at : Contracts) where
  create_leave_request-IsAtomic :
      (fresh actor : ℕ) (p : CreateLeaveParams)
      → IsAtomic (create_leave_request {Float = Float} legal_total contract_at fresh actor p)
  unfolding create_leave_request
  create_leave_request-IsAtomic fresh actor p db e h = ground (
    arith,
    create_leave-IsAtomic legal_total contract_at fresh
        (record p { employee_id = actor; created_by_employee_id = actor }) db e,
  )

  create_leave_request_by_admin-IsAtomic :
      (fresh admin : ℕ) (p : CreateLeaveParams)
      → IsAtomic
          (create_leave_request_by_admin {Float = Float} legal_total contract_at fresh admin p)
  unfolding create_leave_request_by_admin
  create_leave_request_by_admin-IsAtomic fresh admin p db e h = ground (
    arith,
    create_leave-IsAtomic legal_total contract_at fresh
        (record p { created_by_employee_id = admin }) db e,
  )

  update_leave_request-IsAtomic :
      (actor id : ℕ) (u : UpdateLeaveParams) (now : Time)
      → IsAtomic (update_leave_request {Float = Float} legal_total contract_at actor id u now)
  unfolding update_leave_request exec_tx
  update_leave_request-IsAtomic actor id u now db e h = ground arith

  update_leave_request_by_admin-IsAtomic :
      (admin id : ℕ) (u : UpdateLeaveParams) (remark : Text) (now : Time)
      → IsAtomic (
          update_leave_request_by_admin {Float = Float} legal_total contract_at admin id u remark
            now)
  unfolding update_leave_request_by_admin exec_tx
  update_leave_request_by_admin-IsAtomic admin id u remark now db e h = ground arith

  decide_leave_request_by_admin-IsAtomic :
      (admin id : ℕ) (p : DecideLeaveParams) (now : Time)
      → IsAtomic
          (decide_leave_request_by_admin {Float = Float} legal_total contract_at admin id p now)
  unfolding decide_leave_request_by_admin exec_tx
  decide_leave_request_by_admin-IsAtomic admin id p now db e h = ground arith

  -- Each of the five calls of the leave service that change requests leaves the database as it was when
  -- it returns an error, whatever its arguments are: those that file a request run no transaction, and
  -- write last.
  pub leave_calls-IsAtomic :
      (fresh actor id : ℕ) (now : Time) (cp : CreateLeaveParams) (up : UpdateLeaveParams)
      (remark : Text) (dp : DecideLeaveParams)
      → IsAtomic (create_leave_request {Float = Float} legal_total contract_at fresh actor cp)
        × IsAtomic
            (create_leave_request_by_admin {Float = Float} legal_total contract_at fresh actor cp)
        × IsAtomic (update_leave_request {Float = Float} legal_total contract_at actor id up now)
        × IsAtomic (
            update_leave_request_by_admin {Float = Float} legal_total contract_at actor id up remark
              now)
        × IsAtomic
            (decide_leave_request_by_admin {Float = Float} legal_total contract_at actor id dp now)
  leave_calls-IsAtomic fresh actor id now cp up remark dp = (
    create_leave_request-IsAtomic fresh actor cp,
    create_leave_request_by_admin-IsAtomic fresh actor cp,
    update_leave_request-IsAtomic actor id up now,
    update_leave_request_by_admin-IsAtomic actor id up remark now,
    decide_leave_request_by_admin-IsAtomic actor id dp now,
  )

  -- The database after a call.
  unfoldable pub perform : Time → ServiceCall → LeaveDb Float → LeaveDb Float
  perform now (file fresh actor p) db =
      (create_leave_request legal_total contract_at fresh actor p db).1
  perform now (file_by_admin fresh admin p) db =
      (create_leave_request_by_admin legal_total contract_at fresh admin p db).1
  perform now (change actor id u) db =
      (update_leave_request legal_total contract_at actor id u now db).1
  perform now (change_by_admin admin id u remark) db =
      (update_leave_request_by_admin legal_total contract_at admin id u remark now db).1
  perform now (decide admin id p) db =
      (decide_leave_request_by_admin legal_total contract_at admin id p now db).1

  create_leave_request_step :
      (fresh actor : ℕ) (p : CreateLeaveParams) (db db' : LeaveDb Float) (k : ℕ)
      → create_leave_request legal_total contract_at fresh actor p db ≡ (ok k, db')
      → LeaveStep legal_total db db'
  unfolding create_leave_request
  create_leave_request_step fresh actor p db db' k e =
      create_leave_step legal_total contract_at fresh
        (record p { employee_id = actor; created_by_employee_id = actor }) db db' k (ground arith)

  create_leave_request_by_admin_step :
      (fresh admin : ℕ) (p : CreateLeaveParams) (db db' : LeaveDb Float) (k : ℕ)
      → create_leave_request_by_admin legal_total contract_at fresh admin p db ≡ (ok k, db')
      → LeaveStep legal_total db db'
  unfolding create_leave_request_by_admin
  create_leave_request_by_admin_step fresh admin p db db' k e =
      create_leave_step legal_total contract_at fresh (record p { created_by_employee_id = admin })
        db db' k (ground arith)

  -- Every call is a step, whatever it is given.
  pub perform-LeaveStep :
      (now : Time) (call : ServiceCall) (db : LeaveDb Float)
      → LeaveStep legal_total db (perform now call db)
  unfolding perform
  perform-LeaveStep now (file fresh actor p) db =
      atomic_cases (LeaveStep legal_total db)
        (create_leave_request legal_total contract_at fresh actor p) db
        (create_leave_request-IsAtomic fresh actor p) (idle refl)
        (create_leave_request_step fresh actor p db _)
  perform-LeaveStep now (file_by_admin fresh admin p) db =
      atomic_cases (LeaveStep legal_total db)
        (create_leave_request_by_admin legal_total contract_at fresh admin p) db
        (create_leave_request_by_admin-IsAtomic fresh admin p) (idle refl)
        (create_leave_request_by_admin_step fresh admin p db _)
  perform-LeaveStep now (change actor id u) db =
      atomic_cases (LeaveStep legal_total db)
        (update_leave_request legal_total contract_at actor id u now) db
        (update_leave_request-IsAtomic actor id u now) (idle refl)
        (λ r e. update_leave_request_step legal_total contract_at actor id u now db _ r e)
  perform-LeaveStep now (change_by_admin admin id u remark) db =
      atomic_cases (LeaveStep legal_total db)
        (update_leave_request_by_admin legal_total contract_at admin id u remark now) db
        (update_leave_request_by_admin-IsAtomic admin id u remark now) (idle refl)
        (λ r e.
          update_leave_request_by_admin_step legal_total contract_at admin id u remark now db _ r e)
  perform-LeaveStep now (decide admin id p) db =
      atomic_cases (LeaveStep legal_total db)
        (decide_leave_request_by_admin legal_total contract_at admin id p now) db
        (decide_leave_request_by_admin-IsAtomic admin id p now) (idle refl)
        (λ r e. decide_leave_request_step legal_total contract_at admin id p now db _ r e)

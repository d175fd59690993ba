-- ===== src/Expense/Lifecycle.antt =====
-- The life of an expense request under the operations of internal/service/expense_service.go, failing
-- ones included.
use hrbackend.Prelude.{ℕ, refl, arith}
use hrbackend.Time.{Time}
use hrbackend.Store.{IsAtomic, atomic_cases, exec_tx}
use hrbackend.Expense.{Externals, ExpenseDb}
use hrbackend.Expense.Service.{
  CreateExpenseParams, UpdateExpenseParams, DecideExpenseParams, create_expense_request,
  create_expense_request_by_admin, update_expense_request, update_expense_request_by_admin,
  delete_expense_request, decide_expense_request_by_admin, cancel_expense_request_by_admin,
  mark_expense_request_reimbursed_by_admin,
}
use hrbackend.Expense.Steps.{ExpenseStep, idle}
use hrbackend.Expense.Inverts.{
  update_expense_request_step, update_expense_request_by_admin_step, delete_expense_request_step,
  decide_expense_request_by_admin_step, cancel_expense_request_by_admin_step,
  mark_expense_request_reimbursed_by_admin_step,
}
use hrbackend.Expense.Creations.{
  create_expense_request_step, create_expense_request_by_admin_step,
  create_expense_request-IsAtomic, create_expense_request_by_admin-IsAtomic,
}

module _ (X : Externals) where
  open X use {Amount}

  -- A call of the service, with the key that the database would make for a new row.
  pub data ExpenseRequest : Type 0 where
    create : ℕ → ℕ → CreateExpenseParams X → ExpenseRequest
    create_by_admin : ℕ → ℕ → CreateExpenseParams X → ExpenseRequest
    change_own : ℕ → ℕ → UpdateExpenseParams X → ExpenseRequest
    change_by_admin : ℕ → ℕ → UpdateExpenseParams X → ExpenseRequest
    cancel_own : ℕ → ℕ → ExpenseRequest
    decide : ℕ → ℕ → DecideExpenseParams X → ExpenseRequest
    cancel_by_admin : ℕ → ℕ → ExpenseRequest
    reimburse : ℕ → ℕ → ExpenseRequest

  -- The database after a call.
  unfoldable pub perform : Time → ExpenseRequest → ExpenseDb Amount → ExpenseDb Amount
  perform now (create fresh employee p) db = (create_expense_request X fresh employee p now db).1
  perform now (create_by_admin fresh admin p) db =
      (create_expense_request_by_admin X fresh admin p now db).1
  perform now (change_own employee id u) db = (update_expense_request X employee id u now db).1
  perform now (change_by_admin admin id u) db =
      (update_expense_request_by_admin X admin id u now db).1
  perform now (cancel_own employee id) db = (delete_expense_request X employee id now db).1
  perform now (decide admin id p) db = (decide_expense_request_by_admin X admin id p now db).1
  perform now (cancel_by_admin admin id) db = (cancel_expense_request_by_admin X admin id now db).1
  perform now (reimburse admin id) db =
      (mark_expense_request_reimbursed_by_admin X admin id now db).1

  update_expense_request-IsAtomic :
      (employee id : ℕ) (u : UpdateExpenseParams X) (now : Time)
      → IsAtomic (update_expense_request X employee id u now)
  unfolding update_expense_request exec_tx
  update_expense_request-IsAtomic employee id u now db e h = ground arith

  update_expense_request_by_admin-IsAtomic :
      (admin id : ℕ) (u : UpdateExpenseParams X) (now : Time)
      → IsAtomic (update_expense_request_by_admin X admin id u now)
  unfolding update_expense_request_by_admin exec_tx
  update_expense_request_by_admin-IsAtomic admin id u now db e h = ground arith

  delete_expense_request-IsAtomic :
      (employee id : ℕ) (now : Time) → IsAtomic (delete_expense_request X employee id now)
  unfolding delete_expense_request exec_tx
  delete_expense_request-IsAtomic employee id now db e h = ground arith

  decide_expense_request_by_admin-IsAtomic :
      (admin id : ℕ) (p : DecideExpenseParams X) (now : Time)
      → IsAtomic (decide_expense_request_by_admin X admin id p now)
  unfolding decide_expense_request_by_admin exec_tx
  decide_expense_request_by_admin-IsAtomic admin id p now db e h = ground arith

  cancel_expense_request_by_admin-IsAtomic :
      (admin id : ℕ) (now : Time) → IsAtomic (cancel_expense_request_by_admin X admin id now)
  unfolding cancel_expense_request_by_admin exec_tx
  cancel_expense_request_by_admin-IsAtomic admin id now db e h = ground arith

  mark_expense_request_reimbursed_by_admin-IsAtomic :
      (admin id : ℕ) (now : Time)
      → IsAtomic (mark_expense_request_reimbursed_by_admin X admin id now)
  unfolding mark_expense_request_reimbursed_by_admin exec_tx
  mark_expense_request_reimbursed_by_admin-IsAtomic admin id now db e h = ground arith

  -- Every call is a step, whatever it is given.
  pub perform-ExpenseStep :
      (now : Time) (call : ExpenseRequest) (db : ExpenseDb Amount)
      → ExpenseStep X db (perform now call db)
  unfolding perform
  perform-ExpenseStep now (create fresh employee p) db =
      atomic_cases (ExpenseStep X db) (create_expense_request X fresh employee p now) db
        (create_expense_request-IsAtomic X fresh employee p now) (idle refl)
        (λ r e. create_expense_request_step X fresh employee p now db _ r e)
  perform-ExpenseStep now (create_by_admin fresh admin p) db =
      atomic_cases (ExpenseStep X db) (create_expense_request_by_admin X fresh admin p now) db
        (create_expense_request_by_admin-IsAtomic X fresh admin p now) (idle refl)
        (λ r e. create_expense_request_by_admin_step X fresh admin p now db _ r e)
  perform-ExpenseStep now (change_own employee id u) db =
      atomic_cases (ExpenseStep X db) (update_expense_request X employee id u now) db
        (update_expense_request-IsAtomic employee id u now) (idle refl)
        (λ r e. update_expense_request_step X employee id u now db _ r e)
  perform-ExpenseStep now (change_by_admin admin id u) db =
      atomic_cases (ExpenseStep X db) (update_expense_request_by_admin X admin id u now) db
        (update_expense_request_by_admin-IsAtomic admin id u now) (idle refl)
        (λ r e. update_expense_request_by_admin_step X admin id u now db _ r e)
  perform-ExpenseStep now (cancel_own employee id) db =
      atomic_cases (ExpenseStep X db) (delete_expense_request X employee id now) db
        (delete_expense_request-IsAtomic employee id now) (idle refl)
        (λ r e. delete_expense_request_step X employee id now db _ r e)
  perform-ExpenseStep now (decide admin id p) db =
      atomic_cases (ExpenseStep X db) (decide_expense_request_by_admin X admin id p now) db
        (decide_expense_request_by_admin-IsAtomic admin id p now) (idle refl)
        (λ r e. decide_expense_request_by_admin_step X admin id p now db _ r e)
  perform-ExpenseStep now (cancel_by_admin admin id) db =
      atomic_cases (ExpenseStep X db) (cancel_expense_request_by_admin X admin id now) db
        (cancel_expense_request_by_admin-IsAtomic admin id now) (idle refl)
        (λ r e. cancel_expense_request_by_admin_step X admin id now db _ r e)
  perform-ExpenseStep now (reimburse admin id) db =
      atomic_cases (ExpenseStep X db) (mark_expense_request_reimbursed_by_admin X admin id now) db
        (mark_expense_request_reimbursed_by_admin-IsAtomic admin id now) (idle refl)
        (λ r e. mark_expense_request_reimbursed_by_admin_step X admin id now db _ r e)

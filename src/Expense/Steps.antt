-- ===== src/Expense/Steps.antt =====
-- Each operation of internal/service/expense_service.go as a step on the expense requests.
use hrbackend.Prelude.{ℕ, ◌≡◌, true, false, Option, none, some}
use hrbackend.Prelude.GoText.{Text}
use hrbackend.Time.{Time}
use hrbackend.Store.Table.{select, update, insert}
use hrbackend.Expense.{Externals, pending, approved, ExpenseRow, ExpenseDb}
use hrbackend.Expense.Queries.{
  NewExpense, ExpenseChanges, row_valid, claimed_as, expense_changed_as, expense_approved_as,
  expense_rejected_as, expense_reimbursed_as, expense_cancelled_as,
}
use hrbackend.Expense.Service.{is_final}

module _ (X : Externals) where
  open X use {Amount, to_money, to_distance}

  -- A call leaves the requests, adds one, decides a pending one, reimburses an approved one, or changes
  -- or cancels one that is not final. What it writes meets the constraints.
  pub data ExpenseStep (db db' : ExpenseDb Amount) : Type 0 where
    idle : db' ≡ db → ExpenseStep db db'
    claims :
        (k : ℕ) (n : NewExpense X) (amount : Amount) (km : Option Amount)
        → select k db.requests ≡ none
        → row_valid X (claimed_as X n amount km) ≡ true
        → db' ≡ record db { requests = insert k (claimed_as X n amount km) db.requests }
        → ExpenseStep db db'
    changes :
        (k : ℕ) (r : ExpenseRow Amount) (c : ExpenseChanges X) (amount km : Option Amount)
        → select k db.requests ≡ some r
        → is_final r.status ≡ false
        → row_valid X (expense_changed_as X c amount km r) ≡ true
        → db' ≡ record db { requests = update k (expense_changed_as X c amount km) db.requests }
        → ExpenseStep db db'
    approves :
        (k : ℕ) (r : ExpenseRow Amount) (admin : ℕ) (amount : Amount) (remark : Option Text)
        (now : Time)
        → select k db.requests ≡ some r
        → r.status ≡ pending
        → row_valid X (expense_approved_as X admin amount remark now r) ≡ true
        → db' ≡ record db {
          requests = update k (expense_approved_as X admin amount remark now) db.requests;
        }
        → ExpenseStep db db'
    rejects :
        (k : ℕ) (r : ExpenseRow Amount) (admin : ℕ) (remark : Option Text) (now : Time)
        → select k db.requests ≡ some r
        → r.status ≡ pending
        → row_valid X (expense_rejected_as X admin remark now r) ≡ true
        → db'
          ≡ record db { requests = update k (expense_rejected_as X admin remark now) db.requests }
        → ExpenseStep db db'
    reimburses :
        (k : ℕ) (r : ExpenseRow Amount) (admin : ℕ) (now : Time)
        → select k db.requests ≡ some r
        → r.status ≡ approved
        → row_valid X (expense_reimbursed_as X admin now r) ≡ true
        → db' ≡ record db { requests = update k (expense_reimbursed_as X admin now) db.requests }
        → ExpenseStep db db'
    cancels :
        (k : ℕ) (r : ExpenseRow Amount) (now : Time)
        → select k db.requests ≡ some r
        → is_final r.status ≡ false
        → row_valid X (expense_cancelled_as X now r) ≡ true
        → db' ≡ record db { requests = update k (expense_cancelled_as X now) db.requests }
        → ExpenseStep db db'

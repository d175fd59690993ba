-- ===== src/Examples/Expense.antt =====
-- A train ticket of one employee, through internal/service/expense_service.go.
use hrbackend.Prelude.{ℕ, ◌*◌, ◌≡◌, refl, none, some, [], ◌∷◌, arith, ltb}
use hrbackend.Prelude.GoText.{codes, text_eq, trim_space}
use hrbackend.Prelude.Results.{err}
use hrbackend.Time.{Time}
use hrbackend.Store.Table.{select}
use hrbackend.Expense.{
  Externals, invalid_request, pending, travel, meal, ExpenseRow, ExpenseDb, category_of,
}
use hrbackend.Expense.Queries.{row_valid}
use hrbackend.Expense.Service.{
  UpdateExpenseParams, DecideExpenseParams, update_expense_request_by_admin,
}
use hrbackend.Expense.Lifecycle.{decide, reimburse, perform}
use hrbackend.Expense.Invariant.{
  IsSound, Continues, perform_all, expense_calls-IsSound, expense_call-Continues,
}
use hrbackend.Expense.Travel.{travel_category_sticks}

-- Whole amounts, kept by every column, and texts that are in upper case already.
abbrev cents : Externals
cents = record {
  Amount = ℕ;
  nothing = 0;
  less = λ a b. ltb a b;
  to_money = λ a. some a;
  to_distance = λ a. some a;
  to_upper = λ t. t;
}

abbrev now : Time
now = 739931 * 86400

abbrev ticket : ExpenseRow ℕ
ticket = record {
  employee_id = 7;
  created_by_employee_id = 7;
  category = travel;
  expense_date = now;
  merchant_name = none;
  description = codes "train";
  business_purpose = codes "visit";
  currency = codes "EUR";
  claimed_amount = 1250;
  approved_amount = none;
  travel_mode = some (codes "train");
  travel_from = none;
  travel_to = none;
  distance_km = none;
  status = pending;
  request_note = none;
  decision_note = none;
  decided_by_employee_id = none;
  reimbursed_by_employee_id = none;
  decided_at = none;
  reimbursed_at = none;
  cancelled_at = none;
}

abbrev db : ExpenseDb ℕ
db = record { employees = 7 ∷ 9 ∷ []; requests = (1, ticket) ∷ [] }

abbrev approval : DecideExpenseParams cents
approval = record { decision = codes "approve"; approved_amount = some 1000; decision_note = none }

abbrev to_meal : UpdateExpenseParams cents
to_meal = record {
  category = some (codes "meal");
  expense_date = none;
  merchant_name = none;
  description = none;
  business_purpose = none;
  currency = none;
  claimed_amount = none;
  travel_mode = none;
  travel_from = none;
  travel_to = none;
  distance_km = none;
  request_note = none;
}

db-IsSound : IsSound cents db
unfolding row_valid
db-IsSound = ((tt, tt), ((refl, (refl, refl, refl, refl)), tt))

expense_calls-IsSound_example :
    IsSound cents (perform_all cents ((now, decide 9 1 approval) ∷ (now, reimburse 9 1) ∷ []) db)
expense_calls-IsSound_example =
    expense_calls-IsSound cents ((now, decide 9 1 approval) ∷ (now, reimburse 9 1) ∷ []) db
      db-IsSound

expense_call-Continues_example :
    Continues ticket (select 1 (perform cents now (decide 9 1 approval) db).requests)
unfolding select
expense_call-Continues_example =
    expense_call-Continues cents now (decide 9 1 approval) db 1 ticket refl

travel_category_sticks_example :
    update_expense_request_by_admin cents 9 1 to_meal now db ≡ (err invalid_request, db)
unfolding select category_of text_eq trim_space
travel_category_sticks_example =
    travel_category_sticks cents 9 1 to_meal now db ticket (codes "meal") meal (ground arith)
      (ground arith) refl refl refl refl refl refl

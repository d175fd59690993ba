-- ===== src/Expense/Creations.antt =====
-- The two operations of internal/service/expense_service.go that file a request, each as a step on the
-- requests.
use hrbackend.Prelude.{ℕ, ◌≡◌, arith, Option-cases, inl, inr}
use hrbackend.Prelude.Results.{ok, Result-cases}
use hrbackend.Time.{Time}
use hrbackend.Store.{IsAtomic}
use hrbackend.Store.Table.{select}
use hrbackend.Expense.{Externals, ExpenseDb}
use hrbackend.Expense.Queries.{NewExpense, store_given, insert_expense_request}
use hrbackend.Expense.Service.{
  CreateExpenseParams, normalize_create_expense, create_expense, create_expense_request,
  create_expense_request_by_admin,
}
use hrbackend.Expense.Steps.{ExpenseStep, claims}
use hrbackend.Expense.Inverts.{store_given_keeps}

module _ (X : Externals) where
  open X use {Amount, to_money, to_distance}

  insert_step :
      (fresh : ℕ) (n : NewExpense X) (db db' : ExpenseDb Amount) (k : ℕ)
      → insert_expense_request X fresh n db ≡ (ok k, db')
      → ExpenseStep X db db'
  unfolding insert_expense_request
  insert_step fresh n db db' k e =
      let keeps = store_given_keeps X to_distance n.distance_km db in
      elim (Option-cases (to_money n.claimed_amount)) [
        | inl h ↦ ground arith
        | inr (amount, ha) ↦ elim (Result-cases (store_given X to_distance n.distance_km db).0) [
          | inl (f, h) ↦ ground arith
          | inr (km, hk) ↦ elim (Option-cases (select fresh db.requests)) [
            | inr (r, h) ↦ ground arith
            | inl h ↦ claims fresh n amount km h (ground arith) (ground arith)
          ]
        ]
      ]

  normalize_create_expense_keeps :
      (p : CreateExpenseParams X) (now : Time) (db : ExpenseDb Amount)
      → (normalize_create_expense X p now db).1 ≡ db
  unfolding normalize_create_expense
  normalize_create_expense_keeps p now db = ground arith

  create_step :
      (fresh : ℕ) (p : CreateExpenseParams X) (now : Time) (db db' : ExpenseDb Amount) (k : ℕ)
      → create_expense X fresh p now db ≡ (ok k, db')
      → ExpenseStep X db db'
  unfolding create_expense
  create_step fresh p now db db' k e =
      let keeps = normalize_create_expense_keeps p now db in
      elim (Result-cases (normalize_create_expense X p now db).0) [
        | inl (f, hf) ↦ ground arith
        | inr (n, hn) ↦ insert_step fresh n db db' k (ground arith)
      ]

  pub create_expense_request_step :
      (fresh employee : ℕ) (p : CreateExpenseParams X) (now : Time) (db db' : ExpenseDb Amount)
      (k : ℕ)
      → create_expense_request X fresh employee p now db ≡ (ok k, db')
      → ExpenseStep X db db'
  unfolding create_expense_request
  create_expense_request_step fresh employee p now db db' k e =
      create_step fresh (record p { employee_id = employee; created_by_employee_id = employee }) now
        db db' k (ground arith)

  pub create_expense_request_by_admin_step :
      (fresh admin : ℕ) (p : CreateExpenseParams X) (now : Time) (db db' : ExpenseDb Amount) (k : ℕ)
      → create_expense_request_by_admin X fresh admin p now db ≡ (ok k, db')
      → ExpenseStep X db db'
  unfolding create_expense_request_by_admin
  create_expense_request_by_admin_step fresh admin p now db db' k e =
      create_step fresh (record p { created_by_employee_id = admin }) now db db' k (ground arith)

  create_expense-IsAtomic :
      (fresh : ℕ) (p : CreateExpenseParams X) (now : Time) → IsAtomic (create_expense X fresh p now)
  unfolding create_expense insert_expense_request
  create_expense-IsAtomic fresh p now db e h =
      let keeps = normalize_create_expense_keeps p now db in
      elim (Result-cases (normalize_create_expense X p now db).0) [
        | inl (f, hf) ↦ ground arith
        | inr (n, hn) ↦
            let kept = store_given_keeps X to_distance n.distance_km db in
            elim (Result-cases (store_given X to_distance n.distance_km db).0) [
              | inl (f, hf) ↦ ground arith
              | inr (u, hu) ↦ ground arith
            ]
      ]

  pub create_expense_request-IsAtomic :
      (fresh employee : ℕ) (p : CreateExpenseParams X) (now : Time)
      → IsAtomic (create_expense_request X fresh employee p now)
  unfolding create_expense_request
  create_expense_request-IsAtomic fresh employee p now db e h = ground (
    arith,
    create_expense-IsAtomic fresh
        (record p { employee_id = employee; created_by_employee_id = employee }) now db e,
  )

  pub create_expense_request_by_admin-IsAtomic :
      (fresh admin : ℕ) (p : CreateExpenseParams X) (now : Time)
      → IsAtomic (create_expense_request_by_admin X fresh admin p now)
  unfolding create_expense_request_by_admin
  create_expense_request_by_admin-IsAtomic fresh admin p now db e h =
      ground (
        arith,
        create_expense-IsAtomic fresh (record p { created_by_employee_id = admin }) now db e,
      )

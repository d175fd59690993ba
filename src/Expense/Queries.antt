-- ===== src/Expense/Queries.antt =====
-- The expense requests in the database: internal/repository/expense_repo.go, with the constraints of
-- migrations/000001_init.up.sql.
use hrbackend.Params.{is_given, coalesce, coalesce_null}
use hrbackend.Prelude.{ℕ, Bool, not, ◌&&◌, ◌||◌, Option, none, some, if◌then◌else◌}
use hrbackend.Prelude.GoText.{Text}
use hrbackend.Prelude.Results.{ok, err}
use hrbackend.Time.{Time}
use hrbackend.Store.{Action, raise_if, one_row, gets, ◌>>=◌, ◌>>◌}
use hrbackend.Store.Table.{select, update, insert}
use hrbackend.Balance.{known}
use hrbackend.Expense.{
  ExpenseCategory, ExpenseDb, ExpenseError, ExpenseRow, Externals, fails_for, is_travel, not_blank,
  three_letters, not_found, db_error, pending, approved, rejected, reimbursed, cancelled,
}

module _ (X : Externals) where
  open X use {Amount, nothing, less, to_money, to_distance}

  abbrev pub ExpenseCall : Type 0 → Type 0
  ExpenseCall A = Action (ExpenseDb Amount) ExpenseError A

  -- The constraints of `expense_requests`.
  unfoldable pub row_valid : ExpenseRow Amount → Bool
  row_valid r =
      less nothing r.claimed_amount
      && not (fails_for r.approved_amount (λ a. less a nothing || less r.claimed_amount a))
      && three_letters r.currency
      && not (fails_for r.distance_km (λ d. less d nothing))
      && not_blank r.description
      && not_blank r.business_purpose
      && (is_travel r.category
          || not (
              is_given r.travel_mode
              || is_given r.travel_from
              || is_given r.travel_to
              || is_given r.distance_km))

  -- What a create or an update asks for, in normal form.
  pub record NewExpense : Type 0 where
    pub employee_id : ℕ
    pub created_by_employee_id : ℕ
    pub category : ExpenseCategory
    pub expense_date : Time
    pub merchant_name : Option Text
    pub description : Text
    pub business_purpose : Text
    pub currency : Text
    pub claimed_amount : Amount
    pub travel_mode : Option Text
    pub travel_from : Option Text
    pub travel_to : Option Text
    pub distance_km : Option Amount
    pub request_note : Option Text

  pub record ExpenseChanges : Type 0 where
    pub category : Option ExpenseCategory
    pub expense_date : Option Time
    pub merchant_name : Option Text
    pub description : Option Text
    pub business_purpose : Option Text
    pub currency : Option Text
    pub claimed_amount : Option Amount
    pub travel_mode : Option Text
    pub travel_from : Option Text
    pub travel_to : Option Text
    pub distance_km : Option Amount
    pub request_note : Option Text

  -- The row that `CreateExpenseRequest` inserts, with its amounts as the columns keep them.
  abbrev pub claimed_as : NewExpense → Amount → Option Amount → ExpenseRow Amount
  claimed_as n amount km = record {
    employee_id = n.employee_id;
    created_by_employee_id = n.created_by_employee_id;
    category = n.category;
    expense_date = n.expense_date;
    merchant_name = n.merchant_name;
    description = n.description;
    business_purpose = n.business_purpose;
    currency = n.currency;
    claimed_amount = amount;
    approved_amount = none;
    travel_mode = n.travel_mode;
    travel_from = n.travel_from;
    travel_to = n.travel_to;
    distance_km = km;
    status = pending;
    request_note = n.request_note;
    decision_note = none;
    decided_by_employee_id = none;
    reimbursed_by_employee_id = none;
    decided_at = none;
    reimbursed_at = none;
    cancelled_at = none;
  }

  -- The row that `UpdateExpenseRequestEditableFields` writes.
  abbrev pub expense_changed_as :
      ExpenseChanges → Option Amount → Option Amount → ExpenseRow Amount → ExpenseRow Amount
  expense_changed_as c amount km r = record r {
    category = coalesce c.category r.category;
    expense_date = coalesce c.expense_date r.expense_date;
    merchant_name = coalesce_null c.merchant_name r.merchant_name;
    description = coalesce c.description r.description;
    business_purpose = coalesce c.business_purpose r.business_purpose;
    currency = coalesce c.currency r.currency;
    claimed_amount = coalesce amount r.claimed_amount;
    travel_mode = coalesce_null c.travel_mode r.travel_mode;
    travel_from = coalesce_null c.travel_from r.travel_from;
    travel_to = coalesce_null c.travel_to r.travel_to;
    distance_km = coalesce_null km r.distance_km;
    request_note = coalesce_null c.request_note r.request_note;
  }

  -- The rows that the four queries on the status write.
  abbrev pub expense_approved_as :
      ℕ → Amount → Option Text → Time → ExpenseRow Amount → ExpenseRow Amount
  expense_approved_as admin amount remark now r = record r {
    status = approved;
    approved_amount = some amount;
    decision_note = remark;
    decided_by_employee_id = some admin;
    decided_at = some now;
  }

  abbrev pub expense_rejected_as : ℕ → Option Text → Time → ExpenseRow Amount → ExpenseRow Amount
  expense_rejected_as admin remark now r = record r {
    status = rejected;
    decision_note = remark;
    decided_by_employee_id = some admin;
    decided_at = some now;
  }

  abbrev pub expense_reimbursed_as : ℕ → Time → ExpenseRow Amount → ExpenseRow Amount
  expense_reimbursed_as admin now r = record r {
    status = reimbursed;
    reimbursed_by_employee_id = some admin;
    reimbursed_at = some now;
  }

  abbrev pub expense_cancelled_as : Time → ExpenseRow Amount → ExpenseRow Amount
  expense_cancelled_as now r = record r { status = cancelled; cancelled_at = some now }

  -- What a numeric column keeps of a value that may be missing.
  abbrev pub store_given : (Amount → Option Amount) → Option Amount → ExpenseCall (Option Amount)
  store_given column none db = (ok none, db)
  store_given column (some a) db = elim (column a) [
    | none ↦ (err db_error, db)
    | some b ↦ (ok (some b), db)
  ]

  -- `CreateExpenseRequest` of the repository.
  unfoldable pub insert_expense_request : ℕ → NewExpense → ExpenseCall ℕ
  insert_expense_request fresh n = do
    amount ← one_row (to_money n.claimed_amount) db_error
    km ← store_given to_distance n.distance_km
    employees ← gets (λ db. db.employees)
    raise_if
        (not (row_valid (claimed_as n amount km))
          || not (known n.employee_id employees)
          || not (known n.created_by_employee_id employees))
        db_error
    (λ db. elim (select fresh db.requests) [
      | some r ↦ (err db_error, db)
      | none ↦
          (ok fresh, record db { requests = insert fresh (claimed_as n amount km) db.requests })
    ])

  unfoldable pub get_expense_request_for_update : ℕ → ExpenseCall (ExpenseRow Amount)
  get_expense_request_for_update id db = one_row (select id db.requests) not_found db

  -- An `UPDATE … WHERE id = … RETURNING *`, whose new row meets the constraints.
  unfoldable pub update_expense :
      ℕ → (ExpenseRow Amount → ExpenseRow Amount) → ExpenseCall (ExpenseRow Amount)
  update_expense id f db = elim (select id db.requests) [
    | none ↦ (err not_found, db)
    | some r ↦
        if row_valid (f r)
        then (ok (f r), record db { requests = update id f db.requests })
        else (err db_error, db)
  ]

  unfoldable pub update_expense_request_editable_fields :
      ℕ → ExpenseChanges → ExpenseCall (ExpenseRow Amount)
  update_expense_request_editable_fields id c = do
    amount ← store_given to_money c.claimed_amount
    km ← store_given to_distance c.distance_km
    update_expense id (expense_changed_as c amount km)

  unfoldable pub approve_expense_request :
      ℕ → ℕ → Amount → Option Text → Time → ExpenseCall (ExpenseRow Amount)
  approve_expense_request id admin amount remark now = do
    kept ← one_row (to_money amount) db_error
    employees ← gets (λ db. db.employees)
    raise_if (not (known admin employees)) db_error
    update_expense id (expense_approved_as admin kept remark now)

  unfoldable pub reject_expense_request :
      ℕ → ℕ → Option Text → Time → ExpenseCall (ExpenseRow Amount)
  reject_expense_request id admin remark now = do
    employees ← gets (λ db. db.employees)
    raise_if (not (known admin employees)) db_error
    update_expense id (expense_rejected_as admin remark now)

  unfoldable pub mark_expense_request_reimbursed : ℕ → ℕ → Time → ExpenseCall (ExpenseRow Amount)
  mark_expense_request_reimbursed id admin now = do
    employees ← gets (λ db. db.employees)
    raise_if (not (known admin employees)) db_error
    update_expense id (expense_reimbursed_as admin now)

  unfoldable pub cancel_expense_request : ℕ → Time → ExpenseCall (ExpenseRow Amount)
  cancel_expense_request id now = update_expense id (expense_cancelled_as now)

-- ===== src/Expense.antt =====
-- Expense requests: internal/service/expense_service.go over internal/repository/expense_repo.go and
-- internal/repository/db/query/expense.sql, with the constraints of migrations/000001_init.up.sql.
-- Listings, statistics and logs are left out. The clock `now` and the key `fresh` that the database
-- makes are arguments.
pub mod Queries
pub mod Service
pub mod Steps
pub mod Inverts
pub mod Creations
pub mod Lifecycle
pub mod Invariant
pub mod Travel
use hrbackend.Prelude.{
  ℕ, ◌+◌, Bool, true, false, not, ◌&&◌, ◌||◌, Option, none, some, List, [], ◌∷◌, leb, ltb,
  if◌then◌else◌, ◌==◌,
}
use hrbackend.Prelude.GoText.{Text, codes, text_eq}
use hrbackend.Prelude.Results.{Result, ok, err}
use hrbackend.Time.{Time}
use hrbackend.Store.{Action, pure, raise_if, one_row, gets, ◌>>=◌, ◌>>◌}
use hrbackend.Store.Table.{Table, select, update, insert}
use hrbackend.Balance.{known}

-- What lies outside the repository: float64 amounts and what a column NUMERIC(12, 2) or NUMERIC(10, 2)
-- keeps of one, if it takes it, and `strings.ToUpper`.
pub record Externals : Type 1 where
  pub Amount : Type 0
  pub nothing : Amount
  pub less : Amount → Amount → Bool
  pub to_money : Amount → Option Amount
  pub to_distance : Amount → Option Amount
  pub to_upper : Text → Text

-- The errors of internal/domain/expense.go, and `db_error` for a query that the database refuses.
pub data ExpenseError : Type 0 where
  invalid_request not_found forbidden state_invalid db_error : ExpenseError

-- `expense_request_status_enum` and `expense_request_category_enum`.
pub data ExpenseStatus : Type 0 where
  pending approved rejected reimbursed cancelled : ExpenseStatus

pub data ExpenseCategory : Type 0 where
  travel meal accommodation office_supplies training client_entertainment other : ExpenseCategory

-- `expense_requests`, less the stamps that no rule reads.
pub record ExpenseRow (Amount : Type 0) : Type 0 where
  pub employee_id : ℕ
  pub created_by_employee_id : ℕ
  pub category : ExpenseCategory
  pub expense_date : Time
  pub merchant_name : Option Text
  pub description : Text
  pub business_purpose : Text
  pub currency : Text
  pub claimed_amount : Amount
  pub approved_amount : Option Amount
  pub travel_mode : Option Text
  pub travel_from : Option Text
  pub travel_to : Option Text
  pub distance_km : Option Amount
  pub status : ExpenseStatus
  pub request_note : Option Text
  pub decision_note : Option Text
  pub decided_by_employee_id : Option ℕ
  pub reimbursed_by_employee_id : Option ℕ
  pub decided_at : Option Time
  pub reimbursed_at : Option Time
  pub cancelled_at : Option Time

pub record ExpenseDb (Amount : Type 0) : Type 0 where
  pub employees : List ℕ
  pub requests : Table (ExpenseRow Amount)

-- `toDBExpenseCategory`, on a text without spaces around it.
unfoldable pub category_of : Text → Option ExpenseCategory
category_of t =
    if text_eq t (codes "travel")
    then some travel
    else if text_eq t (codes "meal")
    then some meal
    else if text_eq t (codes "accommodation")
    then some accommodation
    else if text_eq t (codes "office_supplies")
    then some office_supplies
    else if text_eq t (codes "training")
    then some training
    else if text_eq t (codes "client_entertainment")
    then some client_entertainment
    else if text_eq t (codes "other")
    then some other
    else none

abbrev pub is_travel : ExpenseCategory → Bool
is_travel travel = true
is_travel _ = false

-- A test of a value that may be missing: one that is missing passes.
abbrev pub fails_for : {A : Type 0} → Option A → (A → Bool) → Bool
fails_for none test = false
fails_for (some a) test = test a

-- `currency ~ '^[A-Z]{3}$'`, and `btrim(t) <> ''`.
abbrev pub all_upper : Text → Bool
all_upper [] = true
all_upper (c ∷ cs) = leb 65 c && leb c 90 && all_upper cs

abbrev pub three_letters : Text → Bool
three_letters (a ∷ b ∷ c ∷ []) = all_upper (a ∷ b ∷ c ∷ [])
three_letters _ = false

abbrev pub not_blank : Text → Bool
not_blank [] = false
not_blank (c ∷ cs) = not (c == 32) || not_blank cs

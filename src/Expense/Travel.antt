-- ===== src/Expense/Travel.antt =====
-- The travel fields of an expense request: `normalizeUpdateExpenseParams` of
-- internal/service/expense_service.go.
use hrbackend.Params.{uuid_nil, is_given, coalesce_null}
use hrbackend.Prelude.{◌≢◌, ℕ, ◌≡◌, refl, ◌||◌, true, false, Option, none, some, arith}
use hrbackend.Prelude.GoText.{Text, trim_space}
use hrbackend.Prelude.Results.{err}
use hrbackend.Time.{Time}
use hrbackend.Store.{exec_tx}
use hrbackend.Store.Table.{select}
use hrbackend.Expense.{
  Externals, invalid_request, ExpenseCategory, ExpenseRow, ExpenseDb, category_of, is_travel,
}
use hrbackend.Expense.Queries.{get_expense_request_for_update}
use hrbackend.Expense.Service.{
  is_final, UpdateExpenseParams, normalize_update_expense, changes_refused, change_expense,
  update_expense_request_by_admin, trimmed_ptr,
}

given-coalesce_null :
    {A : Type 0} (new old : Option A)
    → is_given old ≡ true
    → is_given (coalesce_null new old) ≡ true
given-coalesce_null none old h = h
given-coalesce_null (some a) old h = refl

module _ (X : Externals) where
  open X use {Amount}

  travel_kept :
      (u : UpdateExpenseParams X) (r : ExpenseRow Amount)
      → is_given r.travel_mode
          || is_given r.travel_from
          || is_given r.travel_to
          || is_given r.distance_km
        ≡ true
      → is_given (coalesce_null (trimmed_ptr u.travel_mode) r.travel_mode)
          || is_given (coalesce_null (trimmed_ptr u.travel_from) r.travel_from)
          || is_given (coalesce_null (trimmed_ptr u.travel_to) r.travel_to)
          || is_given (coalesce_null u.distance_km r.distance_km)
        ≡ true
  travel_kept u r h = ground (
    arith,
    given-coalesce_null (trimmed_ptr u.travel_mode) r.travel_mode,
    given-coalesce_null (trimmed_ptr u.travel_from) r.travel_from,
    given-coalesce_null (trimmed_ptr u.travel_to) r.travel_to,
    given-coalesce_null u.distance_km r.distance_km,
  )

  category_refused :
      (u : UpdateExpenseParams X) (now : Time) (r : ExpenseRow Amount) (c : ExpenseCategory)
      → is_given r.travel_mode
          || is_given r.travel_from
          || is_given r.travel_to
          || is_given r.distance_km
        ≡ true
      → is_travel c ≡ false
      → changes_refused X r u now (some c) ≡ true
  unfolding changes_refused
  category_refused u now r c ht hn = ground (arith, travel_kept u r ht)

  normalize_refused :
      (u : UpdateExpenseParams X) (now : Time) (db : ExpenseDb Amount) (r : ExpenseRow Amount)
      (t : Text) (c : ExpenseCategory)
      → is_given r.travel_mode
          || is_given r.travel_from
          || is_given r.travel_to
          || is_given r.distance_km
        ≡ true
      → u.category ≡ some t
      → category_of (trim_space t) ≡ some c
      → is_travel c ≡ false
      → (normalize_update_expense X r u now db).0 ≡ err invalid_request
  unfolding normalize_update_expense
  normalize_refused u now db r t c ht hu hc hn = ground (arith, category_refused u now r c ht hn)

  -- An update cannot move an expense request out of the category "travel" once one of its travel fields
  -- is set: the travel fields cannot be cleared. Whatever else an administrator's update that names
  -- another valid category asks for, it is refused as invalid, and the database stays as it was.
  -- Conditions: neither key is nil, and the request is neither reimbursed nor cancelled.
  pub travel_category_sticks :
      (admin id : ℕ) (u : UpdateExpenseParams X) (now : Time) (db : ExpenseDb Amount)
      (r : ExpenseRow Amount) (t : Text) (c : ExpenseCategory)
      → admin ≢ uuid_nil
      → id ≢ uuid_nil
      → select id db.requests ≡ some r
      → is_final r.status ≡ false
      → is_given r.travel_mode
          || is_given r.travel_from
          || is_given r.travel_to
          || is_given r.distance_km
        ≡ true
      → u.category ≡ some t
      → category_of (trim_space t) ≡ some c
      → is_travel c ≡ false
      → update_expense_request_by_admin X admin id u now db ≡ (err invalid_request, db)
  unfolding update_expense_request_by_admin exec_tx get_expense_request_for_update change_expense
  travel_category_sticks admin id u now db r t c ha hi hs open_ ht hu hc hn =
      let refused = normalize_refused u now db r t c ht hu hc hn in ground (arith, refused)

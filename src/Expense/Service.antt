-- ===== src/Expense/Service.antt =====
-- The operations of internal/service/expense_service.go that change expense requests.
use hrbackend.Params.{uuid_nil, is_given, coalesce, coalesce_null, trimmed, midnight_of}
use hrbackend.Prelude.{
  ℕ, ◌+◌, Bool, true, false, not, ◌&&◌, ◌||◌, Option, none, some, [], ◌∷◌, ltb, if◌then◌else◌, ◌==◌,
}
use hrbackend.Prelude.GoText.{Text, codes, text_eq, normalized, trim_space}
use hrbackend.Prelude.Results.{ok, err}
use hrbackend.Time.{Time, date_only}
use hrbackend.Store.{pure, raise_if, one_row, ◌>>=◌, ◌>>◌, exec_tx}
use hrbackend.Expense.{
  Externals, invalid_request, forbidden, state_invalid, ExpenseStatus, pending, approved,
  reimbursed, cancelled, ExpenseCategory, ExpenseRow, category_of, is_travel, fails_for,
}
use hrbackend.Expense.Queries.{
  ExpenseCall, NewExpense, ExpenseChanges, insert_expense_request, get_expense_request_for_update,
  update_expense_request_editable_fields, approve_expense_request, reject_expense_request,
  mark_expense_request_reimbursed, cancel_expense_request,
}

-- `len` of a string: the bytes of its UTF-8 form.
abbrev pub byte_length : Text → ℕ
byte_length [] = 0
byte_length (c ∷ cs) =
    (if ltb c 0x80 then 1 else if ltb c 0x800 then 2 else if ltb c 0x10000 then 3 else 4)
    + byte_length cs

-- `trimmedPtr`.
abbrev pub trimmed_ptr : Option Text → Option Text
trimmed_ptr none = none
trimmed_ptr (some t) = if text_eq (trim_space t) [] then none else some (trim_space t)

abbrev pub is_blank : Text → Bool
is_blank t = text_eq (trim_space t) []

abbrev pub is_pending : ExpenseStatus → Bool
is_pending pending = true
is_pending _ = false

abbrev pub is_approved_expense : ExpenseStatus → Bool
is_approved_expense approved = true
is_approved_expense _ = false

-- Reimbursed or cancelled.
abbrev pub is_final : ExpenseStatus → Bool
is_final reimbursed = true
is_final cancelled = true
is_final _ = false

module _ (X : Externals) where
  open X use {Amount, nothing, less, to_upper}

  pub record CreateExpenseParams : Type 0 where
    pub employee_id : ℕ
    pub created_by_employee_id : ℕ
    pub category : Text
    pub expense_date : Time
    pub merchant_name : Option Text
    pub description : Text
    pub business_purpose : Text
    pub currency : Text
    pub claimed_amount : Amount
    pub travel_mode : Option Text
    pub travel_from : Option Text
    pub travel_to : Option Text
    pub distance_km : Option Amount
    pub request_note : Option Text

  pub record UpdateExpenseParams : Type 0 where
    pub category : Option Text
    pub expense_date : Option Time
    pub merchant_name : Option Text
    pub description : Option Text
    pub business_purpose : Option Text
    pub currency : Option Text
    pub claimed_amount : Option Amount
    pub travel_mode : Option Text
    pub travel_from : Option Text
    pub travel_to : Option Text
    pub distance_km : Option Amount
    pub request_note : Option Text

  pub record DecideExpenseParams : Type 0 where
    pub decision : Text
    pub approved_amount : Option Amount
    pub decision_note : Option Text

  -- `strings.TrimSpace(strings.ToUpper(currency))`.
  abbrev pub currency_of : Text → Text
  currency_of t = trim_space (to_upper t)

  abbrev pub given_currency : Option Text → Option Text
  given_currency none = none
  given_currency (some t) = some (currency_of t)

  -- The tests of `normalizeCreateExpenseParams` that follow the one of the category: each refuses with
  -- the same error.
  unfoldable pub claim_refused : CreateExpenseParams → Time → ExpenseCategory → Bool
  claim_refused p now category =
      (p.expense_date == 0)
      || ltb (date_only now) (date_only p.expense_date)
      || is_blank p.description
      || is_blank p.business_purpose
      || not (byte_length (currency_of p.currency) == 3)
      || not (less nothing p.claimed_amount)
      || (if is_travel category
          then fails_for p.distance_km (λ d. less d nothing)
          else is_given (trimmed_ptr p.travel_mode)
            || is_given (trimmed_ptr p.travel_from)
            || is_given (trimmed_ptr p.travel_to)
            || is_given p.distance_km)

  -- `normalizeCreateExpenseParams`.
  unfoldable pub normalize_create_expense :
      CreateExpenseParams → Time → ExpenseCall X (NewExpense X)
  normalize_create_expense p now = do
    raise_if ((p.employee_id == uuid_nil) || (p.created_by_employee_id == uuid_nil)) invalid_request
    category ← one_row (category_of (trim_space p.category)) invalid_request
    raise_if (claim_refused p now category) invalid_request
    pure (record {
      employee_id = p.employee_id;
      created_by_employee_id = p.created_by_employee_id;
      category = category;
      expense_date = date_only p.expense_date;
      merchant_name = trimmed_ptr p.merchant_name;
      description = trim_space p.description;
      business_purpose = trim_space p.business_purpose;
      currency = currency_of p.currency;
      claimed_amount = p.claimed_amount;
      travel_mode = trimmed_ptr p.travel_mode;
      travel_from = trimmed_ptr p.travel_from;
      travel_to = trimmed_ptr p.travel_to;
      distance_km = p.distance_km;
      request_note = trimmed_ptr p.request_note;
    })

  -- The category that an update asks for.
  abbrev pub given_category : Option Text → ExpenseCall X (Option ExpenseCategory)
  given_category none db = (ok none, db)
  given_category (some t) db = elim (category_of (trim_space t)) [
    | none ↦ (err invalid_request, db)
    | some c ↦ (ok (some c), db)
  ]

  -- The tests of `normalizeUpdateExpenseParams` that follow the one of the category: each refuses with
  -- the same error.
  unfoldable pub changes_refused :
      ExpenseRow Amount → UpdateExpenseParams → Time → Option ExpenseCategory → Bool
  changes_refused current u now category =
      fails_for u.expense_date (λ d. (d == 0) || ltb (date_only now) (date_only d))
      || fails_for u.description is_blank
      || fails_for u.business_purpose is_blank
      || fails_for u.currency (λ t. not (byte_length (currency_of t) == 3))
      || fails_for u.claimed_amount (λ a. not (less nothing a))
      || fails_for current.approved_amount
          (λ a. less (coalesce u.claimed_amount current.claimed_amount) a)
      || fails_for u.distance_km (λ d. less d nothing)
      || (not (is_travel (coalesce category current.category))
          && (is_given (coalesce_null (trimmed_ptr u.travel_mode) current.travel_mode)
              || is_given (coalesce_null (trimmed_ptr u.travel_from) current.travel_from)
              || is_given (coalesce_null (trimmed_ptr u.travel_to) current.travel_to)
              || is_given (coalesce_null u.distance_km current.distance_km)))

  -- `normalizeUpdateExpenseParams`.
  unfoldable pub normalize_update_expense :
      ExpenseRow Amount → UpdateExpenseParams → Time → ExpenseCall X (ExpenseChanges X)
  normalize_update_expense current u now = do
    category ← given_category u.category
    raise_if (changes_refused current u now category) invalid_request
    pure (record {
      category = category;
      expense_date = midnight_of u.expense_date;
      merchant_name = trimmed_ptr u.merchant_name;
      description = trimmed u.description;
      business_purpose = trimmed u.business_purpose;
      currency = given_currency u.currency;
      claimed_amount = u.claimed_amount;
      travel_mode = trimmed_ptr u.travel_mode;
      travel_from = trimmed_ptr u.travel_from;
      travel_to = trimmed_ptr u.travel_to;
      distance_km = u.distance_km;
      request_note = trimmed_ptr u.request_note;
    })

  -- The part that the two creations share.
  unfoldable pub create_expense : ℕ → CreateExpenseParams → Time → ExpenseCall X ℕ
  create_expense fresh p now = do
    n ← normalize_create_expense p now
    insert_expense_request X fresh n

  unfoldable pub create_expense_request : ℕ → ℕ → CreateExpenseParams → Time → ExpenseCall X ℕ
  create_expense_request fresh employee p now = do
    raise_if (employee == uuid_nil) invalid_request
    create_expense fresh (record p { employee_id = employee; created_by_employee_id = employee })
        now

  unfoldable pub create_expense_request_by_admin :
      ℕ → ℕ → CreateExpenseParams → Time → ExpenseCall X ℕ
  create_expense_request_by_admin fresh admin p now = do
    raise_if ((admin == uuid_nil) || (p.employee_id == uuid_nil)) invalid_request
    create_expense fresh (record p { created_by_employee_id = admin }) now

  -- The part of the two updates behind their guards.
  unfoldable pub change_expense :
      ℕ → ExpenseRow Amount → UpdateExpenseParams → Time → ExpenseCall X (ExpenseRow Amount)
  change_expense id current u now = do
    next ← normalize_update_expense current u now
    update_expense_request_editable_fields X id next

  unfoldable pub update_expense_request :
      ℕ → ℕ → UpdateExpenseParams → Time → ExpenseCall X (ExpenseRow Amount)
  update_expense_request employee id u now = do
    raise_if ((employee == uuid_nil) || (id == uuid_nil)) invalid_request
    exec_tx (do
      current ← get_expense_request_for_update X id
      raise_if (not (current.employee_id == employee)) forbidden
      raise_if (not (is_pending current.status)) state_invalid
      change_expense id current u now)

  unfoldable pub update_expense_request_by_admin :
      ℕ → ℕ → UpdateExpenseParams → Time → ExpenseCall X (ExpenseRow Amount)
  update_expense_request_by_admin admin id u now = do
    raise_if ((admin == uuid_nil) || (id == uuid_nil)) invalid_request
    exec_tx (do
      current ← get_expense_request_for_update X id
      raise_if (is_final current.status) state_invalid
      change_expense id current u now)

  -- `DeleteExpenseRequest`, which cancels.
  unfoldable pub delete_expense_request : ℕ → ℕ → Time → ExpenseCall X (ExpenseRow Amount)
  delete_expense_request employee id now = do
    raise_if ((employee == uuid_nil) || (id == uuid_nil)) invalid_request
    exec_tx (do
      current ← get_expense_request_for_update X id
      raise_if (not (current.employee_id == employee)) forbidden
      raise_if (not (is_pending current.status)) state_invalid
      cancel_expense_request X id now)

  -- The approving branch of `DecideExpenseRequestByAdmin`.
  unfoldable pub approve_claim :
      ℕ → ℕ → ExpenseRow Amount → DecideExpenseParams → Time → ExpenseCall X (ExpenseRow Amount)
  approve_claim admin id current p now =
      let amount = coalesce p.approved_amount current.claimed_amount in
      do
        raise_if (less amount nothing || less current.claimed_amount amount) invalid_request
        approve_expense_request X id admin amount (trimmed_ptr p.decision_note) now

  unfoldable pub decide_expense_request_by_admin :
      ℕ → ℕ → DecideExpenseParams → Time → ExpenseCall X (ExpenseRow Amount)
  decide_expense_request_by_admin admin id p now =
      let approve = text_eq (normalized p.decision) (codes "approve") in
      let reject = text_eq (normalized p.decision) (codes "reject") in
      do
        raise_if ((admin == uuid_nil) || (id == uuid_nil)) invalid_request
        raise_if (not approve && not reject) invalid_request
        exec_tx (do
          current ← get_expense_request_for_update X id
          raise_if (not (is_pending current.status)) state_invalid
          (if approve
              then approve_claim admin id current p now
              else reject_expense_request X id admin (trimmed_ptr p.decision_note) now))

  unfoldable pub cancel_expense_request_by_admin : ℕ → ℕ → Time → ExpenseCall X (ExpenseRow Amount)
  cancel_expense_request_by_admin admin id now = do
    raise_if ((admin == uuid_nil) || (id == uuid_nil)) invalid_request
    exec_tx (do
      current ← get_expense_request_for_update X id
      raise_if (is_final current.status) state_invalid
      cancel_expense_request X id now)

  unfoldable pub mark_expense_request_reimbursed_by_admin :
      ℕ → ℕ → Time → ExpenseCall X (ExpenseRow Amount)
  mark_expense_request_reimbursed_by_admin admin id now = do
    raise_if ((admin == uuid_nil) || (id == uuid_nil)) invalid_request
    exec_tx (do
      current ← get_expense_request_for_update X id
      raise_if (not (is_approved_expense current.status)) state_invalid
      mark_expense_request_reimbursed X id admin now)

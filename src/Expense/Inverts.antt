-- ===== src/Expense/Inverts.antt =====
-- The operations of internal/service/expense_service.go that succeed, each as a step on the requests.
use hrbackend.Params.{coalesce}
use hrbackend.Prelude.{
  ℕ, ◌≡◌, refl, true, false, Option, none, some, arith, Option-cases, Bool-cases, inl, inr,
}
use hrbackend.Prelude.GoText.{Text, codes, text_eq, normalized}
use hrbackend.Prelude.Results.{ok, Result-cases}
use hrbackend.Time.{Time}
use hrbackend.Store.{exec_tx}
use hrbackend.Store.Table.{select, update}
use hrbackend.Expense.{Externals, pending, ExpenseRow, ExpenseDb}
use hrbackend.Expense.Queries.{
  ExpenseChanges, row_valid, expense_changed_as, expense_approved_as, expense_rejected_as,
  expense_reimbursed_as, expense_cancelled_as, store_given, get_expense_request_for_update,
  update_expense, update_expense_request_editable_fields, approve_expense_request,
  reject_expense_request, mark_expense_request_reimbursed, cancel_expense_request,
}
use hrbackend.Expense.Service.{
  UpdateExpenseParams, DecideExpenseParams, trimmed_ptr, is_final, normalize_update_expense,
  change_expense, update_expense_request, update_expense_request_by_admin, delete_expense_request,
  approve_claim, decide_expense_request_by_admin, cancel_expense_request_by_admin,
  mark_expense_request_reimbursed_by_admin,
}
use hrbackend.Expense.Steps.{ExpenseStep, changes, approves, rejects, reimburses, cancels}

module _ (X : Externals) where
  open X use {Amount, to_money, to_distance}

  -- An update that succeeds found a row, and wrote one that meets the constraints.
  update_inverts :
      (id : ℕ) (f : ExpenseRow Amount → ExpenseRow Amount) (r r' : ExpenseRow Amount)
      (db db' : ExpenseDb Amount)
      → select id db.requests ≡ some r
      → update_expense X id f db ≡ (ok r', db')
      → (row_valid X (f r) ≡ true) × (db' ≡ record db { requests = update id f db.requests })
  unfolding update_expense
  update_inverts id f r r' db db' h e = (ground arith, ground arith)

  pub store_given_keeps :
      (column : Amount → Option Amount) (a : Option Amount) (db : ExpenseDb Amount)
      → (store_given X column a db).1 ≡ db
  store_given_keeps column none db = refl
  store_given_keeps column (some a) db = ground arith

  normalize_update_expense_keeps :
      (r : ExpenseRow Amount) (u : UpdateExpenseParams X) (now : Time) (db : ExpenseDb Amount)
      → (normalize_update_expense X r u now db).1 ≡ db
  unfolding normalize_update_expense
  normalize_update_expense_keeps r u now db = ground arith

  write_step :
      (id : ℕ) (r r' : ExpenseRow Amount) (c : ExpenseChanges X) (db db' : ExpenseDb Amount)
      → select id db.requests ≡ some r
      → is_final r.status ≡ false
      → update_expense_request_editable_fields X id c db ≡ (ok r', db')
      → ExpenseStep X db db'
  unfolding update_expense_request_editable_fields
  write_step id r r' c db db' h open_ e =
      let keeps = store_given_keeps to_money c.claimed_amount db in
      let keeps' = store_given_keeps to_distance c.distance_km db in
      elim (Result-cases (store_given X to_money c.claimed_amount db).0) [
        | inl (f, hf) ↦ ground arith
        | inr (amount, ha) ↦ elim (Result-cases (store_given X to_distance c.distance_km db).0) [
          | inl (f, hf) ↦ ground arith
          | inr (km, hk) ↦
              let written : update_expense X id (expense_changed_as X c amount km) db
                  ≡ (ok r', db') =
                ground arith in
              let (v, edb) =
                update_inverts id (expense_changed_as X c amount km) r r' db db' h written in
              changes id r c amount km h open_ v edb
        ]
      ]

  change_step :
      (id : ℕ) (r r' : ExpenseRow Amount) (u : UpdateExpenseParams X) (now : Time)
      (db db' : ExpenseDb Amount)
      → select id db.requests ≡ some r
      → is_final r.status ≡ false
      → change_expense X id r u now db ≡ (ok r', db')
      → ExpenseStep X db db'
  unfolding change_expense
  change_step id r r' u now db db' h open_ e =
      let keeps = normalize_update_expense_keeps r u now db in
      elim (Result-cases (normalize_update_expense X r u now db).0) [
        | inl (f, hf) ↦ ground arith
        | inr (c, hc) ↦ write_step id r r' c db db' h open_ (ground arith)
      ]

  pub update_expense_request_step :
      (employee id : ℕ) (u : UpdateExpenseParams X) (now : Time) (db db' : ExpenseDb Amount)
      (r' : ExpenseRow Amount)
      → update_expense_request X employee id u now db ≡ (ok r', db')
      → ExpenseStep X db db'
  unfolding update_expense_request exec_tx get_expense_request_for_update
  update_expense_request_step employee id u now db db' r' e =
      elim (Option-cases (select id db.requests)) [
        | inl h ↦ ground arith
        | inr (r, h) ↦ change_step id r r' u now db db' h (ground arith) (ground arith)
      ]

  pub update_expense_request_by_admin_step :
      (admin id : ℕ) (u : UpdateExpenseParams X) (now : Time) (db db' : ExpenseDb Amount)
      (r' : ExpenseRow Amount)
      → update_expense_request_by_admin X admin id u now db ≡ (ok r', db')
      → ExpenseStep X db db'
  unfolding update_expense_request_by_admin exec_tx get_expense_request_for_update
  update_expense_request_by_admin_step admin id u now db db' r' e =
      elim (Option-cases (select id db.requests)) [
        | inl h ↦ ground arith
        | inr (r, h) ↦ change_step id r r' u now db db' h (ground arith) (ground arith)
      ]

  cancel_step :
      (id : ℕ) (r r' : ExpenseRow Amount) (now : Time) (db db' : ExpenseDb Amount)
      → select id db.requests ≡ some r
      → is_final r.status ≡ false
      → cancel_expense_request X id now db ≡ (ok r', db')
      → ExpenseStep X db db'
  unfolding cancel_expense_request
  cancel_step id r r' now db db' h open_ e =
      let (v, edb) = update_inverts id (expense_cancelled_as X now) r r' db db' h e in
      cancels id r now h open_ v edb

  pub delete_expense_request_step :
      (employee id : ℕ) (now : Time) (db db' : ExpenseDb Amount) (r' : ExpenseRow Amount)
      → delete_expense_request X employee id now db ≡ (ok r', db')
      → ExpenseStep X db db'
  unfolding delete_expense_request exec_tx get_expense_request_for_update
  delete_expense_request_step employee id now db db' r' e =
      elim (Option-cases (select id db.requests)) [
        | inl h ↦ ground arith
        | inr (r, h) ↦ cancel_step id r r' now db db' h (ground arith) (ground arith)
      ]

  pub cancel_expense_request_by_admin_step :
      (admin id : ℕ) (now : Time) (db db' : ExpenseDb Amount) (r' : ExpenseRow Amount)
      → cancel_expense_request_by_admin X admin id now db ≡ (ok r', db')
      → ExpenseStep X db db'
  unfolding cancel_expense_request_by_admin exec_tx get_expense_request_for_update
  cancel_expense_request_by_admin_step admin id now db db' r' e =
      elim (Option-cases (select id db.requests)) [
        | inl h ↦ ground arith
        | inr (r, h) ↦ cancel_step id r r' now db db' h (ground arith) (ground arith)
      ]

  pub mark_expense_request_reimbursed_by_admin_step :
      (admin id : ℕ) (now : Time) (db db' : ExpenseDb Amount) (r' : ExpenseRow Amount)
      → mark_expense_request_reimbursed_by_admin X admin id now db ≡ (ok r', db')
      → ExpenseStep X db db'
  unfolding mark_expense_request_reimbursed_by_admin exec_tx get_expense_request_for_update
      mark_expense_request_reimbursed
  mark_expense_request_reimbursed_by_admin_step admin id now db db' r' e =
      elim (Option-cases (select id db.requests)) [
        | inl h ↦ ground arith
        | inr (r, h) ↦
            let (v, edb) =
              update_inverts id (expense_reimbursed_as X admin now) r r' db db' h (ground arith) in
            reimburses id r admin now h (ground arith) v edb
      ]

  approve_step :
      (admin id : ℕ) (r r' : ExpenseRow Amount) (p : DecideExpenseParams X) (now : Time)
      (db db' : ExpenseDb Amount)
      → select id db.requests ≡ some r
      → r.status ≡ pending
      → approve_claim X admin id r p now db ≡ (ok r', db')
      → ExpenseStep X db db'
  unfolding approve_claim approve_expense_request
  approve_step admin id r r' p now db db' h st e =
      elim (Option-cases (to_money (coalesce p.approved_amount r.claimed_amount))) [
        | inl hn ↦ ground arith
        | inr (kept, hk) ↦
            let (v, edb) =
              update_inverts id (expense_approved_as X admin kept (trimmed_ptr p.decision_note) now)
                r r' db db' h (ground arith) in
            approves id r admin kept (trimmed_ptr p.decision_note) now h st v edb
      ]

  reject_step :
      (admin id : ℕ) (r r' : ExpenseRow Amount) (remark : Option Text) (now : Time)
      (db db' : ExpenseDb Amount)
      → select id db.requests ≡ some r
      → r.status ≡ pending
      → reject_expense_request X id admin remark now db ≡ (ok r', db')
      → ExpenseStep X db db'
  unfolding reject_expense_request
  reject_step admin id r r' remark now db db' h st e =
      let (v, edb) =
        update_inverts id (expense_rejected_as X admin remark now) r r' db db' h (ground arith) in
      rejects id r admin remark now h st v edb

  pub decide_expense_request_by_admin_step :
      (admin id : ℕ) (p : DecideExpenseParams X) (now : Time) (db db' : ExpenseDb Amount)
      (r' : ExpenseRow Amount)
      → decide_expense_request_by_admin X admin id p now db ≡ (ok r', db')
      → ExpenseStep X db db'
  unfolding decide_expense_request_by_admin exec_tx get_expense_request_for_update
  decide_expense_request_by_admin_step admin id p now db db' r' e =
      elim (Option-cases (select id db.requests)) [
        | inl h ↦ ground arith
        | inr (r, h) ↦ elim (Bool-cases (text_eq (normalized p.decision) (codes "approve"))) [
          | inl ha ↦ approve_step admin id r r' p now db db' h (ground arith) (ground arith)
          | inr ha ↦
              reject_step admin id r r' (trimmed_ptr p.decision_note) now db db' h (ground arith)
                (ground arith)
        ]
      ]

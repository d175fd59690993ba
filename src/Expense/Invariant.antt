-- ===== src/Expense/Invariant.antt =====
-- What every sequence of calls of internal/service/expense_service.go keeps of the expense requests.
use hrbackend.Prelude.{
  ℕ, ◌≡◌, ◌≢◌, ◌⊎◌, refl, true, false, Option, none, some, List, [], ◌∷◌, arith, ◌==◌, Bool-cases,
  inl, inr, subst, sym,
}
use hrbackend.Time.{Time}
use hrbackend.Store.Table.{
  select, update, AllRows, HasKeys, update-HasKeys, insert-HasKeys, insert-AllRows, select-AllRows,
  update-AllRows, select-update, select-insert,
}
use hrbackend.Expense.{
  Externals, ExpenseStatus, pending, approved, rejected, reimbursed, cancelled, ExpenseRow,
  ExpenseDb,
}
use hrbackend.Expense.Queries.{
  ExpenseChanges, row_valid, claimed_as, expense_changed_as, expense_approved_as,
  expense_rejected_as, expense_reimbursed_as, expense_cancelled_as,
}
use hrbackend.Expense.Service.{is_final}
use hrbackend.Expense.Steps.{
  ExpenseStep, idle, claims, changes, approves, rejects, reimburses, cancels,
}
use hrbackend.Expense.Lifecycle.{ExpenseRequest, perform, perform-ExpenseStep}

-- What the record of a request in each status holds.
abbrev pub StageHolds : {Amount : Type 0} → ExpenseStatus → ExpenseRow Amount → Type 0
StageHolds pending r =
    (r.approved_amount ≡ none)
    × (r.decided_by_employee_id ≡ none)
    × (r.reimbursed_by_employee_id ≡ none)
    × (r.cancelled_at ≡ none)
StageHolds approved r =
    (r.approved_amount ≢ none)
    × (r.decided_by_employee_id ≢ none)
    × (r.reimbursed_by_employee_id ≡ none)
    × (r.cancelled_at ≡ none)
StageHolds rejected r =
    (r.approved_amount ≡ none)
    × (r.decided_by_employee_id ≢ none)
    × (r.reimbursed_by_employee_id ≡ none)
    × (r.cancelled_at ≡ none)
StageHolds reimbursed r =
    (r.approved_amount ≢ none)
    × (r.decided_by_employee_id ≢ none)
    × (r.reimbursed_by_employee_id ≢ none)
    × (r.cancelled_at ≡ none)
StageHolds cancelled r = (r.reimbursed_by_employee_id ≡ none) × (r.cancelled_at ≢ none)

-- The statuses that a request may pass between in one call.
pub data Follows : ExpenseStatus → ExpenseStatus → Type 0 where
  stays : {s : ExpenseStatus} → Follows s s
  follows_approved : Follows pending approved
  follows_rejected : Follows pending rejected
  follows_reimbursed : Follows approved reimbursed
  follows_cancelled : {s : ExpenseStatus} → is_final s ≡ false → Follows s cancelled

-- What stays of a request: it is still there, for the same employee and by the same author, its status
-- is the old one or follows it, and nothing of it changes once it is reimbursed or cancelled.
abbrev pub Continues : {Amount : Type 0} → ExpenseRow Amount → Option (ExpenseRow Amount) → Type 0
Continues r none = ⊥
Continues r (some s) =
    Follows r.status s.status
    × (s.employee_id ≡ r.employee_id)
    × (s.created_by_employee_id ≡ r.created_by_employee_id)
    × ((is_final r.status ≡ false) ⊎ (s ≡ r))

module _ (X : Externals) where
  open X use {Amount}

  abbrev pub IsWellFormed : ExpenseRow Amount → Type 0
  IsWellFormed r = (row_valid X r ≡ true) × StageHolds r.status r

  -- Keys are unique and every request is well-formed.
  abbrev pub IsSound : ExpenseDb Amount → Type 0
  IsSound db = HasKeys db.requests × AllRows IsWellFormed db.requests

  changed-StageHolds :
      (s : ExpenseStatus) (c : ExpenseChanges X) (amount km : Option Amount) (r : ExpenseRow Amount)
      → StageHolds s r
      → StageHolds s (expense_changed_as X c amount km r)
  changed-StageHolds pending c amount km r h = h
  changed-StageHolds approved c amount km r h = h
  changed-StageHolds rejected c amount km r h = h
  changed-StageHolds reimbursed c amount km r h = h
  changed-StageHolds cancelled c amount km r h = h

  cancelled-StageHolds :
      (s : ExpenseStatus) (now : Time) (r : ExpenseRow Amount)
      → is_final s ≡ false
      → StageHolds s r
      → StageHolds cancelled (expense_cancelled_as X now r)
  cancelled-StageHolds pending now r f (_, _, b, _) = (b, ground arith)
  cancelled-StageHolds approved now r f (_, _, b, _) = (b, ground arith)
  cancelled-StageHolds rejected now r f (_, _, b, _) = (b, ground arith)
  cancelled-StageHolds reimbursed now r f h = ground arith
  cancelled-StageHolds cancelled now r f h = ground arith

  revise-IsSound :
      (db : ExpenseDb Amount) (k : ℕ) (f : ExpenseRow Amount → ExpenseRow Amount)
      (r : ExpenseRow Amount)
      → IsSound db
      → select k db.requests ≡ some r
      → row_valid X (f r) ≡ true
      → (StageHolds r.status r → StageHolds (f r).status (f r))
      → IsSound (record db { requests = update k f db.requests })
  revise-IsSound db k f r (hk, ha) h v w = (
    update-HasKeys k f db.requests hk,
    update-AllRows IsWellFormed k f db.requests r hk ha h
        (v, w (select-AllRows IsWellFormed k db.requests r ha h).1),
  )

  step-IsSound : (db db' : ExpenseDb Amount) → ExpenseStep X db db' → IsSound db → IsSound db'
  step-IsSound db db' (idle e) s = subst IsSound (sym e) s
  step-IsSound db db' (claims k n amount km h v e) (hk, ha) = subst IsSound (sym e) (
    insert-HasKeys k (claimed_as X n amount km) db.requests h hk,
    insert-AllRows IsWellFormed k (claimed_as X n amount km) db.requests
        (v, (refl, refl, refl, refl)) ha,
  )
  step-IsSound db db' (changes k r c amount km h open_ v e) s = subst IsSound (sym e) (
      revise-IsSound db k (expense_changed_as X c amount km) r s h v
        (changed-StageHolds r.status c amount km r))
  step-IsSound db db' (approves k r admin amount remark now h st v e) s = subst IsSound (sym e) (
      revise-IsSound db k (expense_approved_as X admin amount remark now) r s h v (
        subst
          (λ x.
            StageHolds x r → StageHolds approved (expense_approved_as X admin amount remark now r))
          (sym st) (λ (_, _, b, c). (ground arith, ground arith, b, c))))
  step-IsSound db db' (rejects k r admin remark now h st v e) s = subst IsSound (sym e) (
      revise-IsSound db k (expense_rejected_as X admin remark now) r s h v (
        subst (λ x. StageHolds x r → StageHolds rejected (expense_rejected_as X admin remark now r))
          (sym st) (λ (a, _, b, c). (a, ground arith, b, c))))
  step-IsSound db db' (reimburses k r admin now h st v e) s = subst IsSound (sym e) (
      revise-IsSound db k (expense_reimbursed_as X admin now) r s h v (
        subst (λ x. StageHolds x r → StageHolds reimbursed (expense_reimbursed_as X admin now r))
          (sym st) (λ (a, d, _, c). (a, d, ground arith, c))))
  step-IsSound db db' (cancels k r now h open_ v e) s = subst IsSound (sym e) (
      revise-IsSound db k (expense_cancelled_as X now) r s h v
        (cancelled-StageHolds r.status now r open_))

  Continues-same : (r : ExpenseRow Amount) → Continues r (some r)
  Continues-same r = (stays, refl, refl, inr refl)

  revise-Continues :
      (db db' : ExpenseDb Amount) (k id : ℕ) (f : ExpenseRow Amount → ExpenseRow Amount)
      (r s : ExpenseRow Amount)
      → db' ≡ record db { requests = update k f db.requests }
      → select k db.requests ≡ some s
      → Continues s (some (f s))
      → select id db.requests ≡ some r
      → Continues r (select id db'.requests)
  revise-Continues db db' k id f r s e hs c h =
      subst (λ d. Continues r (select id d.requests)) (sym e)
        (elim (Bool-cases (k == id)) [
          | inl eq ↦
              subst (Continues r) {x = some (f s)}
                (ground (arith, select-update k id f db.requests))
                (subst (λ x. Continues x (some (f s))) {x = s} {y = r} (ground arith) c)
          | inr ne ↦
              subst (Continues r) {x = some r} (ground (arith, select-update k id f db.requests))
                (Continues-same r)
        ])

  step-Continues :
      (db db' : ExpenseDb Amount) (id : ℕ) (r : ExpenseRow Amount)
      → ExpenseStep X db db'
      → select id db.requests ≡ some r
      → Continues r (select id db'.requests)
  step-Continues db db' id r (idle e) h =
      subst (Continues r) {x = some r} (ground arith) (Continues-same r)
  step-Continues db db' id r (claims k n amount km free v e) h =
      subst (Continues r) {x = some r}
        (ground (arith, select-insert k id (claimed_as X n amount km) db.requests))
        (Continues-same r)
  step-Continues db db' id r (changes k s c amount km hs open_ v e) h =
      revise-Continues db db' k id (expense_changed_as X c amount km) r s e hs
        (stays, refl, refl, inl open_) h
  step-Continues db db' id r (approves k s admin amount remark now hs st v e) h =
      revise-Continues db db' k id (expense_approved_as X admin amount remark now) r s e hs
        (subst (λ x. Follows x approved) (sym st) follows_approved, refl, refl, inl (ground arith))
        h
  step-Continues db db' id r (rejects k s admin remark now hs st v e) h =
      revise-Continues db db' k id (expense_rejected_as X admin remark now) r s e hs
        (subst (λ x. Follows x rejected) (sym st) follows_rejected, refl, refl, inl (ground arith))
        h
  step-Continues db db' id r (reimburses k s admin now hs st v e) h =
      revise-Continues db db' k id (expense_reimbursed_as X admin now) r s e hs
        (
          subst (λ x. Follows x reimbursed) (sym st) follows_reimbursed,
          refl,
          refl,
          inl (ground arith),
        )
        h
  step-Continues db db' id r (cancels k s now hs open_ v e) h =
      revise-Continues db db' k id (expense_cancelled_as X now) r s e hs
        (follows_cancelled open_, refl, refl, inl open_) h

  unfoldable pub perform_all : List (Time × ExpenseRequest X) → ExpenseDb Amount → ExpenseDb Amount
  perform_all [] db = db
  perform_all ((now, call) ∷ calls) db = perform_all calls (perform X now call db)

  -- From a database whose expense requests have unique keys and are well-formed (the constraints of the
  -- table hold, which forbid an approved amount above the claimed one; a pending or rejected request
  -- has no approved amount, an approved or reimbursed one has; a pending one has no decider, an approved,
  -- rejected or reimbursed one has; exactly the reimbursed ones have a payer, and exactly the cancelled
  -- ones a time of cancelling), every sequence of the service's calls, failing ones included, leads to
  -- one of the same kind.
  pub expense_calls-IsSound :
      (calls : List (Time × ExpenseRequest X)) (db : ExpenseDb Amount)
      → IsSound db
      → IsSound (perform_all calls db)
  unfolding perform_all
  expense_calls-IsSound [] db s = s
  expense_calls-IsSound ((now, call) ∷ calls) db s =
      expense_calls-IsSound calls (perform X now call db)
        (step-IsSound db _ (perform-ExpenseStep X now call db) s)

  -- A call of the expense service, whatever it is given, leaves each request in the table, with its
  -- employee and its author; its status stays, or moves from pending to approved or rejected, from
  -- approved to reimbursed, or from pending, approved or rejected to cancelled; and a request that is
  -- reimbursed or cancelled stays as it is in every field.
  pub expense_call-Continues :
      (now : Time) (call : ExpenseRequest X) (db : ExpenseDb Amount) (id : ℕ)
      (r : ExpenseRow Amount)
      → select id db.requests ≡ some r
      → Continues r (select id (perform X now call db).requests)
  expense_call-Continues now call db id r h =
      step-Continues db _ id r (perform-ExpenseStep X now call db) h

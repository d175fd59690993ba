-- ===== src/Leave/Invariant.antt =====
-- What every sequence of calls of internal/service/leave_service.go keeps of the requests.
use hrbackend.Prelude.{
  ℕ, ◌≡◌, refl, true, false, Option, none, some, List, [], ◌∷◌, arith, ◌==◌, Bool-cases, subst, inl,
  inr, sym,
}
use hrbackend.Prelude.Int.{ℤ}
use hrbackend.Time.{Time}
use hrbackend.Store.Table.{
  select, update, AllRows, HasKeys, update-HasKeys, insert-HasKeys, insert-AllRows, select-AllRows,
  update-AllRows, select-update, select-insert,
}
use hrbackend.Balance.{pending, approved, rejected, cancelled, expired, LeaveRow, LeaveDb}
use hrbackend.Leave.Queries.{LeaveFields, row_valid, requested_as, edited_as, leave_decided_as}
use hrbackend.Leave.Minutes.{Contracts}
use hrbackend.Leave.Steps.{is_editable, LeaveStep, idle, filed, edited, rejects, approves}
use hrbackend.Leave.Lifecycle.{
  ServiceCall, Follows, stays, approves as follows_approves, rejects as follows_rejects, StageHolds,
  IsWellFormed, perform, perform-LeaveStep,
}

-- Keys are unique and every request is well-formed.
abbrev pub IsSound : {Float : Type 0} → LeaveDb Float → Type 0
IsSound db = HasKeys db.leaves × AllRows IsWellFormed db.leaves

edited-IsWellFormed :
    (f : LeaveFields) (m : ℤ) (r : LeaveRow)
    → row_valid (edited_as f m r) ≡ true
    → IsWellFormed r
    → IsWellFormed (edited_as f m r)
edited-IsWellFormed f m r v (_, stage) = (
  v,
  elim r.status as (λ s. StageHolds s r → StageHolds s (edited_as f m r)) [
    | pending ↦ λ x. x
    | approved ↦ λ x. x
    | rejected ↦ λ x. x
    | cancelled ↦ λ x. x
    | expired ↦ λ x. x
  ]
      stage,
)

-- What stays of a request: it is still there, for the same employee and by the same author, its status
-- is the old one or follows it, and nothing of it changes once it is neither pending nor rejected.
abbrev pub Continues : LeaveRow → Option LeaveRow → Type 0
Continues r none = ⊥
Continues r (some s) =
    Follows r.status s.status
    × (s.employee_id ≡ r.employee_id)
    × (s.created_by_employee_id ≡ r.created_by_employee_id)
    × (is_editable r.status ≡ false → s ≡ r)

Continues-same : (r : LeaveRow) → Continues r (some r)
Continues-same r = (stays, refl, refl, λ _. refl)

module _ {Float : Type 0} (legal_total : ℕ → ℕ → Time → ℤ) where
  revise-IsSound :
      (db : LeaveDb Float) (k : ℕ) (f : LeaveRow → LeaveRow) (r : LeaveRow)
      → IsSound db
      → select k db.leaves ≡ some r
      → (IsWellFormed r → IsWellFormed (f r))
      → IsSound (record db { leaves = update k f db.leaves })
  revise-IsSound db k f r (hk, ha) h w = (
    update-HasKeys k f db.leaves hk,
    update-AllRows IsWellFormed k f db.leaves r hk ha h
        (w (select-AllRows IsWellFormed k db.leaves r ha h)),
  )

  step-IsSound : (db db' : LeaveDb Float) → LeaveStep legal_total db db' → IsSound db → IsSound db'
  step-IsSound db db' (idle e) s = subst IsSound (sym e) s
  step-IsSound db db' (filed k employee created_by f m h v e) (hk, ha) = subst IsSound (sym e) (
    insert-HasKeys k (requested_as employee created_by f m) db.leaves h hk,
    insert-AllRows IsWellFormed k (requested_as employee created_by f m) db.leaves (v, refl) ha,
  )
  step-IsSound db db' (edited k r f m h _ v e) s =
      subst IsSound (sym e)
        (revise-IsSound db k (edited_as f m) r s h (edited-IsWellFormed f m r v))
  step-IsSound db db' (rejects k r remark admin now h _ e) s = subst IsSound (sym e) (
      revise-IsSound db k (leave_decided_as rejected remark admin now) r s h
        (λ (v, _). (v, ground arith)))
  step-IsSound db db' (approves k r remark admin now h _ _ e) s = subst IsSound (sym e) (
      revise-IsSound db k (leave_decided_as approved remark admin now) r s h
        (λ (v, _). (v, ground arith)))

  revise-Continues :
      (db : LeaveDb Float) (k id : ℕ) (f : LeaveRow → LeaveRow) (r s : LeaveRow)
      → select k db.leaves ≡ some s
      → Continues s (some (f s))
      → select id db.leaves ≡ some r
      → Continues r (select id (update k f db.leaves))
  revise-Continues db k id f r s hs c h = elim (Bool-cases (k == id)) [
    | inl eq ↦
        subst (Continues r) {x = some (f s)} (ground (arith, select-update k id f db.leaves))
          (subst (λ x. Continues x (some (f s))) {x = s} {y = r} (ground arith) c)
    | inr ne ↦
        subst (Continues r) {x = some r} (ground (arith, select-update k id f db.leaves))
          (Continues-same r)
  ]

  step-Continues :
      (db db' : LeaveDb Float) (id : ℕ) (r : LeaveRow)
      → LeaveStep legal_total db db'
      → select id db.leaves ≡ some r
      → Continues r (select id db'.leaves)
  step-Continues db db' id r (idle e) h =
      subst (Continues r) {x = some r} (ground arith) (Continues-same r)
  step-Continues db db' id r (filed k employee created_by f m n v e) h =
      subst (Continues r) {x = some r}
        (ground (arith, select-insert k id (requested_as employee created_by f m) db.leaves))
        (Continues-same r)
  step-Continues db db' id r (edited k s f m n ed v e) h =
      subst (λ d. Continues r (select id d.leaves)) (sym e)
        (revise-Continues db k id (edited_as f m) r s n (stays, refl, refl, λ no. ground arith) h)
  step-Continues db db' id r (rejects k s remark admin now n st e) h =
      subst (λ d. Continues r (select id d.leaves)) (sym e)
        (revise-Continues db k id (leave_decided_as rejected remark admin now) r s n
          (subst (λ x. Follows x rejected) (sym st) follows_rejects, refl, refl, λ no. ground arith)
          h)
  step-Continues db db' id r (approves k s remark admin now n st _ e) h =
      subst (λ d. Continues r (select id d.leaves)) (sym e)
        (revise-Continues db k id (leave_decided_as approved remark admin now) r s n
          (
            subst (λ x. Follows x approved) (sym st) follows_approves,
            refl,
            refl,
            λ no. ground arith,
          )
          h)

  module _ (contract_at : Contracts) where
    unfoldable pub perform_all : List (Time × ServiceCall) → LeaveDb Float → LeaveDb Float
    perform_all [] db = db
    perform_all ((now, call) ∷ calls) db =
        perform_all calls (perform legal_total contract_at now call db)

    -- From a database whose leave requests have unique keys and are well-formed (the start is not after
    -- the end, times of day are given exactly for a request by the hour, which lies within one day and
    -- ends after it starts, the minutes are positive, a pending request has no decider and an approved
    -- or rejected one has), every sequence of the service's calls, failing ones included, leads to one
    -- of the same kind.
    pub leave_calls-IsSound :
        (calls : List (Time × ServiceCall)) (db : LeaveDb Float)
        → IsSound db
        → IsSound (perform_all calls db)
    unfolding perform_all
    leave_calls-IsSound [] db s = s
    leave_calls-IsSound ((now, call) ∷ calls) db s =
        leave_calls-IsSound calls (perform legal_total contract_at now call db)
          (step-IsSound db _ (perform-LeaveStep legal_total contract_at now call db) s)

    -- A call of the leave service, whatever it is given, leaves each request of the table in the table,
    -- with its employee and its author, its status as it was or moved from pending to approved or
    -- from pending to rejected, and all of it as it was when it is neither pending nor rejected.
    pub leave_call-Continues :
        (now : Time) (call : ServiceCall) (db : LeaveDb Float) (id : ℕ) (r : LeaveRow)
        → select id db.leaves ≡ some r
        → Continues r (select id (perform legal_total contract_at now call db).leaves)
    leave_call-Continues now call db id r h =
        step-Continues db _ id r (perform-LeaveStep legal_total contract_at now call db) h

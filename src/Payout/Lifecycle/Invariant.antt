-- ===== src/Payout/Lifecycle/Invariant.antt =====
-- What every sequence of calls of internal/service/payout_service.go keeps of the requests.
use hrbackend.Prelude.{
  ◌==◌, ℕ, ◌≡◌, refl, Option, none, some, List, [], ◌∷◌, arith, Bool-cases, inl, inr, subst, sym,
}
use hrbackend.Prelude.Int.{ℤ}
use hrbackend.Time.{Time}
use hrbackend.Floats.{Floats}
use hrbackend.Store.Table.{
  select, AllRows, HasKeys, update-HasKeys, insert-HasKeys, insert-AllRows, select-AllRows,
  update-AllRows, select-update, select-insert,
}
use hrbackend.Balance.{PayoutRow, LeaveDb}
use hrbackend.Payout.Lifecycle.{
  PayoutCall, Follows, stays, IsWellFormed, PayoutStep, idle, filed, revised, perform,
}
use hrbackend.Payout.Lifecycle.Steps.{perform-PayoutStep}

module _ (F : Floats) where
  open F use {Float}

  -- Keys are unique and every request is well-formed.
  abbrev pub IsSound : LeaveDb Float → Type 0
  IsSound db = HasKeys db.payouts × AllRows (IsWellFormed F) db.payouts

  step-IsSound : (db db' : LeaveDb Float) → PayoutStep F db db' → IsSound db → IsSound db'
  step-IsSound db db' (idle e) s = subst IsSound (sym e) s
  step-IsSound db db' (filed k r h w b e) (hk, ha) =
      subst IsSound (sym e)
        (insert-HasKeys k r db.payouts h hk, insert-AllRows (IsWellFormed F) k r db.payouts w ha)
  step-IsSound db db' (revised k f r h w b _ _ e) (hk, ha) = subst IsSound (sym e) (
    update-HasKeys k f db.payouts hk,
    update-AllRows (IsWellFormed F) k f db.payouts r hk ha h
        (w (select-AllRows (IsWellFormed F) k db.payouts r ha h)),
  )

  -- What stays of a request: it is still there, for the same employee and at the same rate, and its
  -- status is the old one or follows it.
  abbrev pub Continues : PayoutRow Float → Option (PayoutRow Float) → Type 0
  Continues r none = ⊥
  Continues r (some s) =
      Follows r.status s.status × (s.employee_id ≡ r.employee_id) × (s.hourly_rate ≡ r.hourly_rate)

  step-Continues :
      (db db' : LeaveDb Float) (id : ℕ) (r : PayoutRow Float)
      → PayoutStep F db db'
      → select id db.payouts ≡ some r
      → Continues r (select id db'.payouts)
  step-Continues db db' id r (idle e) h =
      subst (Continues r) {x = some r} (ground arith) (stays, refl, refl)
  step-Continues db db' id r (filed k s n w b e) h =
      subst (Continues r) {x = some r} (ground (arith, select-insert k id s db.payouts))
        (stays, refl, refl)
  step-Continues db db' id r (revised k f s n w b e1 e2 e) h = elim (Bool-cases (k == id)) [
    | inl eq ↦
        subst (Continues r) {x = some (f s)} (ground (arith, select-update k id f db.payouts))
          (subst (λ x. Continues x (some (f s))) {x = s} {y = r} (ground arith) (b, e1, e2))
    | inr ne ↦
        subst (Continues r) {x = some r} (ground (arith, select-update k id f db.payouts))
          (stays, refl, refl)
  ]

  module _ (legal_total : ℕ → ℕ → Time → ℤ) (contract_rate : ℕ → Option Float) where
    unfoldable pub perform_all : List (Time × PayoutCall) → LeaveDb Float → LeaveDb Float
    perform_all [] db = db
    perform_all ((now, call) ∷ calls) db =
        perform_all calls (perform F legal_total contract_rate now call db)

    -- From a database whose payout requests have unique keys and are well-formed (the hours are
    -- positive, the year is from 2000 to 2100, the rate is positive, the gross amount is not negative
    -- and is the column's rounding of the hours times the rate, or times a rate that the column rounds
    -- to it, and the fields on the decision and the payment fit the status), every
    -- sequence of the service's calls, failing ones included, leads to one of the same kind.
    pub perform_all-IsSound :
        (calls : List (Time × PayoutCall)) (db : LeaveDb Float)
        → IsSound db
        → IsSound (perform_all calls db)
    unfolding perform_all
    perform_all-IsSound [] db s = s
    perform_all-IsSound ((now, call) ∷ calls) db s =
        perform_all-IsSound calls (perform F legal_total contract_rate now call db)
          (step-IsSound db _ (perform-PayoutStep F legal_total contract_rate now call db) s)

    -- A call of the payout service, whatever it is given, leaves each request of the table in the
    -- table, with its employee and its rate, and its status as it was or moved from pending to
    -- approved, from pending to rejected, or from approved to paid.
    pub perform-Continues :
        (now : Time) (call : PayoutCall) (db : LeaveDb Float) (id : ℕ) (r : PayoutRow Float)
        → select id db.payouts ≡ some r
        → Continues r (select id (perform F legal_total contract_rate now call db).payouts)
    perform-Continues now call db id r h =
        step-Continues db _ id r (perform-PayoutStep F legal_total contract_rate now call db) h

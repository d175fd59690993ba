-- ===== src/Payout/Settled/Calls.antt =====
-- Every guarded call of internal/service/payout_service.go and the minutes of a year's balance that
-- are spent.
use hrbackend.Prelude.{ℕ, ◌≤◌, ◌<◌, ◌≡◌, Bool, true, false, Option, arith}
use hrbackend.Prelude.Int.{ℤ, pos, pos_part, int32_half, ◌≤ℤ◌}
use hrbackend.Time.{Time}
use hrbackend.Floats.{Floats}
use hrbackend.Store.{atomic_cases}
use hrbackend.Store.Table.{HasKeys}
use hrbackend.Balance.{LeaveDb, settled}
use hrbackend.Payout.Service.{
  create_payout_request, update_payout_request, create_approved_payout_request_by_admin,
  decide_payout_request_by_admin, mark_payout_request_paid_by_admin,
}
use hrbackend.Payout.Atomic.{
  create_payout_request-IsAtomic, update_payout_request-IsAtomic,
  create_approved_payout_request_by_admin-IsAtomic, decide_payout_request_by_admin-IsAtomic,
  mark_payout_request_paid_by_admin-IsAtomic,
}
use hrbackend.Payout.Budget.{committed}
use hrbackend.Payout.Lifecycle.{
  PayoutCall, create, update_own, update_any, create_approved, decide, mark_paid, perform,
}
use hrbackend.Payout.Settled.{create_within, own_within, paid_within}
use hrbackend.Payout.Settled.Approvals.{create_approved_within, decide_within}

-- Every call but `UpdatePayoutRequestByAdmin`.
abbrev pub respects_balance : PayoutCall → Bool
respects_balance (update_any admin id p) = false
respects_balance _ = true

module _ (F : Floats) where
  open F use {Float, of_ℤ, ◌*F◌}

  module _ (legal_total : ℕ → ℕ → Time → ℤ) (contract_rate : ℕ → Option Float)
      (limit employee year : ℕ)
      (bounded : (t : Time)
        → (pos 0 ≤ℤ legal_total employee year t) × (pos_part (legal_total employee year t) ≤ limit))
      (small : limit < int32_half) where
    -- A call that respects the balance keeps what is spent within a bound on every total.
    pub payout_call_within :
        (now : Time) (call : PayoutCall) (db : LeaveDb Float)
        → respects_balance call ≡ true
        → HasKeys db.payouts
        → committed db employee year < int32_half
        → committed (perform F legal_total contract_rate now call db) employee year < int32_half
        → settled db employee year ≤ limit
        → settled (perform F legal_total contract_rate now call db) employee year ≤ limit
    unfolding perform
    payout_call_within now (create fresh actor p) db hr hk hc hc' hs =
        atomic_cases (λ d. settled d employee year ≤ limit)
          (create_payout_request F legal_total contract_rate fresh now actor p) db
          (create_payout_request-IsAtomic F legal_total contract_rate fresh actor now p) hs
          (λ k e. omega (
            arith,
            hs,
            create_within F legal_total contract_rate employee year fresh actor now p db _ k e,
          ))
    payout_call_within now (update_own actor id p) db hr hk hc hc' hs =
        atomic_cases (λ d. settled d employee year ≤ limit)
          (update_payout_request F legal_total contract_rate actor id p) db
          (update_payout_request-IsAtomic F legal_total contract_rate actor id p) hs
          (λ r e. omega (
            arith,
            hs,
            own_within F legal_total contract_rate employee year actor id p db _ r hk e,
          ))
    payout_call_within now (update_any admin id p) db hr hk hc hc' hs = ground arith
    payout_call_within now (create_approved fresh admin p) db hr hk hc hc' hs =
        atomic_cases (λ d. settled d employee year ≤ limit)
          (create_approved_payout_request_by_admin F legal_total contract_rate fresh now admin p) db
          (create_approved_payout_request_by_admin-IsAtomic F legal_total contract_rate fresh admin
            now p)
          hs
          (λ r e.
            create_approved_within F legal_total contract_rate limit employee year bounded small
              fresh admin now p db _ r e hc hc' hs)
    payout_call_within now (decide admin id p) db hr hk hc hc' hs =
        atomic_cases (λ d. settled d employee year ≤ limit)
          (decide_payout_request_by_admin F legal_total contract_rate admin id p now) db
          (decide_payout_request_by_admin-IsAtomic F legal_total contract_rate admin id p now) hs
          (λ r e.
            decide_within F legal_total contract_rate limit employee year bounded small admin id p
              now db _ r e hk hc hs)
    payout_call_within now (mark_paid admin id) db hr hk hc hc' hs =
        atomic_cases (λ d. settled d employee year ≤ limit)
          (mark_payout_request_paid_by_admin F legal_total contract_rate admin id now) db
          (mark_payout_request_paid_by_admin-IsAtomic F legal_total contract_rate admin id now) hs
          (λ r e. omega (
            arith,
            hs,
            paid_within F legal_total contract_rate employee year admin id now db _ r hk e,
          ))

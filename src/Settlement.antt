-- ===== src/Settlement.antt =====
-- internal/service/leave_service.go and internal/service/payout_service.go on one balance: both read
-- `ComputeLegalLeaveUsedForYear`, and each changes what the other one finds.
use hrbackend.Prelude.{ℕ, ◌≤◌, ◌<◌, ◌≡◌, Bool, true, Option, subst, sym}
use hrbackend.Prelude.Int.{ℤ, pos, pos_part, int32_half, ◌≤ℤ◌}
use hrbackend.Time.{Time}
use hrbackend.Floats.{Floats}
use hrbackend.Store.Table.{HasKeys, update-HasKeys, insert-HasKeys}
use hrbackend.Balance.{LeaveDb, settled}
use hrbackend.Leave.Minutes.{Contracts}
use hrbackend.Leave.Steps.{LeaveStep, idle, filed, edited, rejects, approves}
use hrbackend.Leave.Lifecycle.{ServiceCall, perform as perform_leave, perform-LeaveStep}
use hrbackend.Leave.Budget.{LeaveStep-within}
use hrbackend.Payout.Budget.{committed}
use hrbackend.Payout.Lifecycle.{
  PayoutCall, PayoutStep, idle as payout_idle, filed as payout_filed, revised,
  perform as perform_payout,
}
use hrbackend.Payout.Lifecycle.Steps.{perform-PayoutStep}
use hrbackend.Payout.Settled.Calls.{respects_balance, payout_call_within}

-- A call of one of the two services.
pub data BalanceCall : Type 0 where
  on_leave : ServiceCall → BalanceCall
  on_payout : PayoutCall → BalanceCall

-- Every call but `UpdatePayoutRequestByAdmin`.
abbrev pub is_guarded : BalanceCall → Bool
is_guarded (on_leave call) = true
is_guarded (on_payout call) = respects_balance call

-- The committed minutes are those of an int32.
abbrev pub FitsInt32 : {Float : Type 0} → LeaveDb Float → Type 0
FitsInt32 db = (employee year : ℕ) → committed db employee year < int32_half

-- Keys are unique, and no year is overspent.
abbrev pub IsWithin : {Float : Type 0} → (ℕ → ℕ → ℕ) → LeaveDb Float → Type 0
IsWithin limit db =
    HasKeys db.leaves
    × HasKeys db.payouts
    × ((employee year : ℕ) → settled db employee year ≤ limit employee year)

module _ (F : Floats) (legal_total : ℕ → ℕ → Time → ℤ) (contract_rate : ℕ → Option F.Float)
    (contract_at : Contracts) where
  unfoldable pub perform_on_balance : Time → BalanceCall → LeaveDb F.Float → LeaveDb F.Float
  perform_on_balance now (on_leave call) db = perform_leave legal_total contract_at now call db
  perform_on_balance now (on_payout call) db =
      perform_payout F legal_total contract_rate now call db

  -- Guarded calls of both services in any order, with committed minutes that fit an int32 all along.
  pub data GuardedRun (db : LeaveDb F.Float) : LeaveDb F.Float → Type 0 where
    starts : GuardedRun db db
    calls :
        (mid : LeaveDb F.Float) (now : Time) (call : BalanceCall)
        → GuardedRun db mid
        → is_guarded call ≡ true
        → FitsInt32 mid
        → FitsInt32 (perform_on_balance now call mid)
        → GuardedRun db (perform_on_balance now call mid)

  LeaveStep-HasKeys :
      (db db' : LeaveDb F.Float)
      → LeaveStep legal_total db db'
      → HasKeys db.leaves × HasKeys db.payouts
      → HasKeys db'.leaves × HasKeys db'.payouts
  LeaveStep-HasKeys db db' (idle e) k = subst (λ d. HasKeys d.leaves × HasKeys d.payouts) (sym e) k
  LeaveStep-HasKeys db db' (filed k emp by f m h v e) (kl, kp) =
      subst (λ d. HasKeys d.leaves × HasKeys d.payouts) (sym e)
        (insert-HasKeys k _ db.leaves h kl, kp)
  LeaveStep-HasKeys db db' (edited k r f m h ed v e) (kl, kp) =
      subst (λ d. HasKeys d.leaves × HasKeys d.payouts) (sym e)
        (update-HasKeys k _ db.leaves kl, kp)
  LeaveStep-HasKeys db db' (rejects k r remark admin now h st e) (kl, kp) =
      subst (λ d. HasKeys d.leaves × HasKeys d.payouts) (sym e)
        (update-HasKeys k _ db.leaves kl, kp)
  LeaveStep-HasKeys db db' (approves k r remark admin now h st a e) (kl, kp) =
      subst (λ d. HasKeys d.leaves × HasKeys d.payouts) (sym e)
        (update-HasKeys k _ db.leaves kl, kp)

  PayoutStep-HasKeys :
      (db db' : LeaveDb F.Float)
      → PayoutStep F db db'
      → HasKeys db.leaves × HasKeys db.payouts
      → HasKeys db'.leaves × HasKeys db'.payouts
  PayoutStep-HasKeys db db' (payout_idle e) k =
      subst (λ d. HasKeys d.leaves × HasKeys d.payouts) (sym e) k
  PayoutStep-HasKeys db db' (payout_filed k r h w b e) (kl, kp) =
      subst (λ d. HasKeys d.leaves × HasKeys d.payouts) (sym e)
        (kl, insert-HasKeys k _ db.payouts h kp)
  PayoutStep-HasKeys db db' (revised k f r h w b _ _ e) (kl, kp) =
      subst (λ d. HasKeys d.leaves × HasKeys d.payouts) (sym e)
        (kl, update-HasKeys k _ db.payouts kp)

  module _ (limit : ℕ → ℕ → ℕ)
      (bounded : (employee year : ℕ) (t : Time)
        → (pos 0 ≤ℤ legal_total employee year t)
          × (pos_part (legal_total employee year t) ≤ limit employee year))
      (small : (employee year : ℕ) → limit employee year < int32_half) where
    call-IsWithin :
        (now : Time) (call : BalanceCall) (db : LeaveDb F.Float)
        → is_guarded call ≡ true
        → FitsInt32 db
        → FitsInt32 (perform_on_balance now call db)
        → IsWithin limit db
        → IsWithin limit (perform_on_balance now call db)
    unfolding perform_on_balance
    call-IsWithin now (on_leave call) db g fits fits' (kl, kp, within) =
        let step = perform-LeaveStep legal_total contract_at now call db in
        let (kl', kp') = LeaveStep-HasKeys db _ step (kl, kp) in
        (
          kl',
          kp',
          λ e y.
              LeaveStep-within legal_total (limit e y) e y db
                (perform_leave legal_total contract_at now call db) step (bounded e y) (small e y)
                kl (within e y),
        )
    call-IsWithin now (on_payout call) db g fits fits' (kl, kp, within) =
        let (kl', kp') =
          PayoutStep-HasKeys db _ (perform-PayoutStep F legal_total contract_rate now call db)
            (kl, kp) in
        (
          kl',
          kp',
          λ e y.
              payout_call_within F legal_total contract_rate (limit e y) e y (bounded e y)
                (small e y) now call db g kp (fits e y) (fits' e y) (within e y),
        )

    -- Leave and payout calls in any order, failing ones included, never overspend a year: minutes of
    -- approved leave and of settled payouts stay within `limit` for every employee and year when they
    -- begin within it. Conditions: the legal leave of a year is never negative and never above `limit`,
    -- which is below 2 ^ 31; `UpdatePayoutRequestByAdmin` is not among the calls; before and after each
    -- call the committed minutes of every employee and year are below 2 ^ 31; keys are unique at first.
    pub run-IsWithin :
        (db db' : LeaveDb F.Float) → GuardedRun db db' → IsWithin limit db → IsWithin limit db'
    run-IsWithin db db' starts w = w
    run-IsWithin db db' (calls mid now call run g fits fits') w =
        call-IsWithin now call mid g fits fits' (run-IsWithin db mid run w)

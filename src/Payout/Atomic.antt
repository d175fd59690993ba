-- ===== src/Payout/Atomic.antt =====
-- The calls of internal/service/payout_service.go that fail: each runs its writes in a transaction.
use hrbackend.Prelude.{ℕ, arith, Option}
use hrbackend.Prelude.Int.{ℤ}
use hrbackend.Time.{Time}
use hrbackend.Floats.{Floats}
use hrbackend.Store.{IsAtomic, exec_tx}
use hrbackend.Payout.{CreateParams, UpdateParams, CreateByAdminParams, DecideParams}
use hrbackend.Payout.Service.{
  create_payout_request, update_payout_request, update_payout_request_by_admin,
  create_approved_payout_request_by_admin, decide_payout_request_by_admin,
  mark_payout_request_paid_by_admin,
}

module _ (F : Floats) (legal_total : ℕ → ℕ → Time → ℤ) (contract_rate : ℕ → Option F.Float) where
  pub create_payout_request-IsAtomic :
      (fresh actor : ℕ) (now : Time) (p : CreateParams)
      → IsAtomic (create_payout_request F legal_total contract_rate fresh now actor p)
  unfolding create_payout_request exec_tx
  create_payout_request-IsAtomic fresh actor now p s e h = ground arith

  pub update_payout_request-IsAtomic :
      (actor id : ℕ) (p : UpdateParams)
      → IsAtomic (update_payout_request F legal_total contract_rate actor id p)
  unfolding update_payout_request exec_tx
  update_payout_request-IsAtomic actor id p s e h = ground arith

  pub update_payout_request_by_admin-IsAtomic :
      (admin id : ℕ) (p : UpdateParams)
      → IsAtomic (update_payout_request_by_admin F legal_total contract_rate admin id p)
  unfolding update_payout_request_by_admin exec_tx
  update_payout_request_by_admin-IsAtomic admin id p s e h = ground arith

  pub create_approved_payout_request_by_admin-IsAtomic :
      (fresh admin : ℕ) (now : Time) (p : CreateByAdminParams)
      → IsAtomic
          (create_approved_payout_request_by_admin F legal_total contract_rate fresh now admin p)
  unfolding create_approved_payout_request_by_admin exec_tx
  create_approved_payout_request_by_admin-IsAtomic fresh admin now p s e h = ground arith

  pub decide_payout_request_by_admin-IsAtomic :
      (admin id : ℕ) (p : DecideParams) (now : Time)
      → IsAtomic (decide_payout_request_by_admin F legal_total contract_rate admin id p now)
  unfolding decide_payout_request_by_admin exec_tx
  decide_payout_request_by_admin-IsAtomic admin id p now s e h = ground arith

  pub mark_payout_request_paid_by_admin-IsAtomic :
      (admin id : ℕ) (now : Time)
      → IsAtomic (mark_payout_request_paid_by_admin F legal_total contract_rate admin id now)
  unfolding mark_payout_request_paid_by_admin exec_tx
  mark_payout_request_paid_by_admin-IsAtomic admin id now s e h = ground arith

-- ===== src/Payout/Settled.antt =====
-- The calls of internal/service/payout_service.go and the minutes of a year's balance that are spent.
pub mod Approvals
pub mod Calls
use hrbackend.Prelude.{
  ℕ, ◌+◌, ◌*◌, ◌≤◌, ◌<◌, ◌≡◌, refl, Bool, true, false, ◌==◌, ◌&&◌, Option, some, arith,
  Option-cases, Bool-cases, inl, inr, ap, subst, sym, ◌∙◌,
}
use hrbackend.Prelude.Int.{ℤ, pos, pos_part, int32_half, ◌≤ℤ◌, IsInt32}
use hrbackend.Prelude.GoText.{codes, text_eq, normalized}
use hrbackend.Prelude.Results.{ok}
use hrbackend.Time.{Time}
use hrbackend.Floats.{Floats}
use hrbackend.Store.{exec_tx, atomic_cases}
use hrbackend.Store.Table.{
  select, update, insert, sum_rows, sum_rows-insert, sum_rows-update, select-update_self, HasKeys,
}
use hrbackend.Balance.{
  PayoutRow, approved, LeaveDb, leave_used, payout_used, reserved, settled, payout_share,
  is_settled,
}
use hrbackend.Payout.{
  CreateParams, UpdateParams, CreateByAdminParams, DecideParams, is_open, payout_balance_as_of,
  get_payout_request_for_update, write_payout_fields, update_payout,
}
use hrbackend.Payout.Service.{
  create_payout_request, update_payout_request, create_approved_payout_request_by_admin,
  decide_payout_request_by_admin, mark_payout_request_paid_by_admin,
}
use hrbackend.Payout.Atomic.{
  create_payout_request-IsAtomic, update_payout_request-IsAtomic,
  create_approved_payout_request_by_admin-IsAtomic, decide_payout_request_by_admin-IsAtomic,
  mark_payout_request_paid_by_admin-IsAtomic,
}
use hrbackend.Payout.Budget.{committed, total}
use hrbackend.Payout.Decision.{
  decided_as, approve_inverts, approve_checked_inverts, approve_within_budget,
}
use hrbackend.Payout.Direct.{create_approved_within_budget}
use hrbackend.Payout.Lifecycle.{
  PayoutCall, create, update_own, update_any, create_approved, decide, mark_paid, perform,
  rewritten_as, rejected_as, filed_as, paid_as,
}
use hrbackend.Payout.Lifecycle.Inverts.{
  mark_paid_inverts, insert_inverts, checked_inverts, create_inverts, create_approved_inserts,
  reject_inverts,
}

module _ (F : Floats) where
  open F use {Float, of_ℤ, ◌*F◌}

  pub settled-update :
      (db : LeaveDb Float) (k : ℕ) (f : PayoutRow Float → PayoutRow Float) (r : PayoutRow Float)
      (employee year : ℕ)
      → HasKeys db.payouts
      → select k db.payouts ≡ some r
      → settled (record db { payouts = update k f db.payouts }) employee year
          + payout_share is_settled employee year r
        ≡ settled db employee year + payout_share is_settled employee year (f r)
  unfolding leave_used payout_used
  settled-update db k f r employee year hk hr =
      ground (arith, sum_rows-update (payout_share is_settled employee year) k f db.payouts r hk hr)

  pub settled-insert :
      (db : LeaveDb Float) (k : ℕ) (r : PayoutRow Float) (employee year : ℕ)
      → settled (record db { payouts = insert k r db.payouts }) employee year
        ≡ settled db employee year + payout_share is_settled employee year r
  unfolding leave_used payout_used
  settled-insert db k r employee year =
      omega (arith, sum_rows-insert (payout_share is_settled employee year) k r db.payouts)

  pub settled-committed :
      (db : LeaveDb Float) (employee year : ℕ)
      → settled db employee year ≤ committed db employee year
  settled-committed db employee year = omega arith

  module _ (legal_total : ℕ → ℕ → Time → ℤ) (contract_rate : ℕ → Option Float)
      (employee year : ℕ) where
    pub create_within :
        (fresh actor : ℕ) (now : Time) (p : CreateParams) (db db' : LeaveDb Float) (k : ℕ)
        → create_payout_request F legal_total contract_rate fresh now actor p db ≡ (ok k, db')
        → settled db' employee year ≡ settled db employee year
    create_within fresh actor now p db db' k e =
        let made = create_inverts F legal_total contract_rate fresh actor now p db db' k e in
        let (rate, inserted) =
          checked_inverts F legal_total contract_rate fresh now p.employee_id
            p.created_by_employee_id p.requested_hours p.balance_year p.request_note db db' k
            made in
        let (kept, gross, _, _, _, _, edb) =
          insert_inverts F legal_total contract_rate fresh p.employee_id p.created_by_employee_id
            p.requested_hours p.balance_year rate p.request_note db db' k inserted in
        let row =
          filed_as p.employee_id p.created_by_employee_id p.requested_hours p.balance_year kept
            gross p.request_note in
        ground (arith, edb, settled-insert db fresh row employee year)

    pub own_within :
        (actor id : ℕ) (p : UpdateParams) (db db' : LeaveDb Float) (r : PayoutRow Float)
        → HasKeys db.payouts
        → update_payout_request F legal_total contract_rate actor id p db ≡ (ok r, db')
        → settled db' employee year ≡ settled db employee year
    unfolding update_payout_request exec_tx get_payout_request_for_update write_payout_fields
        update_payout
    own_within actor id p db db' r hk e = elim (Option-cases (select id db.payouts)) [
      | inl h ↦ ground arith
      | inr (c, h) ↦
          elim (Option-cases (F.to_amount (◌*F◌ (of_ℤ p.requested_hours) c.hourly_rate))) [
            | inl ha ↦ ground arith
            | inr (gross, ha) ↦
                let f = rewritten_as p gross in
                let edb : db' ≡ record db { payouts = update id f db.payouts } = ground arith in
                let st : is_open c.status ≡ true = ground arith in
                ground (arith, edb, st, settled-update db id f c employee year hk h)
          ]
    ]

    pub paid_within :
        (admin id : ℕ) (now : Time) (db db' : LeaveDb Float) (r : PayoutRow Float)
        → HasKeys db.payouts
        → mark_payout_request_paid_by_admin F legal_total contract_rate admin id now db
          ≡ (ok r, db')
        → settled db' employee year ≡ settled db employee year
    paid_within admin id now db db' r hk e =
        let (c, h, hs, edb) =
          mark_paid_inverts F legal_total contract_rate admin id now db db' r e in
        ground (arith, edb, hs, settled-update db id (paid_as admin now) c employee year hk h)

-- ===== src/Payout/Lifecycle/Inverts.antt =====
-- The calls of internal/service/payout_service.go that succeed: the row each found and wrote.
use hrbackend.Prelude.{
  ℕ, ◌≡◌, false, Option, none, some, arith, Option-cases, inl, inr, ◌||◌, subst,
}
use hrbackend.Prelude.Int.{ℤ}
use hrbackend.Prelude.GoText.{Text, codes, text_eq, normalized}
use hrbackend.Prelude.Results.{ok, Result-cases}
use hrbackend.Time.{Time}
use hrbackend.Floats.{Floats}
use hrbackend.Store.{exec_tx}
use hrbackend.Store.Table.{select, update, insert, update-insert, select-update_self}
use hrbackend.Balance.{
  PayoutRow, pending, approved, LeaveDb, compute_legal_leave_used_for_year,
  compute_reserved_payout_minutes_for_year, lock_employee_for_leave_balance,
}
use hrbackend.Payout.Decision.{decided_as}
use hrbackend.Payout.{
  CreateParams, UpdateParams, CreateByAdminParams, DecideParams, not_positive, year_out_of_range,
  available_minutes, payout_rate, insert_payout, write_payout_fields, get_payout_request_for_update,
  update_payout, approve_payout_request, reject_payout_request, mark_payout_request_paid,
}
use hrbackend.Payout.Service.{
  create_checked, create_payout_request, update_payout_request, update_payout_request_by_admin,
  create_approved_payout_request_by_admin, decide_payout_request_by_admin,
  mark_payout_request_paid_by_admin,
}
use hrbackend.Payout.Lifecycle.{AreKept, rejected_as, filed_as, paid_as}

module _ (F : Floats) (legal_total : ℕ → ℕ → Time → ℤ) (contract_rate : ℕ → Option F.Float) where
  open F use {Float, of_ℤ, ◌*F◌, to_rate, to_amount}

  pub mark_paid_inverts :
      (admin id : ℕ) (now : Time) (db db' : LeaveDb Float) (r : PayoutRow Float)
      → mark_payout_request_paid_by_admin F legal_total contract_rate admin id now db ≡ (ok r, db')
      → (c : PayoutRow Float) × (select id db.payouts ≡ some c)
        × (c.status ≡ approved)
        × (db' ≡ record db { payouts = update id (paid_as admin now) db.payouts })
  unfolding mark_payout_request_paid_by_admin exec_tx get_payout_request_for_update
      mark_payout_request_paid update_payout
  mark_paid_inverts admin id now db db' r e = elim (Option-cases (select id db.payouts)) [
    | inl h ↦ ground arith
    | inr (c, h) ↦ (
      c,
      h,
      ground arith,
      ground (arith, select-update_self id (paid_as admin now) db.payouts c h),
    )
  ]

  pub update_own_inverts :
      (actor id : ℕ) (p : UpdateParams) (db db' : LeaveDb Float) (r : PayoutRow Float)
      → update_payout_request F legal_total contract_rate actor id p db ≡ (ok r, db')
      → (c : PayoutRow Float) × (select id db.payouts ≡ some c)
        × (write_payout_fields F legal_total contract_rate id p
              (◌*F◌ (of_ℤ p.requested_hours) c.hourly_rate)
              db
            ≡ (ok r, db'))
  unfolding update_payout_request exec_tx get_payout_request_for_update
  update_own_inverts actor id p db db' r e = elim (Option-cases (select id db.payouts)) [
    | inl h ↦ ground arith
    | inr (c, h) ↦ (c, h, ground arith)
  ]

  pub update_any_inverts :
      (admin id : ℕ) (p : UpdateParams) (db db' : LeaveDb Float) (r : PayoutRow Float)
      → update_payout_request_by_admin F legal_total contract_rate admin id p db ≡ (ok r, db')
      → (c : PayoutRow Float) × (select id db.payouts ≡ some c)
        × (write_payout_fields F legal_total contract_rate id p
              (◌*F◌ (of_ℤ p.requested_hours) c.hourly_rate)
              db
            ≡ (ok r, db'))
  unfolding update_payout_request_by_admin exec_tx get_payout_request_for_update
  update_any_inverts admin id p db db' r e = elim (Option-cases (select id db.payouts)) [
    | inl h ↦ ground arith
    | inr (c, h) ↦ (c, h, ground arith)
  ]

  -- What an inserted row looks like.
  pub insert_inverts :
      (fresh employee created_by : ℕ) (hours year : ℤ) (rate : Float) (remark : Option Text)
      (db db' : LeaveDb Float) (k : ℕ)
      → insert_payout F legal_total contract_rate fresh employee created_by hours year rate remark
          db
        ≡ (ok k, db')
      → (kept : Float) × (gross : Float) × AreKept F hours rate kept gross
        × (k ≡ fresh)
        × (select fresh db.payouts ≡ none)
        × (not_positive hours || year_out_of_range year ≡ false)
        × (db' ≡ record db {
          payouts =
              insert fresh (filed_as employee created_by hours year kept gross remark) db.payouts;
        })
  unfolding insert_payout
  insert_inverts fresh employee created_by hours year rate remark db db' k e =
      elim (Option-cases (select fresh db.payouts)) [
        | inr (c, h) ↦ ground arith
        | inl h ↦ elim (Option-cases (to_rate rate)) [
          | inl hr ↦ ground arith
          | inr (kept, hr) ↦ elim (Option-cases (to_amount (◌*F◌ (of_ℤ hours) rate))) [
            | inl ha ↦ ground arith
            | inr (gross, ha) ↦ (
              kept,
              gross,
              (hr, ha, ground arith, ground arith),
              ground arith,
              h,
              ground arith,
              ground arith,
            )
          ]
        ]
      ]

  pub checked_inverts :
      (fresh : ℕ) (now : Time) (employee created_by : ℕ) (hours year : ℤ) (remark : Option Text)
      (db db' : LeaveDb Float) (k : ℕ)
      → create_checked F legal_total contract_rate fresh now employee created_by hours year remark
          db
        ≡ (ok k, db')
      → (rate : Float) × (insert_payout F legal_total contract_rate fresh employee created_by hours
            year rate remark db
          ≡ (ok k, db'))
  unfolding create_checked available_minutes compute_legal_leave_used_for_year
      compute_reserved_payout_minutes_for_year lock_employee_for_leave_balance payout_rate
  checked_inverts fresh now employee created_by hours year remark db db' k e =
      elim (Option-cases (contract_rate employee)) [
        | inl h ↦ ground arith
        | inr (rate, h) ↦ (rate, ground arith)
      ]

  pub create_inverts :
      (fresh actor : ℕ) (now : Time) (p : CreateParams) (db db' : LeaveDb Float) (k : ℕ)
      → create_payout_request F legal_total contract_rate fresh now actor p db ≡ (ok k, db')
      → create_checked F legal_total contract_rate fresh now p.employee_id p.created_by_employee_id
          p.requested_hours p.balance_year p.request_note db
        ≡ (ok k, db')
  unfolding create_payout_request exec_tx
  create_inverts fresh actor now p db db' k e = ground arith

  pub create_approved_inverts :
      (fresh admin : ℕ) (now : Time) (p : CreateByAdminParams) (db db' : LeaveDb Float)
      (r : PayoutRow Float)
      → create_approved_payout_request_by_admin F legal_total contract_rate fresh now admin p db
        ≡ (ok r, db')
      → (k : ℕ) × (mid : LeaveDb Float) × (create_checked F legal_total contract_rate fresh now
            p.employee_id admin p.requested_hours p.balance_year p.request_note db
          ≡ (ok k, mid))
        × (approve_payout_request F legal_total contract_rate k admin p.pay_period_start
              p.decision_note now mid
            ≡ (ok r, db'))
  unfolding create_approved_payout_request_by_admin exec_tx
  create_approved_inverts fresh admin now p db db' r e =
      elim (Result-cases
        (create_checked F legal_total contract_rate fresh now p.employee_id admin p.requested_hours
          p.balance_year p.request_note db).0) [
            | inl (f, h) ↦ ground arith
            | inr (k, h) ↦ (
              k,
              (create_checked F legal_total contract_rate fresh now p.employee_id admin
                  p.requested_hours p.balance_year p.request_note db).1,
              ground arith,
              ground arith,
            )
          ]

  pub approve_inserted :
      (fresh admin : ℕ) (remark : Option Text) (period now : Time) (db mid db' : LeaveDb Float)
      (r s : PayoutRow Float)
      → approve_payout_request F legal_total contract_rate fresh admin period remark now mid
        ≡ (ok s, db')
      → select fresh db.payouts ≡ none
      → mid ≡ record db { payouts = insert fresh r db.payouts }
      → db' ≡ record db {
        payouts = insert fresh (decided_as approved admin remark period now r) db.payouts;
      }
  unfolding approve_payout_request update_payout
  approve_inserted fresh admin remark period now db mid db' r s e h em =
      ground
        (arith, update-insert fresh (decided_as approved admin remark period now) r db.payouts h)

  pub reject_inverts :
      (admin id : ℕ) (p : DecideParams) (now : Time) (db db' : LeaveDb Float) (r : PayoutRow Float)
      → decide_payout_request_by_admin F legal_total contract_rate admin id p now db ≡ (ok r, db')
      → text_eq (normalized p.decision) (codes "approve") ≡ false
      → (c : PayoutRow Float) × (select id db.payouts ≡ some c)
        × (c.status ≡ pending)
        × (db'
            ≡ record db { payouts = update id (rejected_as admin p.decision_note now) db.payouts })
  unfolding decide_payout_request_by_admin exec_tx get_payout_request_for_update
      reject_payout_request update_payout
  reject_inverts admin id p now db db' r e hr = elim (Option-cases (select id db.payouts)) [
    | inl h ↦ ground arith
    | inr (c, h) ↦ (
      c,
      h,
      ground arith,
      ground (arith, select-update_self id (rejected_as admin p.decision_note now) db.payouts c h),
    )
  ]

  -- The row that a creation by an administrator leaves.
  pub create_approved_inserts :
      (fresh admin : ℕ) (now : Time) (p : CreateByAdminParams) (db db' : LeaveDb Float)
      (r : PayoutRow Float)
      → create_approved_payout_request_by_admin F legal_total contract_rate fresh now admin p db
        ≡ (ok r, db')
      → (rate : Float) × (kept : Float) × (gross : Float) × AreKept F p.requested_hours rate kept
          gross
        × (select fresh db.payouts ≡ none)
        × (not_positive p.requested_hours || year_out_of_range p.balance_year ≡ false)
        × (db' ≡ record db {
          payouts =
              insert fresh
                (decided_as approved admin p.decision_note p.pay_period_start now (
                  filed_as p.employee_id admin p.requested_hours p.balance_year kept gross
                    p.request_note))
                db.payouts;
        })
  create_approved_inserts fresh admin now p db db' r e =
      let (k, mid, made, approving) = create_approved_inverts fresh admin now p db db' r e in
      let (rate, inserted) =
        checked_inverts fresh now p.employee_id admin p.requested_hours p.balance_year
          p.request_note db mid k made in
      let (kept, gross, amounts, ek, h, v, emid) =
        insert_inverts fresh p.employee_id admin p.requested_hours p.balance_year rate
          p.request_note db mid k inserted in
      (
        rate,
        kept,
        gross,
        amounts,
        h,
        v,
        approve_inserted fresh admin p.decision_note p.pay_period_start now db mid db'
            (filed_as p.employee_id admin p.requested_hours p.balance_year kept gross
              p.request_note)
            r
            (subst
              (λ x.
                approve_payout_request F legal_total contract_rate x admin p.pay_period_start
                  p.decision_note now mid
                ≡ (ok r, db'))
              ek approving)
            h emid,
      )

-- ===== src/Payout/Direct.antt =====
-- What an administrator does without the employee: `CreateApprovedPayoutRequestByAdmin` and
-- `UpdatePayoutRequestByAdmin` of internal/service/payout_service.go.
use hrbackend.Params.{uuid_nil}
use hrbackend.Prelude.{
  ℕ, ◌*◌, ◌<◌, ◌≡◌, ◌≢◌, ◌↔◌, false, Option, some, arith, Option-cases, inl, inr, ◌||◌, ap, sym,
  subst, ◌∙◌,
}
use hrbackend.Prelude.Int.{ℤ, pos, pos_part, int32_half, ◌≤ℤ◌, IsInt32}
use hrbackend.Prelude.GoText.{Text}
use hrbackend.Prelude.Results.{ok}
use hrbackend.Time.{Time}
use hrbackend.Floats.{Floats}
use hrbackend.Store.{exec_tx}
use hrbackend.Store.Table.{select, insert, sum_rows, select-update_self}
use hrbackend.Balance.{PayoutRow, approved, LeaveDb, leave_used, payout_used, reserved}
use hrbackend.Payout.{
  CreateByAdminParams, UpdateParams, not_positive, year_out_of_range, approve_payout_request,
  get_payout_request_for_update, write_payout_fields, update_payout,
}
use hrbackend.Payout.Service.{
  create_approved_payout_request_by_admin, update_payout_request_by_admin,
}
use hrbackend.Payout.Budget.{committed, total}
use hrbackend.Payout.Creation.{checked_within}
use hrbackend.Payout.Decision.{decided_as}
use hrbackend.Payout.Lifecycle.{filed_as, rewritten_as}
use hrbackend.Payout.Lifecycle.Inverts.{
  create_approved_inverts, checked_inverts, insert_inverts, approve_inserted,
}

-- An approved request commits the minutes that it did while it was pending.
committed-filed :
    {Float : Type 0} (db : LeaveDb Float) (fresh employee created_by admin : ℕ) (hours year : ℤ)
    (rate gross : Float) (remark remark' : Option Text) (period now : Time) (e y : ℕ)
    → committed
        (record db {
          payouts =
              insert fresh
                (decided_as approved admin remark' period now
                  (filed_as employee created_by hours year rate gross remark))
                db.payouts;
        })
        e
        y
      ≡ committed
          (record db {
            payouts =
                insert fresh (filed_as employee created_by hours year rate gross remark) db.payouts;
          })
          e
          y
unfolding leave_used payout_used reserved sum_rows insert
committed-filed db fresh employee created_by admin hours year rate gross remark remark' period now e
      y =
    ground arith

module _ (F : Floats) (legal_total : ℕ → ℕ → Time → ℤ) (contract_rate : ℕ → Option F.Float) where
  open F use {Float, of_ℤ, ◌*F◌, is_negative, to_amount}

  -- A request that `CreateApprovedPayoutRequestByAdmin` creates leaves the employee's committed
  -- minutes of the year within the year's total. Conditions: the total is a nonnegative int32, the
  -- minutes asked for and the minutes committed before are below 2 ^ 31.
  pub create_approved_within_budget :
      (fresh admin : ℕ) (now : Time) (p : CreateByAdminParams) (db db' : LeaveDb Float)
      (r : PayoutRow Float)
      → create_approved_payout_request_by_admin F legal_total contract_rate fresh now admin p db
        ≡ (ok r, db')
      → IsInt32 (total F legal_total contract_rate now p.employee_id (pos_part p.balance_year))
      → pos 0 ≤ℤ total F legal_total contract_rate now p.employee_id (pos_part p.balance_year)
      → pos_part p.requested_hours * 60 < int32_half
      → committed db p.employee_id (pos_part p.balance_year) < int32_half
      → pos (committed db' p.employee_id (pos_part p.balance_year))
        ≤ℤ total F legal_total contract_rate now p.employee_id (pos_part p.balance_year)
  create_approved_within_budget fresh admin now p db db' r e ht hp hh hc =
      let (k, mid, made, approving) =
        create_approved_inverts F legal_total contract_rate fresh admin now p db db' r e in
      let (rate, inserted) =
        checked_inverts F legal_total contract_rate fresh now p.employee_id admin p.requested_hours
          p.balance_year p.request_note db mid k made in
      let (kept, gross, _, ek, h, v, emid) =
        insert_inverts F legal_total contract_rate fresh p.employee_id admin p.requested_hours
          p.balance_year rate p.request_note db mid k inserted in
      let row =
        filed_as p.employee_id admin p.requested_hours p.balance_year kept gross p.request_note in
      let edb =
        approve_inserted F legal_total contract_rate fresh admin p.decision_note p.pay_period_start
          now db mid db' row r
          (subst
            (λ x.
              approve_payout_request F legal_total contract_rate x admin p.pay_period_start
                p.decision_note now mid
              ≡ (ok r, db'))
            ek approving)
          h emid in
      let within =
        checked_within F legal_total contract_rate fresh now p.employee_id admin p.requested_hours
          p.balance_year p.request_note db mid k made v ht hp hh hc in
      let same : committed mid p.employee_id (pos_part p.balance_year)
          ≡ committed db' p.employee_id (pos_part p.balance_year) =
        ap (λ d. committed d p.employee_id (pos_part p.balance_year)) emid
        ∙ sym (
            committed-filed db fresh p.employee_id admin admin p.requested_hours p.balance_year kept
              gross p.request_note p.decision_note p.pay_period_start now p.employee_id
              (pos_part p.balance_year))
        ∙ sym (ap (λ d. committed d p.employee_id (pos_part p.balance_year)) edb) in
      subst
        (λ n.
          pos n ≤ℤ total F legal_total contract_rate now p.employee_id (pos_part p.balance_year))
        same within

  -- `UpdatePayoutRequestByAdmin` succeeds exactly when neither key is nil, the hours are positive, the
  -- year is from 2000 to 2100, the request is there, and the hours times its rate fit the column of
  -- the gross amount, which keeps no negative value: its status and the balance play no part.
  pub update_payout_request_by_admin_iff :
      (admin id : ℕ) (p : UpdateParams) (db : LeaveDb Float)
      → ((r : PayoutRow Float) × ((update_payout_request_by_admin F legal_total contract_rate admin
              id p db).0
            ≡ ok r))
        ↔ ((admin ≢ uuid_nil)
            × (id ≢ uuid_nil)
            × (not_positive p.requested_hours || year_out_of_range p.balance_year ≡ false)
            × ((c : PayoutRow Float) × (select id db.payouts ≡ some c)
                × ((gross : Float) × (to_amount (◌*F◌ (of_ℤ p.requested_hours) c.hourly_rate)
                      ≡ some gross)
                    × (is_negative gross ≡ false))))
  unfolding update_payout_request_by_admin exec_tx get_payout_request_for_update write_payout_fields
      update_payout
  update_payout_request_by_admin_iff admin id p db = elim (Option-cases (select id db.payouts)) [
    | inl h ↦ (λ (r, e). ground arith, λ (a, i, v, (c, e, _)). ground arith)
    | inr (c, h) ↦ elim (Option-cases (to_amount (◌*F◌ (of_ℤ p.requested_hours) c.hourly_rate))) [
      | inl ha ↦ (
        λ (r, e). ground arith,
        λ (a, i, v, (d, hd, (gross, ea, en))).
            let same : d ≡ c = ground arith in
            ground (arith, ap (λ x. to_amount (◌*F◌ (of_ℤ p.requested_hours) x.hourly_rate)) same),
      )
      | inr (kept, ha) ↦ (
        λ (r, e). (ground arith, ground arith, ground arith, (c, h, (kept, ha, ground arith))),
        λ (a, i, v, (d, hd, (gross, ea, en))).
            let same : d ≡ c = ground arith in
            let eg : gross ≡ kept =
              ground
                (arith, ap (λ x. to_amount (◌*F◌ (of_ℤ p.requested_hours) x.hourly_rate)) same) in
            (
              rewritten_as p kept c,
              ground (
                arith,
                ap is_negative eg,
                select-update_self id (rewritten_as p kept) db.payouts c h,
              ),
            ),
      )
    ]
  ]

-- ===== src/Payout/Progress.antt =====
-- How a payout request gets paid: `DecidePayoutRequestByAdmin` and then
-- `MarkPayoutRequestPaidByAdmin` of internal/service/payout_service.go.
use hrbackend.Params.{uuid_nil}
use hrbackend.Prelude.{
  ℕ, ap, sym, subst, ◌∙◌, ◌<◌, ◌≡◌, ◌≢◌, refl, true, false, Option, some, arith,
}
use hrbackend.Prelude.Int.{ℤ, pos, ltb_ℤ, int32_half, ◌-32◌}
use hrbackend.Prelude.GoText.{Text, codes, text_eq, normalized}
use hrbackend.Prelude.Results.{ok}
use hrbackend.Time.{Time}
use hrbackend.Floats.{Floats}
use hrbackend.Store.{exec_tx}
use hrbackend.Store.Table.{select, update, select-update_self}
use hrbackend.Balance.{
  PayoutRow, pending, approved, LeaveDb, known, reserved, settled,
  compute_legal_leave_used_for_year, compute_reserved_payout_minutes_for_year,
  lock_employee_for_leave_balance,
}
use hrbackend.Payout.{
  available_minutes, get_payout_request_for_update, update_payout, approve_payout_request,
  mark_payout_request_paid,
}
use hrbackend.Payout.Service.{
  approve_checked, decide_payout_request_by_admin, mark_payout_request_paid_by_admin,
}
use hrbackend.Payout.Budget.{total}
use hrbackend.Payout.Decision.{decided_as}
use hrbackend.Payout.Lifecycle.{paid_as}

module _ (F : Floats) (legal_total : ℕ → ℕ → Time → ℤ) (contract_rate : ℕ → Option F.Float) where
  approval_succeeds :
      (admin id : ℕ) (remark : Option Text) (period now : Time) (db : LeaveDb F.Float)
      (c : PayoutRow F.Float)
      → admin ≢ uuid_nil
      → id ≢ uuid_nil
      → select id db.payouts ≡ some c
      → c.status ≡ pending
      → known c.employee_id db.employees ≡ true
      → known admin db.employees ≡ true
      → settled db c.employee_id c.balance_year < int32_half
      → reserved db c.employee_id c.balance_year < int32_half
      → ltb_ℤ
          (total F legal_total contract_rate now c.employee_id c.balance_year
            -32 pos (settled db c.employee_id c.balance_year)
            -32 pos (reserved db c.employee_id c.balance_year))
          (pos 0)
        ≡ false
      → (decide_payout_request_by_admin F legal_total contract_rate admin id
          (record {
            decision = codes "approve";
            decision_note = remark;
            pay_period_start = some period;
          })
          now
          db)
        ≡ (
          ok (decided_as approved admin remark period now c),
          record db {
            payouts = update id (decided_as approved admin remark period now) db.payouts;
          },
        )
  unfolding decide_payout_request_by_admin exec_tx get_payout_request_for_update approve_checked
      available_minutes compute_legal_leave_used_for_year compute_reserved_payout_minutes_for_year
      lock_employee_for_leave_balance approve_payout_request update_payout text_eq normalized
  approval_succeeds admin id remark period now db c ha hi hs hp hk hka hu hr hb =
      ground
        (arith, select-update_self id (decided_as approved admin remark period now) db.payouts c hs)

  payment_succeeds :
      (admin id : ℕ) (now : Time) (db : LeaveDb F.Float) (c : PayoutRow F.Float)
      → admin ≢ uuid_nil
      → id ≢ uuid_nil
      → select id db.payouts ≡ some c
      → c.status ≡ approved
      → known admin db.employees ≡ true
      → mark_payout_request_paid_by_admin F legal_total contract_rate admin id now db ≡ (
        ok (paid_as admin now c),
        record db { payouts = update id (paid_as admin now) db.payouts },
      )
  unfolding mark_payout_request_paid_by_admin exec_tx get_payout_request_for_update
      mark_payout_request_paid update_payout
  payment_succeeds admin id now db c ha hi hs hp hk =
      ground (arith, select-update_self id (paid_as admin now) db.payouts c hs)

  -- A pending payout request can be settled: where its employee and the administrators who decide and
  -- pay are employees of the table, the minutes spent and the minutes reserved are below 2 ^ 31, and
  -- what the year's total leaves of both is not negative, a decision "approve" with a pay period
  -- succeeds, the payment of the request succeeds after it, and the request is then paid, with the date
  -- of that pay period (none for the zero time), by the administrators who decided and paid. Condition:
  -- no key is nil.
  pub pending_payout_gets_paid :
      (admin payer id : ℕ) (remark : Option Text) (period now later : Time) (db : LeaveDb F.Float)
      (c : PayoutRow F.Float)
      → admin ≢ uuid_nil
      → payer ≢ uuid_nil
      → id ≢ uuid_nil
      → select id db.payouts ≡ some c
      → c.status ≡ pending
      → known c.employee_id db.employees ≡ true
      → known admin db.employees ≡ true
      → known payer db.employees ≡ true
      → settled db c.employee_id c.balance_year < int32_half
      → reserved db c.employee_id c.balance_year < int32_half
      → ltb_ℤ
          (total F legal_total contract_rate now c.employee_id c.balance_year
            -32 pos (settled db c.employee_id c.balance_year)
            -32 pos (reserved db c.employee_id c.balance_year))
          (pos 0)
        ≡ false
      → ((mark_payout_request_paid_by_admin F legal_total contract_rate payer id later
            (decide_payout_request_by_admin F legal_total contract_rate admin id
              (record {
                decision = codes "approve";
                decision_note = remark;
                pay_period_start = some period;
              })
              now
              db).1).0
          ≡ ok (paid_as payer later (decided_as approved admin remark period now c)))
        × (select id
              (mark_payout_request_paid_by_admin F legal_total contract_rate payer id later
                (decide_payout_request_by_admin F legal_total contract_rate admin id
                  (record {
                    decision = codes "approve";
                    decision_note = remark;
                    pay_period_start = some period;
                  })
                  now
                  db).1).1.payouts
            ≡ some (paid_as payer later (decided_as approved admin remark period now c)))
  pending_payout_gets_paid admin payer id remark period now later db c ha hpay hi hs hp hk hka hkp
        hu hr hb =
      let f : PayoutRow F.Float → PayoutRow F.Float = decided_as approved admin remark period now in
      let mid : LeaveDb F.Float = record db { payouts = update id f db.payouts } in
      let there : select id mid.payouts ≡ some (f c) = select-update_self id f db.payouts c hs in
      let approving : (decide_payout_request_by_admin F legal_total contract_rate admin id
            (record {
              decision = codes "approve";
              decision_note = remark;
              pay_period_start = some period;
            })
            now db).1
          ≡ mid =
        ap (λ x. x.1)
          (approval_succeeds admin id remark period now db c ha hi hs hp hk hka hu hr hb) in
      let paying = payment_succeeds payer id later mid (f c) hpay hi there refl hkp in
      subst
        (λ d.
          ((mark_payout_request_paid_by_admin F legal_total contract_rate payer id later d).0
            ≡ ok (paid_as payer later (f c)))
          × (select id
                (mark_payout_request_paid_by_admin F legal_total contract_rate payer id later
                  d).1.payouts
              ≡ some (paid_as payer later (f c))))
        (sym approving)
        (
          ap (λ x. x.0) paying,
          ap (λ x. select id x.1.payouts) paying
              ∙ select-update_self id (paid_as payer later) mid.payouts (f c) there,
        )

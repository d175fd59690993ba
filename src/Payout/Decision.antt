-- ===== src/Payout/Decision.antt =====
-- Decisions on payout requests and the leave balance: `DecidePayoutRequestByAdmin` and
-- `MarkPayoutRequestPaidByAdmin` of internal/service/payout_service.go.
use hrbackend.Prelude.{
  ℕ, ◌+◌, ◌<◌, ◌≡◌, refl, true, false, Option, some, arith, Option-cases, inl, inr, ap, ◌∙◌,
}
use hrbackend.Prelude.Int.{ℤ, pos, ltb_ℤ, int32_half, ◌-32◌, ◌≤ℤ◌, IsInt32}
use hrbackend.Prelude.GoText.{Text, codes, text_eq, normalized}
use hrbackend.Prelude.Results.{ok}
use hrbackend.Time.{Time}
use hrbackend.Floats.{Floats}
use hrbackend.Store.{exec_tx}
use hrbackend.Store.Table.{select, update, sum_rows-update, select-update_self, HasKeys}
use hrbackend.Balance.{
  PayoutRow, PayoutStatus, approved, LeaveDb, leave_used, payout_used, reserved, payout_share,
  is_settled, is_pending_payout, compute_legal_leave_used_for_year,
  compute_reserved_payout_minutes_for_year, lock_employee_for_leave_balance,
}
use hrbackend.Payout.{
  DecideParams, pg_date_from_time, available_minutes, get_payout_request_for_update, update_payout,
  approve_payout_request,
}
use hrbackend.Payout.Service.{approve_checked, decide_payout_request_by_admin}
use hrbackend.Payout.Budget.{committed, total, balance_exact}

-- What a payout request holds of its employee's balance.
abbrev pub held : {Float : Type 0} → ℕ → ℕ → PayoutRow Float → ℕ
held employee year r =
    payout_share is_settled employee year r + payout_share is_pending_payout employee year r

-- An update of one request changes what is committed by what that request holds.
pub committed-update :
    {Float : Type 0} (db : LeaveDb Float) (id : ℕ) (f : PayoutRow Float → PayoutRow Float)
    (r : PayoutRow Float) (employee year : ℕ)
    → HasKeys db.payouts
    → select id db.payouts ≡ some r
    → committed (record db { payouts = update id f db.payouts }) employee year
        + held employee year r
      ≡ committed db employee year + held employee year (f r)
unfolding leave_used payout_used reserved
committed-update db id f r employee year hk hr = ground (
  arith,
  sum_rows-update (payout_share is_settled employee year) id f db.payouts r hk hr,
  sum_rows-update (payout_share is_pending_payout employee year) id f db.payouts r hk hr,
)

-- The row that a decision writes.
abbrev pub decided_as :
    {Float : Type 0}
    → PayoutStatus
    → ℕ
    → Option Text
    → Time
    → Time
    → PayoutRow Float
    → PayoutRow Float
decided_as s admin remark period now r = record r {
  status = s;
  decision_note = remark;
  decided_by_employee_id = some admin;
  pay_period_start = pg_date_from_time period;
  decided_at = some now;
}

module _ (F : Floats) (legal_total : ℕ → ℕ → Time → ℤ) (contract_rate : ℕ → Option F.Float) where
  pub approve_checked_inverts :
      (admin id : ℕ) (p : DecideParams) (now : Time) (db db' : LeaveDb F.Float)
      (c r : PayoutRow F.Float)
      → approve_checked F legal_total contract_rate admin id c p now db ≡ (ok r, db')
      → select id db.payouts ≡ some c
      → (period : Time) × (p.pay_period_start ≡ some period)
        × (db' ≡ record db {
          payouts = update id (decided_as approved admin p.decision_note period now) db.payouts;
        })
        × (r ≡ decided_as approved admin p.decision_note period now c)
        × (ltb_ℤ
              (total F legal_total contract_rate now c.employee_id c.balance_year
                -32 pos (
                    leave_used db c.employee_id c.balance_year
                    + payout_used db c.employee_id c.balance_year)
                -32 pos (reserved db c.employee_id c.balance_year))
              (pos 0)
            ≡ false)
  unfolding approve_checked approve_payout_request update_payout available_minutes
      compute_legal_leave_used_for_year compute_reserved_payout_minutes_for_year
      lock_employee_for_leave_balance
  approve_checked_inverts admin id p now db db' c r e hs = elim (Option-cases p.pay_period_start) [
    | inl h ↦ ground arith
    | inr (period, h) ↦ (
      period,
      h,
      ground (
        arith,
        select-update_self id (decided_as approved admin p.decision_note period now) db.payouts c
            hs,
      ),
      ground (
        arith,
        select-update_self id (decided_as approved admin p.decision_note period now) db.payouts c
            hs,
      ),
      ground arith,
    )
  ]

  pub approve_inverts :
      (admin id : ℕ) (p : DecideParams) (now : Time) (db db' : LeaveDb F.Float)
      (r : PayoutRow F.Float)
      → decide_payout_request_by_admin F legal_total contract_rate admin id p now db ≡ (ok r, db')
      → text_eq (normalized p.decision) (codes "approve") ≡ true
      → (c : PayoutRow F.Float) × (select id db.payouts ≡ some c)
        × (is_pending_payout c.status ≡ true)
        × (approve_checked F legal_total contract_rate admin id c p now db ≡ (ok r, db'))
  unfolding decide_payout_request_by_admin exec_tx get_payout_request_for_update
  approve_inverts admin id p now db db' r e ha = elim (Option-cases (select id db.payouts)) [
    | inl h ↦ ground arith
    | inr (c, h) ↦ (c, h, ground arith, ground arith)
  ]

  -- An approval keeps what a request holds.
  decided_held :
      (s : PayoutStatus) (admin : ℕ) (remark : Option Text) (period now : Time)
      (c : PayoutRow F.Float) (employee year : ℕ)
      → is_pending_payout c.status ≡ true
      → s ≡ approved
      → held employee year (decided_as s admin remark period now c) ≡ held employee year c
  decided_held s admin remark period now c employee year hp hs = ground arith

  approve_committed :
      (admin id : ℕ) (remark : Option Text) (period now : Time) (db db' : LeaveDb F.Float)
      (c : PayoutRow F.Float) (employee year : ℕ)
      → HasKeys db.payouts
      → select id db.payouts ≡ some c
      → is_pending_payout c.status ≡ true
      → db'
        ≡ record db { payouts = update id (decided_as approved admin remark period now) db.payouts }
      → committed db' employee year ≡ committed db employee year
  approve_committed admin id remark period now db db' c employee year hk hs hpend edb =
      let step =
        committed-update db id (decided_as approved admin remark period now) c employee year hk
          hs in
      let keeps = decided_held approved admin remark period now c employee year hpend refl in
      let written : committed
            (record db {
              payouts = update id (decided_as approved admin remark period now) db.payouts;
            })
            employee year
          ≡ committed db employee year =
        omega (arith, step, keeps) in
      ap (λ d. committed d employee year) edb ∙ written

  -- An approval by `DecidePayoutRequestByAdmin` of a request under the decision "approve" neither
  -- raises nor lowers any employee's committed minutes of any year, and those of the request's
  -- employee and year lie within that year's total. Conditions: keys are unique, the total is a
  -- nonnegative int32, and the committed minutes are below 2 ^ 31.
  pub approve_within_budget :
      (admin id : ℕ) (p : DecideParams) (now : Time) (db db' : LeaveDb F.Float)
      (r : PayoutRow F.Float)
      → decide_payout_request_by_admin F legal_total contract_rate admin id p now db ≡ (ok r, db')
      → text_eq (normalized p.decision) (codes "approve") ≡ true
      → HasKeys db.payouts
      → IsInt32 (total F legal_total contract_rate now r.employee_id r.balance_year)
      → pos 0 ≤ℤ total F legal_total contract_rate now r.employee_id r.balance_year
      → committed db r.employee_id r.balance_year < int32_half
      → ((employee year : ℕ) → committed db' employee year ≡ committed db employee year)
        × (pos (committed db' r.employee_id r.balance_year)
            ≤ℤ total F legal_total contract_rate now r.employee_id r.balance_year)
  approve_within_budget admin id p now db db' r e ha hk ht hp hc =
      let (c, hs, hpend, ec) = approve_inverts admin id p now db db' r e ha in
      let (period, _, edb, er, enough) = approve_checked_inverts admin id p now db db' c r ec hs in
      (
        λ employee year.
            approve_committed admin id p.decision_note period now db db' c employee year hk hs hpend
              edb,
        (let emp : r.employee_id ≡ c.employee_id = ap (λ x. x.employee_id) er in
            let yr : r.balance_year ≡ c.balance_year = ap (λ x. x.balance_year) er in
            ground (
              arith,
              emp,
              yr,
              enough,
              approve_committed admin id p.decision_note period now db db' c r.employee_id
                  r.balance_year hk hs hpend edb,
              balance_exact (total F legal_total contract_rate now r.employee_id r.balance_year)
                  (leave_used db r.employee_id r.balance_year
                    + payout_used db r.employee_id r.balance_year)
                  (reserved db r.employee_id r.balance_year) ht hp hc,
            )),
      )

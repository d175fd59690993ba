-- ===== src/Payout/Settled/Approvals.antt =====
-- The calls of internal/service/payout_service.go that approve a request, and the minutes of a year's
-- balance that are spent.
use hrbackend.Prelude.{
  ℕ, ◌+◌, ◌*◌, ◌≤◌, ◌<◌, ◌≡◌, refl, true, false, ◌==◌, ◌&&◌, Option, arith, Bool-cases, inl, inr,
  ap, subst, sym, ◌∙◌,
}
use hrbackend.Prelude.Int.{ℤ, pos, pos_part, int32_half, ◌≤ℤ◌, IsInt32}
use hrbackend.Prelude.GoText.{codes, text_eq, normalized}
use hrbackend.Prelude.Results.{ok}
use hrbackend.Time.{Time}
use hrbackend.Floats.{Floats}
use hrbackend.Store.Table.{insert, sum_rows, HasKeys}
use hrbackend.Balance.{
  PayoutRow, approved, LeaveDb, leave_used, payout_used, reserved, settled, payout_share,
  is_settled,
}
use hrbackend.Payout.{CreateByAdminParams, DecideParams, payout_balance_as_of}
use hrbackend.Payout.Service.{
  create_approved_payout_request_by_admin, decide_payout_request_by_admin,
}
use hrbackend.Payout.Budget.{committed, total}
use hrbackend.Payout.Decision.{
  decided_as, approve_inverts, approve_checked_inverts, approve_within_budget,
}
use hrbackend.Payout.Direct.{create_approved_within_budget}
use hrbackend.Payout.Lifecycle.{rejected_as, filed_as}
use hrbackend.Payout.Lifecycle.Inverts.{create_approved_inserts, reject_inverts}
use hrbackend.Payout.Settled.{settled-update, settled-insert, settled-committed}

module _ (F : Floats) where
  open F use {Float, of_ℤ, ◌*F◌}

  module _ (legal_total : ℕ → ℕ → Time → ℤ) (contract_rate : ℕ → Option Float)
      (limit employee year : ℕ)
      (bounded : (t : Time)
        → (pos 0 ≤ℤ legal_total employee year t) × (pos_part (legal_total employee year t) ≤ limit))
      (small : limit < int32_half) where
    total-IsInt32 : (now : Time) → IsInt32 (total F legal_total contract_rate now employee year)
    total-IsInt32 now = ground (arith, bounded (payout_balance_as_of year now))

    -- A request for another employee or another year plays no part.
    other_share :
        (r : PayoutRow Float)
        → (r.employee_id == employee) && (r.balance_year == year) ≡ false
        → payout_share is_settled employee year r ≡ 0
    other_share r h = ground arith

    -- What an approval of a request for the employee and the year leaves committed.
    abbrev Within : Time → LeaveDb Float → LeaveDb Float → ℕ → ℕ → Type 0
    Within now db db' e y =
        IsInt32 (total F legal_total contract_rate now e y)
        → pos 0 ≤ℤ total F legal_total contract_rate now e y
        → committed db e y < int32_half
        → pos (committed db' e y) ≤ℤ total F legal_total contract_rate now e y

    Within-limit :
        (now : Time) (db db' : LeaveDb Float)
        → Within now db db' employee year
        → committed db employee year < int32_half
        → settled db' employee year ≤ limit
    Within-limit now db db' w hc =
        let b = bounded (payout_balance_as_of year now) in
        let c = w (total-IsInt32 now) b.0 hc in
        omega (arith, b, c, settled-committed F db' employee year)

    approve_within :
        (admin id : ℕ) (p : DecideParams) (now : Time) (db db' : LeaveDb Float)
        (r : PayoutRow Float)
        → decide_payout_request_by_admin F legal_total contract_rate admin id p now db ≡ (ok r, db')
        → text_eq (normalized p.decision) (codes "approve") ≡ true
        → HasKeys db.payouts
        → committed db employee year < int32_half
        → settled db employee year ≤ limit
        → settled db' employee year ≤ limit
    approve_within admin id p now db db' r e ha hk hc hs =
        let (c, hsel, hpend, ec) =
          approve_inverts F legal_total contract_rate admin id p now db db' r e ha in
        let (period, _, edb, er, _) =
          approve_checked_inverts F legal_total contract_rate admin id p now db db' c r ec hsel in
        let f : PayoutRow Float → PayoutRow Float =
          decided_as approved admin p.decision_note period now in
        elim (Bool-cases ((c.employee_id == employee) && (c.balance_year == year))) [
          | inr off ↦ ground (
            arith,
            edb,
            settled-update F db id f c employee year hk hsel,
            other_share c off,
            other_share (f c) off,
          )
          | inl on ↦
              let emp : r.employee_id ≡ employee = ap (λ x. x.employee_id) er ∙ (ground arith) in
              let yr : r.balance_year ≡ year = ap (λ x. x.balance_year) er ∙ (ground arith) in
              Within-limit now db db'
                (subst (λ x. Within now db db' x year) emp
                  (subst (λ y. Within now db db' r.employee_id y) yr
                    (λ i b h.
                      (approve_within_budget F legal_total contract_rate admin id p now db db' r e
                        ha hk i b h).1)))
                hc
        ]

    pub decide_within :
        (admin id : ℕ) (p : DecideParams) (now : Time) (db db' : LeaveDb Float)
        (r : PayoutRow Float)
        → decide_payout_request_by_admin F legal_total contract_rate admin id p now db ≡ (ok r, db')
        → HasKeys db.payouts
        → committed db employee year < int32_half
        → settled db employee year ≤ limit
        → settled db' employee year ≤ limit
    decide_within admin id p now db db' r e hk hc hs =
        elim (Bool-cases (text_eq (normalized p.decision) (codes "approve"))) [
          | inl ha ↦ approve_within admin id p now db db' r e ha hk hc hs
          | inr hr ↦
              let (c, h, st, edb) =
                reject_inverts F legal_total contract_rate admin id p now db db' r e hr in
              let f : PayoutRow Float → PayoutRow Float = rejected_as admin p.decision_note now in
              ground (arith, edb, st, settled-update F db id f c employee year hk h)
        ]

    added_committed :
        (db : LeaveDb Float) (k : ℕ) (r : PayoutRow Float)
        → is_settled r.status ≡ true
        → committed (record db { payouts = insert k r db.payouts }) r.employee_id r.balance_year
          ≡ committed db r.employee_id r.balance_year + r.requested_hours * 60
    unfolding leave_used payout_used reserved sum_rows insert
    added_committed db k r h = ground arith

    pub create_approved_within :
        (fresh admin : ℕ) (now : Time) (p : CreateByAdminParams) (db db' : LeaveDb Float)
        (r : PayoutRow Float)
        → create_approved_payout_request_by_admin F legal_total contract_rate fresh now admin p db
          ≡ (ok r, db')
        → committed db employee year < int32_half
        → committed db' employee year < int32_half
        → settled db employee year ≤ limit
        → settled db' employee year ≤ limit
    create_approved_within fresh admin now p db db' r e hc hc' hs =
        let (_, kept, gross, _, _, _, edb) =
          create_approved_inserts F legal_total contract_rate fresh admin now p db db' r e in
        let row : PayoutRow Float =
          decided_as approved admin p.decision_note p.pay_period_start now (
            filed_as p.employee_id admin p.requested_hours p.balance_year kept gross
              p.request_note) in
        elim (Bool-cases ((row.employee_id == employee) && (row.balance_year == year))) [
          | inr off ↦
              ground (arith, edb, settled-insert F db fresh row employee year, other_share row off)
          | inl on ↦
              let emp : p.employee_id ≡ employee = ground arith in
              let yr : pos_part p.balance_year ≡ year = ground arith in
              let added : committed db' employee year
                  ≡ committed db employee year + pos_part p.requested_hours * 60 =
                subst
                  (λ d.
                    committed d employee year
                    ≡ committed db employee year + pos_part p.requested_hours * 60)
                  (sym edb)
                  (subst
                    (λ x.
                      committed (record db { payouts = insert fresh row db.payouts }) x year
                      ≡ committed db x year + pos_part p.requested_hours * 60)
                    emp
                    (subst
                      (λ y.
                        committed (record db { payouts = insert fresh row db.payouts })
                          p.employee_id y
                        ≡ committed db p.employee_id y + pos_part p.requested_hours * 60)
                      yr (added_committed db fresh row refl))) in
              Within-limit now db db'
                (subst (λ x. Within now db db' x year) emp
                  (subst (λ y. Within now db db' p.employee_id y) yr
                    (λ i b h.
                      create_approved_within_budget F legal_total contract_rate fresh admin now p db
                        db' r e i b (omega (arith, added)) h)))
                hc
        ]

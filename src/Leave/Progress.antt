-- ===== src/Leave/Progress.antt =====
-- How a leave request gets approved: `DecideLeaveRequestByAdmin` of internal/service/leave_service.go.
use hrbackend.Params.{uuid_nil}
use hrbackend.Prelude.{ℕ, ◌≢◌, ◌+◌, ◌<◌, ◌≡◌, true, false, Option, some, arith, ◌∙◌, ap}
use hrbackend.Prelude.Int.{ℤ, pos, ltb_ℤ, int32_half, ◌-32◌}
use hrbackend.Prelude.GoText.{Text, codes, text_eq, trim_space}
use hrbackend.Prelude.Results.{ok}
use hrbackend.Time.{Time}
use hrbackend.Store.{exec_tx}
use hrbackend.Store.Table.{select, update, HasKeys}
use hrbackend.Balance.{
  pending, approved, LeaveRow, LeavePolicy, LeaveDb, settled, known,
  compute_legal_leave_used_for_year, lock_employee_for_leave_balance,
}
use hrbackend.Leave.Queries.{
  as_read, row_valid, leave_decided_as, year_of, get_active_leave_policy_by_type,
  get_leave_request_for_update, update_leave, update_leave_request_decision,
}
use hrbackend.Leave.Service.{check_leave_balance, decide_leave_request_by_admin}
use hrbackend.Leave.Minutes.{Contracts}
use hrbackend.Leave.Budget.{settled-update, unapproved_share, year_of-in_year}
use hrbackend.Leave.Queries.{as_read}

module _ {Float : Type 0} (legal_total : ℕ → ℕ → Time → ℤ) (contract_at : Contracts) where
  -- The balance test passes.
  check_passes :
      (now : Time) (db : LeaveDb Float) (r : LeaveRow) (p : LeavePolicy)
      → db.policies r.leave_type ≡ some p
      → p.is_active ≡ true
      → p.deducts_balance ≡ true
      → year_of r.start_date ≡ year_of r.end_date
      → 0 < r.requested_minutes
      → known r.employee_id db.employees ≡ true
      → settled db r.employee_id (year_of r.start_date) < int32_half
      → ltb_ℤ
          (legal_total r.employee_id (year_of r.start_date) now
            -32 pos (settled db r.employee_id (year_of r.start_date)))
          (pos r.requested_minutes)
        ≡ false
      → check_leave_balance legal_total contract_at (as_read r) now db ≡ (ok tt, db)
  unfolding check_leave_balance get_active_leave_policy_by_type lock_employee_for_leave_balance
      compute_legal_leave_used_for_year
  check_passes now db r p hp ha hd hy hm hk hu hb = ground arith

  decision_succeeds :
      (admin id : ℕ) (remark : Option Text) (now : Time) (db : LeaveDb Float) (r : LeaveRow)
      → admin ≢ uuid_nil
      → id ≢ uuid_nil
      → select id db.leaves ≡ some r
      → r.status ≡ pending
      → row_valid r ≡ true
      → known admin db.employees ≡ true
      → check_leave_balance legal_total contract_at (as_read r) now db ≡ (ok tt, db)
      → decide_leave_request_by_admin legal_total contract_at admin id
          (record { decision = codes "approve"; decision_note = remark })
          now
          db
        ≡ (
          ok (leave_decided_as approved remark admin now r),
          record db { leaves = update id (leave_decided_as approved remark admin now) db.leaves },
        )
  unfolding decide_leave_request_by_admin exec_tx get_leave_request_for_update
      update_leave_request_decision update_leave text_eq trim_space
  decision_succeeds admin id remark now db r ha hi hs hp hv hka hc = ground arith

  -- A pending leave request that the balance covers gets approved, and takes its minutes from the
  -- balance of its year, no more and no less. Conditions: neither key is nil, keys are unique, the
  -- request meets the table's constraints, its type has an active policy that deducts balance, it
  -- starts and ends in one year, its employee and the administrator are employees of the table, the
  -- minutes spent of that year are below 2 ^ 31, and the int32 difference of the legal total and them
  -- is not below the minutes requested.
  pub pending_leave_gets_approved :
      (admin id : ℕ) (remark : Option Text) (now : Time) (db : LeaveDb Float) (r : LeaveRow)
      (p : LeavePolicy)
      → admin ≢ uuid_nil
      → id ≢ uuid_nil
      → HasKeys db.leaves
      → select id db.leaves ≡ some r
      → r.status ≡ pending
      → row_valid r ≡ true
      → known admin db.employees ≡ true
      → db.policies r.leave_type ≡ some p
      → p.is_active ≡ true
      → p.deducts_balance ≡ true
      → year_of r.start_date ≡ year_of r.end_date
      → known r.employee_id db.employees ≡ true
      → settled db r.employee_id (year_of r.start_date) < int32_half
      → ltb_ℤ
          (legal_total r.employee_id (year_of r.start_date) now
            -32 pos (settled db r.employee_id (year_of r.start_date)))
          (pos r.requested_minutes)
        ≡ false
      → ((decide_leave_request_by_admin legal_total contract_at admin id
            (record { decision = codes "approve"; decision_note = remark })
            now
            db).0
          ≡ ok (leave_decided_as approved remark admin now r))
        × (settled
              (decide_leave_request_by_admin legal_total contract_at admin id
                (record { decision = codes "approve"; decision_note = remark })
                now
                db).1
              r.employee_id
              (year_of r.start_date)
            ≡ settled db r.employee_id (year_of r.start_date) + r.requested_minutes)
  pending_leave_gets_approved admin id remark now db r p ha hi hkeys hs hp hv hka hpol hact hded hy
        hk hu hb =
      let passes = check_passes now db r p hpol hact hded hy (ground arith) hk hu hb in
      let done = decision_succeeds admin id remark now db r ha hi hs hp hv hka passes in
      let f : LeaveRow → LeaveRow = leave_decided_as approved remark admin now in
      let share : settled (record db { leaves = update id f db.leaves }) r.employee_id
            (year_of r.start_date)
          ≡ settled db r.employee_id (year_of r.start_date) + r.requested_minutes =
        ground (
          arith,
          settled-update legal_total db id f r r.employee_id (year_of r.start_date) hkeys hs,
          unapproved_share legal_total db r.employee_id (year_of r.start_date) r (ground arith),
          year_of-in_year r.start_date,
        ) in
      (ap (λ x. x.0) done, ap (λ x. settled x.1 r.employee_id (year_of r.start_date)) done ∙ share)

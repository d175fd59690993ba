-- ===== src/Examples/Leave.antt =====
-- A day of leave of one employee, through internal/service/leave_service.go.
use hrbackend.Prelude.{ℕ, ◌+◌, ◌*◌, ◌≡◌, refl, true, Option, none, some, [], ◌∷◌, arith, subst, sym}
use hrbackend.Prelude.Int.{ℤ, pos, int32, ◌-32◌}
use hrbackend.Prelude.GoText.{codes, text_eq, trim_space}
use hrbackend.Prelude.Results.{ok}
use hrbackend.Time.{Time}
use hrbackend.Time.Calendar.{year_day, days_before_year}
use hrbackend.Store.{IsAtomic, exec_tx}
use hrbackend.Store.Table.{select, update, sum_rows}
use hrbackend.Examples.{whole}
use hrbackend.Balance.{
  vacation, pending, approved, full_day, LeaveRow, LeavePolicy, LeaveDb, leave_used, payout_used,
  reserved, settled, compute_legal_leave_used_for_year, lock_employee_for_leave_balance,
}
use hrbackend.Leave.Accruals.{
  Accrual, IsAllocation, allocate_leave_usage_to_contract_accruals,
  allocate_leave_usage-IsAllocation,
}
use hrbackend.Leave.Minutes.{
  Contracts, calculate_full_day_minutes, calculate_full_day_minutes_lem, days_from,
  full_day_reference,
}
use hrbackend.Leave.Queries.{
  leave_decided_as, get_active_leave_policy_by_type, get_leave_request_for_update,
  update_leave_request_decision, update_leave, year_of,
}
use hrbackend.Leave.Updates.{UpdateLeaveParams}
use hrbackend.Leave.Service.{
  CreateLeaveParams, DecideLeaveParams, create_leave_request, create_leave_request_by_admin,
  update_leave_request, update_leave_request_by_admin, decide_leave_request_by_admin,
  check_leave_balance,
}
use hrbackend.Leave.Lifecycle.{decide, perform, leave_calls-IsAtomic}
use hrbackend.Leave.Invariant.{
  IsSound, Continues, perform_all, leave_calls-IsSound, leave_call-Continues,
}
use hrbackend.Leave.Progress.{pending_leave_gets_approved}
use hrbackend.Settlement.{
  on_leave, perform_on_balance, FitsInt32, IsWithin, starts, calls, run-IsWithin,
}

abbrev legal_total : ℕ → ℕ → Time → ℤ
legal_total employee year t = pos 6000

abbrev contract_rate : ℕ → Option ℕ
contract_rate employee = some 20

-- A contract whose day off is Sunday.
abbrev contract_at : Contracts
contract_at employee t = some 0

-- Thursday 12 November 2026.
abbrev now : Time
now = 739931 * 86400

abbrev request : LeaveRow
request = record {
  employee_id = 7;
  created_by_employee_id = 7;
  leave_type = vacation;
  status = pending;
  duration_type = full_day;
  requested_minutes = 480;
  start_time = none;
  end_time = none;
  start_date = now;
  end_date = now;
  reason = none;
  decision_note = none;
  decided_by_employee_id = none;
  decided_at = none;
}

abbrev policy : LeavePolicy
policy = record { deducts_balance = true; is_active = true }

abbrev db : LeaveDb ℕ
db = record {
  employees = 7 ∷ 9 ∷ [];
  policies = λ t. some policy;
  leaves = (1, request) ∷ [];
  payouts = [];
}

abbrev approval : DecideLeaveParams
approval = record { decision = codes "approve"; decision_note = none }

abbrev approved_db : LeaveDb ℕ
approved_db = record db { leaves = (1, leave_decided_as approved none 9 now request) ∷ [] }

abbrev segment : ℕ → Accrual
segment contract = record {
  contract_id = contract;
  gained_minutes = pos 600;
  deducted_minutes = pos 0;
  remaining_minutes = pos 0;
}

allocate_leave_usage-IsAllocation_example :
    IsAllocation 700
      (segment 1 ∷ segment 2 ∷ [])
      (allocate_leave_usage_to_contract_accruals (segment 1 ∷ segment 2 ∷ []) (pos 700))
allocate_leave_usage-IsAllocation_example =
    allocate_leave_usage-IsAllocation (segment 1 ∷ segment 2 ∷ []) (pos 700) (ground arith)
      (ground arith)

-- Thursday to Sunday: three days are charged.
calculate_full_day_minutes_lem_example :
    calculate_full_day_minutes contract_at 7 now (now + 259200)
    ≡ full_day_reference contract_at 7 (days_from contract_at 7 4 now)
calculate_full_day_minutes_lem_example =
    calculate_full_day_minutes_lem contract_at 7 now (now + 259200) (ground arith) (ground arith)

abbrev new_request : CreateLeaveParams
new_request = record {
  employee_id = 7;
  created_by_employee_id = 7;
  leave_type = codes "vacation";
  duration_type = codes "full_day";
  start_date = now;
  end_date = now;
  start_time = none;
  end_time = none;
  reason = none;
}

abbrev no_change : UpdateLeaveParams
no_change = record {
  leave_type = none;
  duration_type = none;
  start_date = none;
  end_date = none;
  start_time = none;
  end_time = none;
  reason = none;
}

leave_calls-IsAtomic_example :
    IsAtomic (create_leave_request {Float = ℕ} legal_total contract_at 2 7 new_request)
    × IsAtomic (create_leave_request_by_admin {Float = ℕ} legal_total contract_at 2 7 new_request)
    × IsAtomic (update_leave_request {Float = ℕ} legal_total contract_at 7 1 no_change now)
    × IsAtomic
        (update_leave_request_by_admin {Float = ℕ} legal_total contract_at 7 1 no_change [] now)
    × IsAtomic (decide_leave_request_by_admin {Float = ℕ} legal_total contract_at 7 1 approval now)
leave_calls-IsAtomic_example =
    leave_calls-IsAtomic legal_total contract_at 2 7 1 now new_request no_change [] approval

leave_calls-IsSound_example :
    IsSound (perform_all legal_total contract_at ((now, decide 9 1 approval) ∷ []) db)
leave_calls-IsSound_example =
    leave_calls-IsSound legal_total contract_at ((now, decide 9 1 approval) ∷ []) db
      ((tt, tt), ((refl, refl), tt))

approval_performed : perform legal_total contract_at now (decide 9 1 approval) db ≡ approved_db
unfolding perform decide_leave_request_by_admin exec_tx get_leave_request_for_update
    check_leave_balance get_active_leave_policy_by_type lock_employee_for_leave_balance
    compute_legal_leave_used_for_year update_leave_request_decision update_leave select update
    sum_rows leave_used payout_used ◌-32◌ int32 text_eq trim_space year_day days_before_year
approval_performed = refl

leave_call-Continues_example :
    Continues request
      (select 1 (perform legal_total contract_at now (decide 9 1 approval) db).leaves)
unfolding select
leave_call-Continues_example =
    leave_call-Continues legal_total contract_at now (decide 9 1 approval) db 1 request refl

pending_leave_gets_approved_example :
    ((decide_leave_request_by_admin legal_total contract_at 9 1 approval now db).0
      ≡ ok (leave_decided_as approved none 9 now request))
    × (settled
          (decide_leave_request_by_admin legal_total contract_at 9 1 approval now db).1
          7
          (year_of now)
        ≡ settled db 7 (year_of now) + 480)
unfolding select leave_used payout_used sum_rows year_day days_before_year ◌-32◌ int32
pending_leave_gets_approved_example =
    pending_leave_gets_approved legal_total contract_at 9 1 none now db request policy
      (ground arith) (ground arith) (tt, tt) refl refl refl refl refl refl refl refl refl
      (ground arith) refl

db_fits : FitsInt32 db
unfolding leave_used payout_used reserved sum_rows
db_fits employee year = ground arith

approved_db_fits : FitsInt32 approved_db
unfolding leave_used payout_used reserved sum_rows
approved_db_fits employee year = ground arith

run-IsWithin_example :
    IsWithin
      (λ employee year. 6000)
      (perform_on_balance whole legal_total contract_rate contract_at now
        (on_leave (decide 9 1 approval))
        db)
unfolding perform_on_balance leave_used payout_used sum_rows
run-IsWithin_example =
    run-IsWithin whole legal_total contract_rate contract_at (λ employee year. 6000)
      (λ employee year t. (ground arith, ground arith)) (λ employee year. ground arith) db
      (perform_on_balance whole legal_total contract_rate contract_at now
        (on_leave (decide 9 1 approval)) db)
      (calls db now (on_leave (decide 9 1 approval)) starts refl db_fits
        (subst FitsInt32 (sym approval_performed) approved_db_fits))
      ((tt, tt), tt, λ employee year. ground arith)

-- ===== src/Examples/Payout.antt =====
-- Payout requests of one employee, through internal/service/payout_service.go.
use hrbackend.Params.{uuid_nil}
use hrbackend.Prelude.{
  ◌≢◌, ◌↔◌, ◌||◌, false, ℕ, ◌*◌, ◌≡◌, refl, true, [], ◌∷◌, some, none, Option, arith,
}
use hrbackend.Prelude.Int.{ℤ, pos, ◌≤ℤ◌, ◌-32◌, ◌*32◌, int32}
use hrbackend.Prelude.GoText.{codes, text_eq, normalized, trim_space, to_lower}
use hrbackend.Prelude.Results.{ok}
use hrbackend.Time.{Time}
use hrbackend.Store.{exec_tx}
use hrbackend.Store.Table.{select, insert, update, sum_rows}
use hrbackend.Examples.{whole}
use hrbackend.Balance.{
  PayoutRow, pending, approved, LeaveDb, leave_used, payout_used, reserved,
  compute_legal_leave_used_for_year, compute_reserved_payout_minutes_for_year,
  lock_employee_for_leave_balance,
}
use hrbackend.Payout.Direct.{create_approved_within_budget, update_payout_request_by_admin_iff}
use hrbackend.Payout.{
  not_positive, year_out_of_range, CreateParams, UpdateParams, CreateByAdminParams, DecideParams,
  get_payout_request_for_update, insert_payout, update_payout, approve_payout_request,
  available_minutes, payout_rate,
}
use hrbackend.Payout.Service.{
  create_checked, create_payout_request, update_payout_request_by_admin,
  create_approved_payout_request_by_admin, approve_checked, decide_payout_request_by_admin,
  mark_payout_request_paid_by_admin,
}
use hrbackend.Payout.Budget.{committed}
use hrbackend.Payout.Creation.{create_payout_request_within_budget, create_payout_request_overflow}
use hrbackend.Payout.Decision.{decided_as, approve_within_budget}
use hrbackend.Payout.Progress.{pending_payout_gets_paid}
use hrbackend.Payout.Lifecycle.{create, decide, mark_paid, paid_as, perform}
use hrbackend.Payout.Lifecycle.Invariant.{
  IsSound, Continues, perform_all, perform_all-IsSound, perform-Continues,
}

abbrev legal_total : ℕ → ℕ → Time → ℤ
legal_total employee year t = pos 6000

abbrev contract_rate : ℕ → Option ℕ
contract_rate employee = some 20

abbrev now : Time
now = 739931 * 86400

abbrev db : LeaveDb ℕ
db = record { employees = 7 ∷ 9 ∷ []; policies = λ t. none; leaves = []; payouts = [] }

abbrev ten_hours : CreateParams
ten_hours = record {
  employee_id = 7;
  created_by_employee_id = 7;
  requested_hours = pos 10;
  balance_year = pos 2026;
  request_note = none;
}

abbrev request : PayoutRow ℕ
request = record {
  employee_id = 7;
  created_by_employee_id = 7;
  requested_hours = 10;
  balance_year = 2026;
  hourly_rate = 20;
  gross_amount = 200;
  pay_period_start = none;
  status = pending;
  request_note = none;
  decision_note = none;
  decided_by_employee_id = none;
  paid_by_employee_id = none;
  decided_at = none;
  paid_at = none;
}

-- The database with the request under the key 1.
abbrev filed_db : LeaveDb ℕ
filed_db = record db { payouts = (1, request) ∷ [] }

ten_hours_created :
    create_payout_request whole legal_total contract_rate 1 now 7 ten_hours db ≡ (ok 1, filed_db)
unfolding create_payout_request create_checked available_minutes payout_rate insert_payout exec_tx
    insert select sum_rows leave_used payout_used reserved compute_legal_leave_used_for_year
    compute_reserved_payout_minutes_for_year lock_employee_for_leave_balance ◌-32◌ ◌*32◌ int32
ten_hours_created = refl

create_payout_request_within_budget_example : pos (committed filed_db 7 2026) ≤ℤ pos 6000
unfolding leave_used payout_used reserved sum_rows
create_payout_request_within_budget_example =
    create_payout_request_within_budget whole legal_total contract_rate 1 7 now ten_hours db
      filed_db 1 ten_hours_created (ground arith) (ground arith) (ground arith) (ground arith)

create_payout_request_overflow_example :
    (create_payout_request whole legal_total contract_rate 1 now 7
      (record {
        employee_id = 7;
        created_by_employee_id = 7;
        requested_hours = pos 40000000;
        balance_year = pos 2026;
        request_note = none;
      })
      db).0
    ≡ ok 1
unfolding select leave_used payout_used reserved sum_rows ◌-32◌ int32
create_payout_request_overflow_example =
    create_payout_request_overflow whole legal_total contract_rate 1 7 40000000 2026 20 20 800000000
      now none db (ground arith) (ground arith) (ground arith) (ground arith) (ground arith) refl
      refl refl refl refl refl refl refl (ground arith) (ground arith) (ground arith)

abbrev approval : DecideParams
approval = record { decision = codes " Approve"; decision_note = none; pay_period_start = some now }

abbrev decided : PayoutRow ℕ
decided = record request {
  status = approved;
  pay_period_start = some now;
  decided_by_employee_id = some 9;
  decided_at = some now;
}

abbrev decided_db : LeaveDb ℕ
decided_db = record db { payouts = (1, decided) ∷ [] }

request_approved :
    decide_payout_request_by_admin whole legal_total contract_rate 9 1 approval now filed_db
    ≡ (ok decided, decided_db)
unfolding decide_payout_request_by_admin approve_checked get_payout_request_for_update
    approve_payout_request update_payout available_minutes exec_tx select update sum_rows leave_used
    payout_used reserved compute_legal_leave_used_for_year compute_reserved_payout_minutes_for_year
    lock_employee_for_leave_balance ◌-32◌ int32 text_eq normalized trim_space to_lower
request_approved = refl

says_approve : text_eq (normalized (codes " Approve")) (codes "approve") ≡ true
unfolding text_eq normalized trim_space to_lower
says_approve = refl

approve_within_budget_example :
    ((employee year : ℕ) → committed decided_db employee year ≡ committed filed_db employee year)
    × (pos (committed decided_db 7 2026) ≤ℤ pos 6000)
unfolding leave_used payout_used reserved sum_rows
approve_within_budget_example =
    approve_within_budget whole legal_total contract_rate 9 1 approval now filed_db decided_db
      decided request_approved says_approve (tt, tt) (ground arith) (ground arith) (ground arith)

pending_payout_gets_paid_example :
    ((mark_payout_request_paid_by_admin whole legal_total contract_rate 9 1 now
        (decide_payout_request_by_admin whole legal_total contract_rate 9 1
          (record { decision = codes "approve"; decision_note = none; pay_period_start = some now })
          now
          filed_db).1).0
      ≡ ok (paid_as 9 now (decided_as approved 9 none now now request)))
    × (select 1
          (mark_payout_request_paid_by_admin whole legal_total contract_rate 9 1 now
            (decide_payout_request_by_admin whole legal_total contract_rate 9 1
              (record {
                decision = codes "approve";
                decision_note = none;
                pay_period_start = some now;
              })
              now
              filed_db).1).1.payouts
        ≡ some (paid_as 9 now (decided_as approved 9 none now now request)))
unfolding select leave_used payout_used reserved sum_rows ◌-32◌ int32
pending_payout_gets_paid_example =
    pending_payout_gets_paid whole legal_total contract_rate 9 9 1 none now now now filed_db request
      (ground arith) (ground arith) (ground arith) refl refl refl refl refl (ground arith)
      (ground arith) refl

perform_all-IsSound_example : IsSound whole (
    perform_all whole legal_total contract_rate
      ((now, create 1 7 ten_hours) ∷ (now, decide 9 1 approval) ∷ (now, mark_paid 9 1) ∷ [])
      db)
perform_all-IsSound_example =
    perform_all-IsSound whole legal_total contract_rate
      ((now, create 1 7 ten_hours) ∷ (now, decide 9 1 approval) ∷ (now, mark_paid 9 1) ∷ []) db
      (tt, tt)

request_there : select 1 filed_db.payouts ≡ some request
unfolding select
request_there = refl

perform-Continues_example :
    Continues whole request (
      select 1 (perform whole legal_total contract_rate now (decide 9 1 approval) filed_db).payouts)
perform-Continues_example =
    perform-Continues whole legal_total contract_rate now (decide 9 1 approval) filed_db 1 request
      request_there

abbrev change : UpdateParams
change = record { requested_hours = pos 12; balance_year = pos 2026; request_note = none }

abbrev direct : CreateByAdminParams
direct = record {
  employee_id = 7;
  requested_hours = pos 12;
  balance_year = pos 2026;
  pay_period_start = now;
  request_note = none;
  decision_note = none;
}

abbrev granted : PayoutRow ℕ
granted = record request {
  created_by_employee_id = 9;
  requested_hours = 12;
  gross_amount = 240;
  status = approved;
  pay_period_start = some now;
  decided_by_employee_id = some 9;
  decided_at = some now;
}

abbrev granted_db : LeaveDb ℕ
granted_db = record db { payouts = (2, granted) ∷ [] }

twelve_hours_granted :
    create_approved_payout_request_by_admin whole legal_total contract_rate 2 now 9 direct db
    ≡ (ok granted, granted_db)
unfolding create_approved_payout_request_by_admin create_checked available_minutes payout_rate
    insert_payout approve_payout_request update_payout exec_tx insert select update sum_rows
    leave_used payout_used reserved compute_legal_leave_used_for_year
    compute_reserved_payout_minutes_for_year lock_employee_for_leave_balance ◌-32◌ ◌*32◌ int32
twelve_hours_granted = refl

create_approved_within_budget_example : pos (committed granted_db 7 2026) ≤ℤ pos 6000
unfolding leave_used payout_used reserved sum_rows
create_approved_within_budget_example =
    create_approved_within_budget whole legal_total contract_rate 2 9 now direct db granted_db
      granted twelve_hours_granted (ground arith) (ground arith) (ground arith) (ground arith)

update_payout_request_by_admin_iff_example :
    ((r : PayoutRow ℕ) × ((update_payout_request_by_admin whole legal_total contract_rate 9 1 change
          decided_db).0
        ≡ ok r))
    ↔ ((9 ≢ uuid_nil)
        × (1 ≢ uuid_nil)
        × (not_positive change.requested_hours || year_out_of_range change.balance_year ≡ false)
        × ((c : PayoutRow ℕ) × (select 1 decided_db.payouts ≡ some c)
            × ((gross : ℕ) × (whole.to_amount (12 * c.hourly_rate) ≡ some gross)
                × (whole.is_negative gross ≡ false))))
update_payout_request_by_admin_iff_example =
    update_payout_request_by_admin_iff whole legal_total contract_rate 9 1 change decided_db

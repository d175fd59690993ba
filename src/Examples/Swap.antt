-- ===== src/Examples/Swap.antt =====
-- Two employees who exchange a shift, through internal/service/schedule_shift_swap.go.
use hrbackend.Prelude.{
  ◌⊎◌, false, ◌==◌, if◌then◌else◌, ℕ, ◌≡◌, refl, true, [], ◌∷◌, some, none, arith,
}
use hrbackend.Prelude.GoText.{codes, text_eq, normalized, trim_space, to_lower}
use hrbackend.Prelude.Results.{ok}
use hrbackend.Store.{exec_tx}
use hrbackend.Store.Table.{insert, select, update}
use hrbackend.Swap.Atomic.{IsApproved, approval_takes_effect_or_none}
use hrbackend.Swap.Answers.{respond_to_shift_swap_request_lem}
use hrbackend.Swap.ByAdmin.{create_admin-exchanged, create_admin-NoDoubleBooking}
use hrbackend.Swap.Tables.{
  db_error, pending_recipient, recipient_rejected, is_past, pending_admin, confirmed, ScheduleRow,
  SwapRow, SwapDb, count_schedule_overlaps_for_employee, clashes,
}
use hrbackend.Swap.Queries.{
  insert_shift_swap_request, update_shift_swap_status_after_recipient_response,
  get_schedule_for_swap_validation, mark_shift_swap_confirmed, update_swap_where,
}
use hrbackend.Swap.Service.{
  make_admin_swap, answer_swap, decide_swap, explained, respond_to_shift_swap_request,
  CreateAdminRequest, create_admin_shift_swap_request, admin_decision_shift_swap_request,
  approve_swap, swappable, lock_schedules_by_ids_for_swap, check_pair, reassign,
  update_schedule_employee_assignment, record_schedule_assignment_history,
}
use hrbackend.Swap.Exchange.{exchanged, approval-exchanged}
use hrbackend.Swap.Bookings.{NoDoubleBooking, approval-NoDoubleBooking}

abbrev early : ScheduleRow
early = record { employee_id = 7; location_id = 1; start_datetime = 100; end_datetime = 200 }

abbrev late : ScheduleRow
late = record { employee_id = 8; location_id = 1; start_datetime = 200; end_datetime = 300 }

abbrev asked : SwapRow
asked = record {
  requester_employee_id = 7;
  recipient_employee_id = 8;
  requester_schedule_id = 1;
  recipient_schedule_id = 2;
  status = pending_admin;
  requested_at = 10;
  recipient_responded_at = some 20;
  admin_decided_at = none;
  recipient_response_note = none;
  admin_decision_note = none;
  admin_employee_id = none;
  expires_at = none;
}

abbrev answered : SwapRow
answered = record asked {
  status = confirmed;
  admin_decided_at = some 30;
  admin_employee_id = some 9;
}

abbrev before : SwapDb
before = record {
  employees = 7 ∷ 8 ∷ 9 ∷ [];
  schedules = (1, early) ∷ (2, late) ∷ [];
  swaps = (5, asked) ∷ [];
  history = [];
}

abbrev after : SwapDb
after = (admin_decision_shift_swap_request none 9 5 (codes "approve") none 30 before).1

approved_run :
    admin_decision_shift_swap_request none 9 5 (codes "approve") none 30 before
    ≡ (ok answered, after)
unfolding admin_decision_shift_swap_request decide_swap exec_tx approve_swap swappable
    lock_schedules_by_ids_for_swap get_schedule_for_swap_validation check_pair
    count_schedule_overlaps_for_employee reassign update_schedule_employee_assignment
    record_schedule_assignment_history mark_shift_swap_confirmed update_swap_where clashes select
    update text_eq normalized trim_space to_lower
approved_run = refl

says_approve : text_eq (normalized (codes "approve")) (codes "approve") ≡ true
unfolding text_eq normalized trim_space to_lower
says_approve = refl

approval-exchanged_example :
    (w : SwapRow) × (select 5 before.swaps ≡ some w)
    × (w.status ≡ pending_admin)
    × (select 5 after.swaps ≡ some answered)
    × (answered.status ≡ confirmed)
    × ((k : ℕ)
        → select k after.schedules
          ≡ exchanged w.requester_schedule_id w.recipient_schedule_id before.schedules k)
approval-exchanged_example =
    approval-exchanged none 9 5 (codes "approve") none 30 before after answered approved_run
      says_approve

no_double_booking : NoDoubleBooking before.schedules
unfolding select
no_double_booking i j r s ij hi hj e = ground arith

approval-NoDoubleBooking_example : NoDoubleBooking after.schedules
approval-NoDoubleBooking_example =
    approval-NoDoubleBooking none 9 5 (codes "approve") none 30 before after answered approved_run
      says_approve no_double_booking

abbrev order : CreateAdminRequest
order = record {
  requester_employee_id = 7;
  recipient_employee_id = 8;
  requester_schedule_id = 1;
  recipient_schedule_id = 2;
  remark = none;
}

abbrev unasked : SwapDb
unasked = record before { swaps = [] }

abbrev ordered : SwapDb
ordered = (create_admin_shift_swap_request none 5 30 9 order unasked).1

ordered_run : create_admin_shift_swap_request none 5 30 9 order unasked ≡ (ok 5, ordered)
unfolding create_admin_shift_swap_request make_admin_swap exec_tx swappable
    lock_schedules_by_ids_for_swap get_schedule_for_swap_validation check_pair
    count_schedule_overlaps_for_employee reassign update_schedule_employee_assignment
    record_schedule_assignment_history insert_shift_swap_request
    update_shift_swap_status_after_recipient_response mark_shift_swap_confirmed update_swap_where
    clashes select update insert
ordered_run = refl

create_admin-NoDoubleBooking_example : NoDoubleBooking ordered.schedules
create_admin-NoDoubleBooking_example =
    create_admin-NoDoubleBooking none 5 30 9 order unasked ordered 5 ordered_run no_double_booking

-- The read of the details fails after the commit.
approval_takes_effect_or_none_example :
    ((admin_decision_shift_swap_request (some db_error) 9 5 (codes "approve") none 30 before).1
      ≡ before)
    ⊎ IsApproved 5 before
        (admin_decision_shift_swap_request (some db_error) 9 5 (codes "approve") none 30 before).1
approval_takes_effect_or_none_example =
    approval_takes_effect_or_none (some db_error) 9 5 (codes "approve") none 30 before says_approve

create_admin-exchanged_example : select 1 ordered.schedules ≡ exchanged 1 2 unasked.schedules 1
create_admin-exchanged_example =
    create_admin-exchanged none 5 30 9 order unasked ordered 5 ordered_run 1

abbrev offered : SwapDb
offered = record before {
  swaps = (5, record asked { status = pending_recipient; recipient_responded_at = none }) ∷ [];
}

accepted_run :
    respond_to_shift_swap_request none 8 5 (codes "Accept ") none 20 offered ≡ (ok asked, before)
unfolding respond_to_shift_swap_request answer_swap explained
    update_shift_swap_status_after_recipient_response update_swap_where clashes select update
    text_eq normalized trim_space to_lower
accepted_run = refl

respond_to_shift_swap_request_lem_example :
    (w : SwapRow) × (select 5 offered.swaps ≡ some w)
    × (w.recipient_employee_id ≡ 8)
    × (w.status ≡ pending_recipient)
    × (is_past w.expires_at 20 ≡ false)
    × (((text_eq (normalized (codes "Accept ")) (codes "accept") ≡ true)
          × (asked.status ≡ pending_admin))
        ⊎ ((text_eq (normalized (codes "Accept ")) (codes "reject") ≡ true)
            × (asked.status ≡ recipient_rejected)))
    × (before.schedules ≡ offered.schedules)
    × ((k : ℕ) → select k before.swaps ≡ (if 5 == k then some asked else select k offered.swaps))
respond_to_shift_swap_request_lem_example =
    respond_to_shift_swap_request_lem none 8 5 (codes "Accept ") none 20 offered before asked
      accepted_run

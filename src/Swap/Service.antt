-- ===== src/Swap/Service.antt =====
-- The operations of internal/service/schedule_shift_swap.go.
use hrbackend.Params.{uuid_nil}
use hrbackend.Prelude.{ℕ, not, ◌&&◌, ◌||◌, Option, none, some, [], ◌∷◌, ltb, ◌==◌, if◌then◌else◌}
use hrbackend.Prelude.GoText.{Text, codes, text_eq, trim_space, normalized}
use hrbackend.Prelude.Results.{ok, err}
use hrbackend.Time.{Time}
use hrbackend.Store.{pure, raise, raise_if, one_row, gets, ◌>>=◌, ◌>>◌, exec_tx}
use hrbackend.Store.Table.{select, update}
use hrbackend.Balance.{known}
use hrbackend.Swap.Tables.{
  recipient_rejected, pending_admin, SwapError, invalid_request, schedule_not_found,
  schedule_in_past, schedule_ownership, swap_not_found, swap_expired, state_invalid, conflict,
  db_error, ScheduleRow, SwapRow, is_pending_admin, is_expired, is_past, Call,
  count_schedule_overlaps_for_employee,
}
use hrbackend.Swap.Queries.{
  insert_shift_swap_request, update_shift_swap_status_after_recipient_response,
  update_shift_swap_admin_decision, mark_shift_swap_confirmed, expire_pending_shift_swap_requests,
  get_schedule_for_swap_validation,
}

pub record CreateRequest : Type 0 where
  pub recipient_employee_id : ℕ
  pub requester_schedule_id : ℕ
  pub recipient_schedule_id : ℕ
  pub expires_at : Option Time

pub record CreateAdminRequest : Type 0 where
  pub requester_employee_id : ℕ
  pub recipient_employee_id : ℕ
  pub requester_schedule_id : ℕ
  pub recipient_schedule_id : ℕ
  pub remark : Option Text

unfoldable pub create_shift_swap_request : ℕ → Time → ℕ → CreateRequest → Call ℕ
create_shift_swap_request fresh now requester p = do
  raise_if (requester == uuid_nil) invalid_request
  raise_if
      ((p.requester_schedule_id == uuid_nil)
        || (p.recipient_schedule_id == uuid_nil)
        || (p.recipient_employee_id == uuid_nil))
      invalid_request
  raise_if
      ((requester == p.recipient_employee_id)
        || (p.requester_schedule_id == p.recipient_schedule_id))
      invalid_request
  raise_if (is_past p.expires_at now) invalid_request
  requester_schedule ← get_schedule_for_swap_validation p.requester_schedule_id
  recipient_schedule ← get_schedule_for_swap_validation p.recipient_schedule_id
  raise_if (ltb requester_schedule.start_datetime now || ltb recipient_schedule.start_datetime now)
      schedule_in_past
  raise_if
      (not (requester_schedule.employee_id == requester)
        || not (recipient_schedule.employee_id == p.recipient_employee_id))
      schedule_ownership
  expire_pending_shift_swap_requests now
  insert_shift_swap_request fresh requester p.recipient_employee_id p.requester_schedule_id
      p.recipient_schedule_id p.expires_at now

-- `LockSchedulesByIDsForSwap` and the map of its rows: two rows, one under each key.
unfoldable pub lock_schedules_by_ids_for_swap : ℕ → ℕ → Call (ScheduleRow × ScheduleRow)
lock_schedules_by_ids_for_swap a b = do
  raise_if (a == b) schedule_not_found
  r ← get_schedule_for_swap_validation a
  s ← get_schedule_for_swap_validation b
  pure (r, s)

-- The checks on the two locked schedules that `CreateAdminShiftSwapRequest` and the approval share.
unfoldable pub check_pair : ℕ → ℕ → ℕ → ℕ → Time → ScheduleRow × ScheduleRow → Call (Unit {0})
check_pair a b requester recipient now pair = do
  raise_if (not (pair.0.employee_id == requester) || not (pair.1.employee_id == recipient))
      schedule_ownership
  raise_if (ltb pair.0.start_datetime now || ltb pair.1.start_datetime now) schedule_in_past
  schedules ← gets (λ db. db.schedules)
  raise_if
      (ltb 0 (
        count_schedule_overlaps_for_employee requester a b pair.1.start_datetime pair.1.end_datetime
          schedules))
      conflict
  raise_if
      (ltb 0 (
        count_schedule_overlaps_for_employee recipient a b pair.0.start_datetime pair.0.end_datetime
          schedules))
      conflict

unfoldable pub swappable : ℕ → ℕ → ℕ → ℕ → Time → Call (ScheduleRow × ScheduleRow)
swappable a b requester recipient now = do
  pair ← lock_schedules_by_ids_for_swap a b
  check_pair a b requester recipient now pair
  pure pair

-- `UpdateScheduleEmployeeAssignment`.
unfoldable pub update_schedule_employee_assignment : ℕ → ℕ → Call (Unit {0})
update_schedule_employee_assignment id employee db = (
  ok tt,
  record db { schedules = update id (λ s. record s { employee_id = employee }) db.schedules },
)

-- `recordScheduleAssignmentHistory`, which references the actor.
unfoldable pub record_schedule_assignment_history :
    ℕ → ScheduleRow → ℕ → ℕ → ℕ → ℕ → Call (Unit {0})
record_schedule_assignment_history id s actor old_employee new_employee swap = do
  employees ← gets (λ db. db.employees)
  raise_if (not (known actor employees)) db_error
  (λ db. (
    ok tt,
    record db {
      history =
          (record {
            schedule_id = id;
            location_id = s.location_id;
            actor_employee_id = actor;
            old_employee_id = old_employee;
            new_employee_id = new_employee;
            start_datetime = s.start_datetime;
            end_datetime = s.end_datetime;
            shift_swap_request_id = swap;
          })
          ∷ db.history;
    },
  ))

-- The four writes that give each schedule to the other employee.
unfoldable pub reassign : ℕ → ℕ → ScheduleRow × ScheduleRow → ℕ → ℕ → ℕ → ℕ → Call (Unit {0})
reassign a b pair requester recipient admin swap = do
  update_schedule_employee_assignment a recipient
  record_schedule_assignment_history a pair.0 admin pair.0.employee_id recipient swap
  update_schedule_employee_assignment b requester
  record_schedule_assignment_history b pair.1 admin pair.1.employee_id requester swap

-- A note that is blank is none.
abbrev pub trimmed_note : Option Text → Option Text
trimmed_note none = none
trimmed_note (some t) = elim (trim_space t) [ [] ↦ none | c ∷ cs ↦ some (c ∷ cs) ]

-- A failure of m as another error.
abbrev pub as_error : {A : Type 0} → SwapError → Call A → Call A
as_error e m db = let (r, db') = m db in elim r [ ok a ↦ (ok a, db') | err f ↦ (err e, db') ]

-- `GetShiftSwapRequestDetailsByID` after the write, for the answer: `details` is the error that it
-- returns, if it returns one. The write stays.
abbrev pub after_details : {A : Type 0} → Option SwapError → Call A → Call A
after_details none m db = m db
after_details (some e) m db =
    let (r, db') = m db in elim r [ ok a ↦ (err e, db') | err f ↦ (err f, db') ]

-- `CreateAdminShiftSwapRequest` up to the end of its transaction.
unfoldable pub make_admin_swap : ℕ → Time → ℕ → CreateAdminRequest → Call ℕ
make_admin_swap fresh now admin p = do
  raise_if (admin == uuid_nil) invalid_request
  raise_if
      ((p.requester_employee_id == uuid_nil)
        || (p.recipient_employee_id == uuid_nil)
        || (p.requester_schedule_id == uuid_nil)
        || (p.recipient_schedule_id == uuid_nil))
      invalid_request
  raise_if
      ((p.requester_employee_id == p.recipient_employee_id)
        || (p.requester_schedule_id == p.recipient_schedule_id))
      invalid_request
  exec_tx (do
    pair ←
        swappable p.requester_schedule_id p.recipient_schedule_id p.requester_employee_id
          p.recipient_employee_id now
    created ←
        insert_shift_swap_request fresh p.requester_employee_id p.recipient_employee_id
          p.requester_schedule_id p.recipient_schedule_id none now
    as_error state_invalid (
        update_shift_swap_status_after_recipient_response created p.recipient_employee_id
          pending_admin none now)
    as_error state_invalid (mark_shift_swap_confirmed created (trimmed_note p.remark) admin now)
    reassign p.requester_schedule_id p.recipient_schedule_id pair p.requester_employee_id
        p.recipient_employee_id admin created
    pure created)

unfoldable pub create_admin_shift_swap_request :
    Option SwapError → ℕ → Time → ℕ → CreateAdminRequest → Call ℕ
create_admin_shift_swap_request details fresh now admin p =
    after_details details (make_admin_swap fresh now admin p)

-- The error for an update that found no row: `GetShiftSwapRequestByID` tells why.
unfoldable pub explained : ℕ → Time → Call SwapRow → Call SwapRow
explained id now m db =
    let (r, db') = m db in
    elim r [
      | ok a ↦ (ok a, db')
      | err f ↦ elim (select id db'.swaps) [
        | none ↦ (err swap_not_found, db')
        | some s ↦ (
          err (
              if is_expired s.status || is_past s.expires_at now
              then swap_expired
              else state_invalid),
          db',
        )
      ]
    ]

-- `RespondToShiftSwapRequest` up to its update.
unfoldable pub answer_swap : ℕ → ℕ → Text → Option Text → Time → Call SwapRow
answer_swap recipient id decision remark now =
    let accept = text_eq (normalized decision) (codes "accept") in
    let reject = text_eq (normalized decision) (codes "reject") in
    do
      raise_if ((recipient == uuid_nil) || (id == uuid_nil)) invalid_request
      raise_if (not accept && not reject) invalid_request
      explained id now (
          update_shift_swap_status_after_recipient_response id recipient
            (if accept then pending_admin else recipient_rejected) remark now)

unfoldable pub respond_to_shift_swap_request :
    Option SwapError → ℕ → ℕ → Text → Option Text → Time → Call SwapRow
respond_to_shift_swap_request details recipient id decision remark now =
    after_details details (answer_swap recipient id decision remark now)

-- The approving branch of `AdminDecisionShiftSwapRequest`.
unfoldable pub approve_swap : ℕ → ℕ → Option Text → Time → Call SwapRow
approve_swap admin id remark now = do
  swaps ← gets (λ db. db.swaps)
  row ← one_row (select id swaps) swap_not_found
  raise_if (is_expired row.status) swap_expired
  raise_if (not (is_pending_admin row.status)) state_invalid
  raise_if (is_past row.expires_at now) swap_expired
  pair ←
      swappable row.requester_schedule_id row.recipient_schedule_id row.requester_employee_id
        row.recipient_employee_id now
  reassign row.requester_schedule_id row.recipient_schedule_id pair row.requester_employee_id
      row.recipient_employee_id admin id
  as_error state_invalid (mark_shift_swap_confirmed id (trimmed_note remark) admin now)

-- `AdminDecisionShiftSwapRequest` up to the end of its transaction, or its update.
unfoldable pub decide_swap : ℕ → ℕ → Text → Option Text → Time → Call SwapRow
decide_swap admin id decision remark now =
    let approve = text_eq (normalized decision) (codes "approve") in
    let reject = text_eq (normalized decision) (codes "reject") in
    do
      raise_if ((admin == uuid_nil) || (id == uuid_nil)) invalid_request
      (if approve
          then exec_tx (approve_swap admin id remark now)
          else (if reject
              then explained id now (update_shift_swap_admin_decision id remark admin now)
              else raise invalid_request))

unfoldable pub admin_decision_shift_swap_request :
    Option SwapError → ℕ → ℕ → Text → Option Text → Time → Call SwapRow
admin_decision_shift_swap_request details admin id decision remark now =
    after_details details (decide_swap admin id decision remark now)

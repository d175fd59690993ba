-- ===== src/Swap/Exchange.antt =====
-- What an approved swap does to the schedules: `AdminDecisionShiftSwapRequest` and
-- `CreateAdminShiftSwapRequest` of internal/service/schedule_shift_swap.go.
use hrbackend.Prelude.{
  ℕ, ◌≡◌, ◌≢◌, inl, inr, ◌∙◌, true, Option, none, some, arith, ◌==◌, if◌then◌else◌, Option-cases,
}
use hrbackend.Prelude.GoText.{Text, codes, text_eq, normalized}
use hrbackend.Prelude.Results.{ok, Result-cases}
use hrbackend.Time.{Time}
use hrbackend.Store.{exec_tx}
use hrbackend.Store.Table.{Table, select, update, select-update, select-update_self}
use hrbackend.Balance.{known}
use hrbackend.Swap.Tables.{
  SwapError, Call, pending_admin, confirmed, state_invalid, ScheduleRow, SwapRow, SwapDb,
  count_schedule_overlaps_for_employee,
}
use hrbackend.Swap.Queries.{
  update_swap_where, mark_shift_swap_confirmed, get_schedule_for_swap_validation,
}
use hrbackend.Swap.Service.{
  lock_schedules_by_ids_for_swap, check_pair, swappable, update_schedule_employee_assignment,
  record_schedule_assignment_history, reassign, trimmed_note, as_error, after_details, approve_swap,
  decide_swap, admin_decision_shift_swap_request,
}

-- Schedule k after the assignments of the schedules a and b are exchanged.
unfoldable pub exchanged : ℕ → ℕ → Table ScheduleRow → ℕ → Option ScheduleRow
exchanged a b t k = elim (select a t) [
  | none ↦ none
  | some r ↦ elim (select b t) [
    | none ↦ none
    | some s ↦
        if k == a
        then some (record r { employee_id = s.employee_id })
        else if k == b
        then some (record s { employee_id = r.employee_id })
        else select k t
  ]
]

-- What the checks found: two schedules, of these employees, with no conflict.
abbrev pub Checked : ℕ → ℕ → ℕ → ℕ → ScheduleRow × ScheduleRow → SwapDb → Type 0
Checked a b requester recipient pair db =
    (a ≢ b)
    × (select a db.schedules ≡ some pair.0)
    × (select b db.schedules ≡ some pair.1)
    × (pair.0.employee_id ≡ requester)
    × (pair.1.employee_id ≡ recipient)
    × (count_schedule_overlaps_for_employee requester a b pair.1.start_datetime pair.1.end_datetime
          db.schedules
        ≡ 0)
    × (count_schedule_overlaps_for_employee recipient a b pair.0.start_datetime pair.0.end_datetime
          db.schedules
        ≡ 0)

lock_inverts :
    (a b : ℕ) (db db' : SwapDb) (pair : ScheduleRow × ScheduleRow)
    → lock_schedules_by_ids_for_swap a b db ≡ (ok pair, db')
    → (db' ≡ db)
      × (a ≢ b)
      × (select a db.schedules ≡ some pair.0)
      × (select b db.schedules ≡ some pair.1)
unfolding lock_schedules_by_ids_for_swap get_schedule_for_swap_validation
lock_inverts a b db db' pair e = elim (Option-cases (select a db.schedules)) [
  | inl h ↦ ground arith
  | inr (r, h) ↦ elim (Option-cases (select b db.schedules)) [
    | inl h2 ↦ ground arith
    | inr (s, h2) ↦ (ground arith, ground arith, ground arith, ground arith)
  ]
]

check_inverts :
    (a b requester recipient : ℕ) (now : Time) (db db' : SwapDb) (pair : ScheduleRow × ScheduleRow)
    → check_pair a b requester recipient now pair db ≡ (ok tt, db')
    → (db' ≡ db)
      × (pair.0.employee_id ≡ requester)
      × (pair.1.employee_id ≡ recipient)
      × (count_schedule_overlaps_for_employee requester a b pair.1.start_datetime
            pair.1.end_datetime db.schedules
          ≡ 0)
      × (count_schedule_overlaps_for_employee recipient a b pair.0.start_datetime
            pair.0.end_datetime db.schedules
          ≡ 0)
unfolding check_pair
check_inverts a b requester recipient now db db' pair e =
    (ground arith, ground arith, ground arith, ground arith, ground arith)

swappable_splits :
    (a b requester recipient : ℕ) (now : Time) (db db' : SwapDb) (pair : ScheduleRow × ScheduleRow)
    → swappable a b requester recipient now db ≡ (ok pair, db')
    → (mid : SwapDb) × (lock_schedules_by_ids_for_swap a b db ≡ (ok pair, mid))
      × (check_pair a b requester recipient now pair mid ≡ (ok tt, db'))
unfolding swappable
swappable_splits a b requester recipient now db db' pair e =
    elim (Result-cases (lock_schedules_by_ids_for_swap a b db).0) [
      | inl (f, h) ↦ ground arith
      | inr (p, h) ↦ ((lock_schedules_by_ids_for_swap a b db).1, ground arith, ground arith)
    ]

pub swappable_inverts :
    (a b requester recipient : ℕ) (now : Time) (db db' : SwapDb) (pair : ScheduleRow × ScheduleRow)
    → swappable a b requester recipient now db ≡ (ok pair, db')
    → (db' ≡ db) × Checked a b requester recipient pair db
unfolding swappable
swappable_inverts a b requester recipient now db db' pair e =
    let (mid, locked, checked) = swappable_splits a b requester recipient now db db' pair e in
    let (emid, ne, ha, hb) = lock_inverts a b db mid pair locked in
    let (edb, er, ec, n1, n2) = check_inverts a b requester recipient now mid db' pair checked in
    (edb ∙ emid, (ne, ha, hb, er, ec, ground arith, ground arith))

-- A call that succeeds was not stopped by the read of the details.
pub after_details_ok :
    {A : Type 0} (details : Option SwapError) (m : Call A) (db db' : SwapDb) (a : A)
    → after_details details m db ≡ (ok a, db')
    → m db ≡ (ok a, db')
after_details_ok none m db db' a e = e
after_details_ok (some f) m db db' a e = elim (Result-cases (m db).0) [
  | inl (g, h) ↦ ground arith
  | inr (b, h) ↦ ground arith
]

-- The reassignment succeeds for an employee of the table only.
pub reassign-known :
    (a b requester recipient admin id : ℕ) (pair : ScheduleRow × ScheduleRow) (db db' : SwapDb)
    → reassign a b pair requester recipient admin id db ≡ (ok tt, db')
    → known admin db.employees ≡ true
unfolding reassign update_schedule_employee_assignment record_schedule_assignment_history
reassign-known a b requester recipient admin id pair db db' e = ground arith

pub reassign_schedules :
    (a b requester recipient admin id : ℕ) (pair : ScheduleRow × ScheduleRow) (db : SwapDb)
    → Checked a b requester recipient pair db
    → known admin db.employees ≡ true
    → (k : ℕ)
    → select k (reassign a b pair requester recipient admin id db).1.schedules
      ≡ exchanged a b db.schedules k
unfolding reassign update_schedule_employee_assignment record_schedule_assignment_history exchanged
reassign_schedules a b requester recipient admin id pair db (ne, ha, hb, er, ec, _, _) hk k =
    ground (
      arith,
      select-update a k (λ s. record s { employee_id = recipient }) db.schedules,
      select-update b k (λ s. record s { employee_id = requester })
          (update a (λ s. record s { employee_id = recipient }) db.schedules),
    )

approve_splits :
    (admin id : ℕ) (remark : Option Text) (now : Time) (db db' : SwapDb) (w' : SwapRow)
    → approve_swap admin id remark now db ≡ (ok w', db')
    → (w : SwapRow) × (pair : ScheduleRow × ScheduleRow) × (mid : SwapDb) × (select id db.swaps
        ≡ some w)
      × (w.status ≡ pending_admin)
      × (swappable w.requester_schedule_id w.recipient_schedule_id w.requester_employee_id
            w.recipient_employee_id now db
          ≡ (ok pair, mid))
      × (known admin mid.employees ≡ true)
      × (as_error state_invalid
            (mark_shift_swap_confirmed id (trimmed_note remark) admin now)
            (reassign w.requester_schedule_id w.recipient_schedule_id pair w.requester_employee_id
              w.recipient_employee_id admin id mid).1
          ≡ (ok w', db'))
unfolding approve_swap reassign update_schedule_employee_assignment
    record_schedule_assignment_history
approve_splits admin id remark now db db' w' e = elim (Option-cases (select id db.swaps)) [
  | inl h ↦ ground arith
  | inr (w, h) ↦
      elim (Result-cases
        (swappable w.requester_schedule_id w.recipient_schedule_id w.requester_employee_id
          w.recipient_employee_id now db).0) [
            | inl (f, g) ↦ ground arith
            | inr (pair, g) ↦ (
              w,
              pair,
              (swappable w.requester_schedule_id w.recipient_schedule_id w.requester_employee_id
                  w.recipient_employee_id now db).1,
              h,
              ground arith,
              ground arith,
              ground arith,
              ground arith,
            )
          ]
]

pub confirmed_inverts :
    (admin id : ℕ) (remark : Option Text) (now : Time) (db db' : SwapDb) (w' : SwapRow)
    → as_error state_invalid (mark_shift_swap_confirmed id remark admin now) db ≡ (ok w', db')
    → (db'.schedules ≡ db.schedules) × (select id db'.swaps ≡ some w') × (w'.status ≡ confirmed)
unfolding mark_shift_swap_confirmed update_swap_where
confirmed_inverts admin id remark now db db' w' e = elim (Option-cases (select id db.swaps)) [
  | inl h ↦ ground arith
  | inr (w, h) ↦ (
    ground arith,
    ground (
      arith,
      select-update_self id
          (λ r. record r {
            status = confirmed;
            admin_decided_at = some now;
            admin_decision_note = remark;
            admin_employee_id = some admin;
          })
          db.swaps w h,
    ),
    ground arith,
  )
]

pub approval_inverts :
    (details : Option SwapError) (admin id : ℕ) (decision : Text) (remark : Option Text)
    (now : Time) (db db' : SwapDb) (w' : SwapRow)
    → admin_decision_shift_swap_request details admin id decision remark now db ≡ (ok w', db')
    → text_eq (normalized decision) (codes "approve") ≡ true
    → (w : SwapRow) × (pair : ScheduleRow × ScheduleRow) × (select id db.swaps ≡ some w)
      × (w.status ≡ pending_admin)
      × Checked w.requester_schedule_id w.recipient_schedule_id w.requester_employee_id
          w.recipient_employee_id pair db
      × (select id db'.swaps ≡ some w')
      × (w'.status ≡ confirmed)
      × ((k : ℕ)
          → select k db'.schedules
            ≡ exchanged w.requester_schedule_id w.recipient_schedule_id db.schedules k)
unfolding admin_decision_shift_swap_request decide_swap exec_tx
approval_inverts details admin id decision remark now db db' w' e ha =
    let done = after_details_ok details (decide_swap admin id decision remark now) db db' w' e in
    let (w, pair, mid, h, hs, sw, hk, marked) =
      approve_splits admin id remark now db db' w' (ground arith) in
    let (emid, checked) =
      swappable_inverts w.requester_schedule_id w.recipient_schedule_id w.requester_employee_id
        w.recipient_employee_id now db mid pair sw in
    let (es, h', hc) =
      confirmed_inverts admin id (trimmed_note remark) now
        (reassign w.requester_schedule_id w.recipient_schedule_id pair w.requester_employee_id
          w.recipient_employee_id admin id mid).1
        db' w' marked in
    (
      w,
      pair,
      h,
      hs,
      checked,
      h',
      hc,
      λ k. ground (
        arith,
        reassign_schedules w.requester_schedule_id w.recipient_schedule_id w.requester_employee_id
            w.recipient_employee_id admin id pair db checked (ground (arith, emid, hk)) k,
      ),
    )

-- `AdminDecisionShiftSwapRequest` with the decision "approve", when it succeeds, found the swap
-- waiting for the administrator; afterwards the swap is confirmed, the swap's two schedules have each
-- other's employee, and every other schedule is as it was.
pub approval-exchanged :
    (details : Option SwapError) (admin id : ℕ) (decision : Text) (remark : Option Text)
    (now : Time) (db db' : SwapDb) (w' : SwapRow)
    → admin_decision_shift_swap_request details admin id decision remark now db ≡ (ok w', db')
    → text_eq (normalized decision) (codes "approve") ≡ true
    → (w : SwapRow) × (select id db.swaps ≡ some w)
      × (w.status ≡ pending_admin)
      × (select id db'.swaps ≡ some w')
      × (w'.status ≡ confirmed)
      × ((k : ℕ)
          → select k db'.schedules
            ≡ exchanged w.requester_schedule_id w.recipient_schedule_id db.schedules k)
approval-exchanged details admin id decision remark now db db' w' e ha =
    let (w, _, h, hs, _, h', hc, ex) =
      approval_inverts details admin id decision remark now db db' w' e ha in
    (w, h, hs, h', hc, ex)

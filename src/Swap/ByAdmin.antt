-- ===== src/Swap/ByAdmin.antt =====
-- A swap that an administrator makes at once: `CreateAdminShiftSwapRequest` of
-- internal/service/schedule_shift_swap.go.
use hrbackend.Prelude.{ap, sym, ℕ, ◌≡◌, inl, inr, ◌∙◌, Option, none, arith}
use hrbackend.Prelude.GoText.{Text}
use hrbackend.Prelude.Results.{ok, Result-cases}
use hrbackend.Time.{Time}
use hrbackend.Store.{exec_tx}
use hrbackend.Store.Table.{select}
use hrbackend.Swap.Exchange.{
  after_details_ok, Checked, exchanged, swappable_inverts, reassign-known, reassign_schedules,
  confirmed_inverts,
}
use hrbackend.Swap.Bookings.{NoDoubleBooking, exchanged-NoDoubleBooking}
use hrbackend.Swap.Tables.{
  SwapError, SwapStatus, pending_admin, state_invalid, ScheduleRow, SwapRow, SwapDb,
}
use hrbackend.Swap.Queries.{
  insert_shift_swap_request, update_shift_swap_status_after_recipient_response, update_swap_where,
  mark_shift_swap_confirmed,
}
use hrbackend.Swap.Service.{
  CreateAdminRequest, make_admin_swap, create_admin_shift_swap_request, swappable, reassign,
  trimmed_note, as_error,
}

inserted_schedules :
    (fresh requester recipient a b : ℕ) (expires : Option Time) (now : Time) (db : SwapDb)
    → (insert_shift_swap_request fresh requester recipient a b expires now db).1.schedules
      ≡ db.schedules
unfolding insert_shift_swap_request
inserted_schedules fresh requester recipient a b expires now db = ground arith

answered_schedules :
    (id recipient : ℕ) (next : SwapStatus) (remark : Option Text) (now : Time) (db : SwapDb)
    → (update_shift_swap_status_after_recipient_response id recipient next remark now
        db).1.schedules
      ≡ db.schedules
unfolding update_shift_swap_status_after_recipient_response update_swap_where
answered_schedules id recipient next remark now db = ground arith

by_admin_splits :
    (fresh : ℕ) (now : Time) (admin : ℕ) (p : CreateAdminRequest) (db db' : SwapDb) (k : ℕ)
    → make_admin_swap fresh now admin p db ≡ (ok k, db')
    → (pair : ScheduleRow × ScheduleRow) × (mid : SwapDb) × (w : SwapRow) × (swappable
          p.requester_schedule_id p.recipient_schedule_id p.requester_employee_id
          p.recipient_employee_id now db
        ≡ (ok pair, mid))
      × (let made =
            (insert_shift_swap_request fresh p.requester_employee_id p.recipient_employee_id
              p.requester_schedule_id p.recipient_schedule_id none now mid).1 in
          let answered =
            (update_shift_swap_status_after_recipient_response k p.recipient_employee_id
              pending_admin none now made).1 in
          let marked =
            as_error state_invalid
              (mark_shift_swap_confirmed k (trimmed_note p.remark) admin now)
              answered in
          (marked.0 ≡ ok w)
          × (reassign p.requester_schedule_id p.recipient_schedule_id pair p.requester_employee_id
                p.recipient_employee_id admin k marked.1
              ≡ (ok tt, db')))
unfolding make_admin_swap exec_tx
by_admin_splits fresh now admin p db db' k e =
    elim (Result-cases
      (swappable p.requester_schedule_id p.recipient_schedule_id p.requester_employee_id
        p.recipient_employee_id now db).0) [
          | inl (f, h) ↦ ground arith
          | inr (pair, h) ↦
              let mid =
                (swappable p.requester_schedule_id p.recipient_schedule_id p.requester_employee_id
                  p.recipient_employee_id now db).1 in
              let inserting =
                insert_shift_swap_request fresh p.requester_employee_id p.recipient_employee_id
                  p.requester_schedule_id p.recipient_schedule_id none now mid in
              elim (Result-cases inserting.0) [
                | inl (f, h2) ↦ ground arith
                | inr (c, h2) ↦
                    let answering =
                      update_shift_swap_status_after_recipient_response c p.recipient_employee_id
                        pending_admin none now inserting.1 in
                    elim (Result-cases answering.0) [
                      | inl (f, h3) ↦ ground arith
                      | inr (v, h3) ↦
                          let marking =
                            mark_shift_swap_confirmed c (trimmed_note p.remark) admin now
                              answering.1 in
                          elim (Result-cases marking.0) [
                            | inl (f, h4) ↦ ground arith
                            | inr (w, h4) ↦
                                elim (Result-cases
                                  (reassign p.requester_schedule_id p.recipient_schedule_id pair
                                    p.requester_employee_id p.recipient_employee_id admin c
                                    marking.1).0) [
                                      | inl (f, h5) ↦ ground arith
                                      | inr (done, h5) ↦
                                          (pair, mid, w, ground arith, (ground arith, ground arith))
                                    ]
                          ]
                    ]
              ]
        ]

-- The reassignment, after writes that left the schedules as they were.
exchanges :
    (a b requester recipient admin id : ℕ) (pair : ScheduleRow × ScheduleRow) (db mid db' : SwapDb)
    → Checked a b requester recipient pair db
    → mid.schedules ≡ db.schedules
    → reassign a b pair requester recipient admin id mid ≡ (ok tt, db')
    → (j : ℕ) → select j db'.schedules ≡ exchanged a b db.schedules j
exchanges a b requester recipient admin id pair db mid db' (ne, ha, hb, er, ec, n1, n2) same edb j =
    sym (ap (λ x. select j x.1.schedules) edb)
    ∙ reassign_schedules a b requester recipient admin id pair mid
        (ne, ground arith, ground arith, er, ec, ground arith, ground arith)
        (reassign-known a b requester recipient admin id pair mid db' edb) j
    ∙ ap (λ t. exchanged a b t j) same

by_admin_inverts :
    (details : Option SwapError) (fresh : ℕ) (now : Time) (admin : ℕ) (p : CreateAdminRequest)
    (db db' : SwapDb) (k : ℕ)
    → create_admin_shift_swap_request details fresh now admin p db ≡ (ok k, db')
    → (pair : ScheduleRow × ScheduleRow) × Checked p.requester_schedule_id p.recipient_schedule_id
        p.requester_employee_id p.recipient_employee_id pair db
      × ((j : ℕ)
          → select j db'.schedules
            ≡ exchanged p.requester_schedule_id p.recipient_schedule_id db.schedules j)
unfolding create_admin_shift_swap_request
by_admin_inverts details fresh now admin p db db' k e =
    let done = after_details_ok details (make_admin_swap fresh now admin p) db db' k e in
    let a = p.requester_schedule_id in
    let b = p.recipient_schedule_id in
    let (pair, mid, w, locked, (okay, edb)) = by_admin_splits fresh now admin p db db' k done in
    let (emid, checked) =
      swappable_inverts a b p.requester_employee_id p.recipient_employee_id now db mid pair
        locked in
    let made =
      (insert_shift_swap_request fresh p.requester_employee_id p.recipient_employee_id a b none now
        mid).1 in
    let answered =
      (update_shift_swap_status_after_recipient_response k p.recipient_employee_id pending_admin
        none now made).1 in
    let marked =
      as_error state_invalid (mark_shift_swap_confirmed k (trimmed_note p.remark) admin now)
        answered in
    let (kept, _, _) =
      confirmed_inverts admin k (trimmed_note p.remark) now answered marked.1 w
        (ap (λ r. (r, marked.1)) okay) in
    let same : marked.1.schedules ≡ db.schedules =
      kept
      ∙ answered_schedules k p.recipient_employee_id pending_admin none now made
      ∙ inserted_schedules fresh p.requester_employee_id p.recipient_employee_id a b none now mid
      ∙ ap (λ d. d.schedules) emid in
    (
      pair,
      checked,
      exchanges a b p.requester_employee_id p.recipient_employee_id admin k pair db marked.1 db'
          checked same edb,
    )

-- An administrator's swap that `CreateAdminShiftSwapRequest` makes gives each of the two schedules the
-- other one's employee, and leaves every other schedule as it was.
pub create_admin-exchanged :
    (details : Option SwapError) (fresh : ℕ) (now : Time) (admin : ℕ) (p : CreateAdminRequest)
    (db db' : SwapDb) (k : ℕ)
    → create_admin_shift_swap_request details fresh now admin p db ≡ (ok k, db')
    → (j : ℕ)
    → select j db'.schedules
      ≡ exchanged p.requester_schedule_id p.recipient_schedule_id db.schedules j
create_admin-exchanged details fresh now admin p db db' k e =
    let (_, _, ex) = by_admin_inverts details fresh now admin p db db' k e in ex

-- An administrator's swap that `CreateAdminShiftSwapRequest` makes leaves no employee with two shifts
-- that overlap, if there was none before.
pub create_admin-NoDoubleBooking :
    (details : Option SwapError) (fresh : ℕ) (now : Time) (admin : ℕ) (p : CreateAdminRequest)
    (db db' : SwapDb) (k : ℕ)
    → create_admin_shift_swap_request details fresh now admin p db ≡ (ok k, db')
    → NoDoubleBooking db.schedules
    → NoDoubleBooking db'.schedules
create_admin-NoDoubleBooking details fresh now admin p db db' k e apart =
    let (pair, checked, ex) = by_admin_inverts details fresh now admin p db db' k e in
    exchanged-NoDoubleBooking p.requester_schedule_id p.recipient_schedule_id
      p.requester_employee_id p.recipient_employee_id pair db db'.schedules checked ex apart

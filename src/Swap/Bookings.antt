-- ===== src/Swap/Bookings.antt =====
-- Double bookings: what a swap by internal/service/schedule_shift_swap.go makes of the shifts of one
-- employee.
use hrbackend.Prelude.{
  ℕ, ◌≤◌, ◌≡◌, ◌≢◌, ◌⊎◌, inl, inr, true, Option, some, [], ◌∷◌, arith, ◌==◌, Bool-cases,
}
use hrbackend.Prelude.GoText.{Text, codes, text_eq, normalized}
use hrbackend.Prelude.Results.{ok}
use hrbackend.Time.{Time}
use hrbackend.Store.Table.{Table, select}
use hrbackend.Swap.Tables.{
  SwapError, ScheduleRow, SwapRow, SwapDb, count_schedule_overlaps_for_employee,
}
use hrbackend.Swap.Service.{admin_decision_shift_swap_request}
use hrbackend.Swap.Exchange.{Checked, exchanged, approval_inverts}

-- One shift ends before the other starts.
abbrev pub Apart : ScheduleRow → ScheduleRow → Type 0
Apart r s = (r.end_datetime ≤ s.start_datetime) ⊎ (s.end_datetime ≤ r.start_datetime)

-- No two shifts of one employee overlap.
abbrev pub NoDoubleBooking : Table ScheduleRow → Type 0
NoDoubleBooking t =
    (i j : ℕ) (r s : ScheduleRow)
    → i ≢ j
    → select i t ≡ some r
    → select j t ≡ some s
    → r.employee_id ≡ s.employee_id
    → Apart r s

-- Where the query counts none, every other shift of the employee is apart from the interval.
overlaps_apart :
    (employee a b : ℕ) (start end : Time) (t : Table ScheduleRow) (k : ℕ) (s : ScheduleRow)
    → count_schedule_overlaps_for_employee employee a b start end t ≡ 0
    → select k t ≡ some s
    → k ≢ a
    → k ≢ b
    → s.employee_id ≡ employee
    → (end ≤ s.start_datetime) ⊎ (s.end_datetime ≤ start)
unfolding count_schedule_overlaps_for_employee select
overlaps_apart employee a b start end [] k s n h ha hb he = ground arith
overlaps_apart employee a b start end ((j, r) ∷ t) k s n h ha hb he = elim (Bool-cases (j == k)) [
  | inl eq ↦ ground arith
  | inr ne ↦ overlaps_apart employee a b start end t k s (ground arith) (ground arith) ha hb he
]

pub exchanged-NoDoubleBooking :
    (a b requester recipient : ℕ) (pair : ScheduleRow × ScheduleRow) (db : SwapDb)
    (t : Table ScheduleRow)
    → Checked a b requester recipient pair db
    → ((k : ℕ) → select k t ≡ exchanged a b db.schedules k)
    → NoDoubleBooking db.schedules
    → NoDoubleBooking t
unfolding exchanged
exchanged-NoDoubleBooking a b requester recipient pair db t (ne, ha, hb, er, ec, n1, n2) ex apart i
      j r s ij hi hj e =
    elim (Bool-cases (i == a)) [
      | inl ia ↦ elim (Bool-cases (j == b)) [
        | inl jb ↦ ground (arith, ex i, ex j, apart a b pair.0 pair.1 ne ha hb)
        | inr jb ↦ ground (
          arith,
          ex i,
          ex j,
          overlaps_apart recipient a b pair.0.start_datetime pair.0.end_datetime db.schedules j s
              n2,
        )
      ]
      | inr ia ↦ elim (Bool-cases (i == b)) [
        | inl ib ↦ elim (Bool-cases (j == a)) [
          | inl ja ↦ ground (arith, ex i, ex j, apart a b pair.0 pair.1 ne ha hb)
          | inr ja ↦ ground (
            arith,
            ex i,
            ex j,
            overlaps_apart requester a b pair.1.start_datetime pair.1.end_datetime db.schedules j s
                n1,
          )
        ]
        | inr ib ↦ elim (Bool-cases (j == a)) [
          | inl ja ↦ ground (
            arith,
            ex i,
            ex j,
            overlaps_apart recipient a b pair.0.start_datetime pair.0.end_datetime db.schedules i r
                n2,
          )
          | inr ja ↦ elim (Bool-cases (j == b)) [
            | inl jb ↦ ground (
              arith,
              ex i,
              ex j,
              overlaps_apart requester a b pair.1.start_datetime pair.1.end_datetime db.schedules i
                  r n1,
            )
            | inr jb ↦ ground (arith, ex i, ex j, apart i j r s ij)
          ]
        ]
      ]
    ]

-- An approval by `AdminDecisionShiftSwapRequest` that succeeds leaves no employee with two shifts
-- that overlap, if there was none before.
pub approval-NoDoubleBooking :
    (details : Option SwapError) (admin id : ℕ) (decision : Text) (remark : Option Text)
    (now : Time) (db db' : SwapDb) (w' : SwapRow)
    → admin_decision_shift_swap_request details admin id decision remark now db ≡ (ok w', db')
    → text_eq (normalized decision) (codes "approve") ≡ true
    → NoDoubleBooking db.schedules
    → NoDoubleBooking db'.schedules
approval-NoDoubleBooking details admin id decision remark now db db' w' e ha apart =
    let (w, pair, _, _, checked, _, _, ex) =
      approval_inverts details admin id decision remark now db db' w' e ha in
    exchanged-NoDoubleBooking w.requester_schedule_id w.recipient_schedule_id
      w.requester_employee_id w.recipient_employee_id pair db db'.schedules checked ex apart

-- ===== src/Swap/Answers.antt =====
-- The statuses of swaps that internal/service/schedule_shift_swap.go moves.
use hrbackend.Prelude.{
  ℕ, arith, Option, some, Option-cases, inl, inr, ◌≡◌, ◌⊎◌, refl, true, false, ◌==◌, if◌then◌else◌,
  ap, Bool-cases,
}
use hrbackend.Prelude.GoText.{Text, codes, text_eq, normalized}
use hrbackend.Prelude.Results.{ok}
use hrbackend.Time.{Time}
use hrbackend.Store.Table.{select, update, select-update}
use hrbackend.Swap.Tables.{
  SwapError, SwapStatus, pending_recipient, recipient_rejected, pending_admin, SwapRow, SwapDb,
  is_past,
}
use hrbackend.Swap.Queries.{update_swap_where, update_shift_swap_status_after_recipient_response}
use hrbackend.Swap.Exchange.{after_details_ok}
use hrbackend.Swap.Service.{explained, answer_swap, respond_to_shift_swap_request}

abbrev pub answered_as : SwapStatus → Option Text → Time → SwapRow → SwapRow
answered_as next remark now r = record r {
  status = next;
  recipient_responded_at = some now;
  recipient_response_note = remark;
}

answer_inverts :
    (id recipient : ℕ) (next : SwapStatus) (remark : Option Text) (now : Time) (db db' : SwapDb)
    (r : SwapRow)
    → explained id now
        (update_shift_swap_status_after_recipient_response id recipient next remark now)
        db
      ≡ (ok r, db')
    → (w : SwapRow) × (select id db.swaps ≡ some w)
      × (w.recipient_employee_id ≡ recipient)
      × (w.status ≡ pending_recipient)
      × (is_past w.expires_at now ≡ false)
      × (r ≡ answered_as next remark now w)
      × (db' ≡ record db { swaps = update id (answered_as next remark now) db.swaps })
unfolding explained update_shift_swap_status_after_recipient_response update_swap_where
answer_inverts id recipient next remark now db db' r e = elim (Option-cases (select id db.swaps)) [
  | inl h ↦ ground arith
  | inr (w, h) ↦ (w, h, ground arith, ground arith, ground arith, ground arith, ground arith)
]

answer_swaps :
    (id : ℕ) (next : SwapStatus) (remark : Option Text) (now : Time) (db db' : SwapDb)
    (w r : SwapRow) (k : ℕ)
    → select id db.swaps ≡ some w
    → r ≡ answered_as next remark now w
    → db' ≡ record db { swaps = update id (answered_as next remark now) db.swaps }
    → select k db'.swaps ≡ (if id == k then some r else select k db.swaps)
answer_swaps id next remark now db db' w r k h er edb =
    ground (arith, select-update id k (answered_as next remark now) db.swaps)

respond_inverts :
    (details : Option SwapError) (recipient id : ℕ) (decision : Text) (remark : Option Text)
    (now : Time) (db db' : SwapDb) (r : SwapRow)
    → respond_to_shift_swap_request details recipient id decision remark now db ≡ (ok r, db')
    → (next : SwapStatus) × (((text_eq (normalized decision) (codes "accept") ≡ true)
          × (next ≡ pending_admin))
        ⊎ ((text_eq (normalized decision) (codes "reject") ≡ true) × (next ≡ recipient_rejected)))
      × (explained id now
            (update_shift_swap_status_after_recipient_response id recipient next remark now)
            db
          ≡ (ok r, db'))
unfolding respond_to_shift_swap_request answer_swap
respond_inverts details recipient id decision remark now db db' r e =
    let done = after_details_ok details (answer_swap recipient id decision remark now) db db' r e in
    elim (Bool-cases (text_eq (normalized decision) (codes "accept"))) [
      | inl ha ↦ (pending_admin, inl (ha, refl), ground arith)
      | inr ha ↦ (recipient_rejected, inr (ground arith, refl), ground arith)
    ]

-- `RespondToShiftSwapRequest`, when it succeeds, was called by the swap's recipient while the swap
-- waited for the recipient and had not expired; the swap then waits for the administrator or is
-- rejected by the recipient, as the decision says, and no schedule and no other swap changes.
pub respond_to_shift_swap_request_lem :
    (details : Option SwapError) (recipient id : ℕ) (decision : Text) (remark : Option Text)
    (now : Time) (db db' : SwapDb) (r : SwapRow)
    → respond_to_shift_swap_request details recipient id decision remark now db ≡ (ok r, db')
    → (w : SwapRow) × (select id db.swaps ≡ some w)
      × (w.recipient_employee_id ≡ recipient)
      × (w.status ≡ pending_recipient)
      × (is_past w.expires_at now ≡ false)
      × (((text_eq (normalized decision) (codes "accept") ≡ true) × (r.status ≡ pending_admin))
          ⊎ ((text_eq (normalized decision) (codes "reject") ≡ true)
              × (r.status ≡ recipient_rejected)))
      × (db'.schedules ≡ db.schedules)
      × ((k : ℕ) → select k db'.swaps ≡ (if id == k then some r else select k db.swaps))
respond_to_shift_swap_request_lem details recipient id decision remark now db db' r e =
    let (next, said, answering) =
      respond_inverts details recipient id decision remark now db db' r e in
    let (w, h, hw, hs, hp, er, edb) =
      answer_inverts id recipient next remark now db db' r answering in
    (
      w,
      h,
      hw,
      hs,
      hp,
      ground arith,
      ap (λ d. d.schedules) edb,
      λ k. answer_swaps id next remark now db db' w r k h er edb,
    )

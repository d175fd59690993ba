-- ===== src/Swap/Atomic.antt =====
-- The approval of internal/service/schedule_shift_swap.go, whatever it returns.
use hrbackend.Prelude.{
  ℕ, ◌≡◌, ◌⊎◌, inl, inr, true, arith, Option, some, none, ap, ◌∙◌, refl, subst, sym,
}
use hrbackend.Prelude.GoText.{Text, codes, text_eq, normalized}
use hrbackend.Prelude.Results.{ok, Result-cases}
use hrbackend.Time.{Time}
use hrbackend.Store.{IsAtomic, exec_tx}
use hrbackend.Store.Table.{select}
use hrbackend.Swap.Tables.{SwapError, SwapDb, SwapRow, pending_admin, confirmed, Call}
use hrbackend.Swap.Service.{after_details, decide_swap, admin_decision_shift_swap_request}
use hrbackend.Swap.Exchange.{exchanged, approval-exchanged}

-- The read of the details changes nothing.
after_details_keeps :
    {A : Type 0} (details : Option SwapError) (m : Call A) (db : SwapDb)
    → (after_details details m db).1 ≡ (m db).1
after_details_keeps none m db = refl
after_details_keeps (some e) m db = elim (Result-cases (m db).0) [
  | inl (f, h) ↦ ground arith
  | inr (a, h) ↦ ground arith
]

approval-IsAtomic :
    (admin id : ℕ) (decision : Text) (remark : Option Text) (now : Time)
    → text_eq (normalized decision) (codes "approve") ≡ true
    → IsAtomic (decide_swap admin id decision remark now)
unfolding decide_swap exec_tx
approval-IsAtomic admin id decision remark now ha s e h = ground arith

-- What an approval that takes effect does.
abbrev pub IsApproved : ℕ → SwapDb → SwapDb → Type 0
IsApproved id db db' =
    (w : SwapRow) × (w' : SwapRow) × (select id db.swaps ≡ some w)
    × (w.status ≡ pending_admin)
    × (select id db'.swaps ≡ some w')
    × (w'.status ≡ confirmed)
    × ((k : ℕ)
        → select k db'.schedules
          ≡ exchanged w.requester_schedule_id w.recipient_schedule_id db.schedules k)

decide_swap-IsApproved :
    (admin id : ℕ) (decision : Text) (remark : Option Text) (now : Time) (db db' : SwapDb)
    (w' : SwapRow)
    → decide_swap admin id decision remark now db ≡ (ok w', db')
    → text_eq (normalized decision) (codes "approve") ≡ true
    → IsApproved id db db'
unfolding admin_decision_shift_swap_request
decide_swap-IsApproved admin id decision remark now db db' w' e ha =
    let (w, h, hs, h', hc, ex) =
      approval-exchanged none admin id decision remark now db db' w' e ha in
    (w, w', h, hs, h', hc, ex)

-- `AdminDecisionShiftSwapRequest` with the decision "approve" either leaves the database as it was, or
-- finds the swap waiting for the administrator, confirms it, gives its two schedules each other's
-- employee and leaves every other schedule as it was. That holds whatever the call returns, also where
-- it returns the error of the read of the details after the commit.
pub approval_takes_effect_or_none :
    (details : Option SwapError) (admin id : ℕ) (decision : Text) (remark : Option Text)
    (now : Time) (db : SwapDb)
    → text_eq (normalized decision) (codes "approve") ≡ true
    → ((admin_decision_shift_swap_request details admin id decision remark now db).1 ≡ db)
      ⊎ IsApproved id db
          (admin_decision_shift_swap_request details admin id decision remark now db).1
unfolding admin_decision_shift_swap_request
approval_takes_effect_or_none details admin id decision remark now db ha =
    let m : Call SwapRow = decide_swap admin id decision remark now in
    let kept = after_details_keeps details m db in
    elim (Result-cases (m db).0) [
      | inl (e, h) ↦ inl (kept ∙ approval-IsAtomic admin id decision remark now ha db e h)
      | inr (w', h) ↦ inr (
          subst (IsApproved id db) (sym kept) (
            decide_swap-IsApproved admin id decision remark now db (m db).1 w'
              (ap (λ r. (r, (m db).1)) h) ha))
    ]

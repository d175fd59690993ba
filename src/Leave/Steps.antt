-- ===== src/Leave/Steps.antt =====
-- Each call of internal/service/leave_service.go as a step on the leave requests.
use hrbackend.Prelude.{
  ℕ, ◌+◌, ◌<◌, ◌≡◌, Bool, true, false, Option, none, some, arith, Option-cases, ◌⊎◌, inl, inr,
}
use hrbackend.Prelude.Int.{ℤ, pos, ltb_ℤ, int32_half, ◌-32◌}
use hrbackend.Prelude.GoText.{Text}
use hrbackend.Prelude.Results.{ok}
use hrbackend.Time.{Time}
use hrbackend.Store.Table.{select, update, insert}
use hrbackend.Balance.{
  LeaveStatus, pending, approved, rejected, LeaveRow, LeaveDb, leave_used, payout_used, deducts,
}
use hrbackend.Leave.Queries.{
  LeaveFields, row_valid, requested_as, edited_as, leave_decided_as, year_of, insert_leave_request,
  update_leave, update_leave_request_editable_fields,
}
use hrbackend.Leave.Minutes.{Contracts}

-- A leave request that can still be edited.
abbrev pub is_editable : LeaveStatus → Bool
is_editable pending = true
is_editable rejected = true
is_editable _ = false

module _ {Float : Type 0} (legal_total : ℕ → ℕ → Time → ℤ) where
  -- What the approval of a request found: no deduction, or a balance that is large enough.
  abbrev pub Affordable : LeaveDb Float → LeaveRow → Time → Type 0
  Affordable db r now =
      let year = year_of r.start_date in
      let used = leave_used db r.employee_id year + payout_used db r.employee_id year in
      (deducts (db.policies r.leave_type) ≡ false)
      ⊎ ((used < int32_half)
          × (ltb_ℤ (legal_total r.employee_id year now -32 pos used) (pos r.requested_minutes)
              ≡ false))

  -- A call leaves the database, files a request, edits one that is pending or rejected, or decides one
  -- that is pending.
  pub data LeaveStep (db db' : LeaveDb Float) : Type 0 where
    idle : db' ≡ db → LeaveStep db db'
    filed :
        (k employee created_by : ℕ) (f : LeaveFields) (minutes : ℤ)
        → select k db.leaves ≡ none
        → row_valid (requested_as employee created_by f minutes) ≡ true
        → db'
          ≡ record db { leaves = insert k (requested_as employee created_by f minutes) db.leaves }
        → LeaveStep db db'
    edited :
        (k : ℕ) (r : LeaveRow) (f : LeaveFields) (minutes : ℤ)
        → select k db.leaves ≡ some r
        → is_editable r.status ≡ true
        → row_valid (edited_as f minutes r) ≡ true
        → db' ≡ record db { leaves = update k (edited_as f minutes) db.leaves }
        → LeaveStep db db'
    rejects :
        (k : ℕ) (r : LeaveRow) (remark : Option Text) (admin : ℕ) (now : Time)
        → select k db.leaves ≡ some r
        → r.status ≡ pending
        → db'
          ≡ record db { leaves = update k (leave_decided_as rejected remark admin now) db.leaves }
        → LeaveStep db db'
    approves :
        (k : ℕ) (r : LeaveRow) (remark : Option Text) (admin : ℕ) (now : Time)
        → select k db.leaves ≡ some r
        → r.status ≡ pending
        → Affordable db r now
        → db'
          ≡ record db { leaves = update k (leave_decided_as approved remark admin now) db.leaves }
        → LeaveStep db db'

  module _ (contract_at : Contracts) where
    pub insert_step :
        (fresh employee created_by : ℕ) (f : LeaveFields) (minutes : ℤ) (db db' : LeaveDb Float)
        (k : ℕ)
        → insert_leave_request fresh employee created_by f minutes db ≡ (ok k, db')
        → LeaveStep db db'
    unfolding insert_leave_request
    insert_step fresh employee created_by f minutes db db' k e =
        elim (Option-cases (select fresh db.leaves)) [
          | inr (r, h) ↦ ground arith
          | inl h ↦ filed fresh employee created_by f minutes h (ground arith) (ground arith)
        ]

    pub edit_step :
        (id : ℕ) (r r' : LeaveRow) (f : LeaveFields) (minutes : ℤ) (db db' : LeaveDb Float)
        → select id db.leaves ≡ some r
        → is_editable r.status ≡ true
        → update_leave_request_editable_fields id f minutes db ≡ (ok r', db')
        → LeaveStep db db'
    unfolding update_leave_request_editable_fields update_leave
    edit_step id r r' f minutes db db' h s e =
        edited id r f minutes h s (ground arith) (ground arith)

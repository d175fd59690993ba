-- ===== src/Swap/Queries.antt =====
-- The queries of internal/repository/db/query/shift_swap.sql, as internal/repository/schedule_repo.go
-- calls them.
use hrbackend.Prelude.{ℕ, Bool, not, ◌&&◌, ◌||◌, Option, none, some, [], ◌∷◌, ◌==◌, if◌then◌else◌}
use hrbackend.Prelude.GoText.{Text}
use hrbackend.Prelude.Results.{ok, err}
use hrbackend.Time.{Time}
use hrbackend.Store.{raise_if, one_row, gets, ◌>>=◌, ◌>>◌}
use hrbackend.Store.Table.{Table, select, update, insert}
use hrbackend.Balance.{is_known}
use hrbackend.Swap.Tables.{
  SwapStatus, pending_recipient, admin_rejected, confirmed, expired, schedule_not_found,
  duplicate_active_request, swap_not_found, state_invalid, db_error, ScheduleRow, SwapRow,
  is_pending_recipient, is_pending_admin, is_active, is_past, Call, clashes,
}

-- `CreateShiftSwapRequest` of the repository, under the constraints and the trigger.
unfoldable pub insert_shift_swap_request : ℕ → ℕ → ℕ → ℕ → ℕ → Option Time → Time → Call ℕ
insert_shift_swap_request fresh requester recipient a b expires now = do
  swaps ← gets (λ db. db.swaps)
  raise_if (clashes fresh a b swaps) duplicate_active_request
  raise_if ((requester == recipient) || (a == b)) db_error
  (λ db. elim (select fresh swaps) [
    | some r ↦ (err db_error, db)
    | none ↦ (
      ok fresh,
      record db {
        swaps =
            insert fresh
              (record {
                requester_employee_id = requester;
                recipient_employee_id = recipient;
                requester_schedule_id = a;
                recipient_schedule_id = b;
                status = pending_recipient;
                requested_at = now;
                recipient_responded_at = none;
                admin_decided_at = none;
                recipient_response_note = none;
                admin_decision_note = none;
                admin_employee_id = none;
                expires_at = expires;
              })
              db.swaps;
      },
    )
  ])

-- An `UPDATE shift_swap_requests … WHERE id = … AND test RETURNING *`, under the trigger. It may write
-- the key of an employee.
unfoldable pub update_swap_where :
    ℕ → Option ℕ → (SwapRow → Bool) → (SwapRow → SwapRow) → Call (SwapRow)
update_swap_where id key test f = do
  swaps ← gets (λ db. db.swaps)
  r ← one_row (select id swaps) swap_not_found
  raise_if (not (test r)) state_invalid
  raise_if
      (is_active (f r).status && clashes id r.requester_schedule_id r.recipient_schedule_id swaps)
      db_error
  employees ← gets (λ db. db.employees)
  raise_if (not (is_known key employees)) db_error
  (λ db. (ok (f r), record db { swaps = update id f db.swaps }))

unfoldable pub update_shift_swap_status_after_recipient_response :
    ℕ → ℕ → SwapStatus → Option Text → Time → Call SwapRow
update_shift_swap_status_after_recipient_response id recipient next remark now =
    update_swap_where id none
      (λ r.
        (r.recipient_employee_id == recipient)
        && is_pending_recipient r.status
        && not (is_past r.expires_at now))
      (λ r. record r {
        status = next;
        recipient_responded_at = some now;
        recipient_response_note = remark;
      })

unfoldable pub update_shift_swap_admin_decision : ℕ → Option Text → ℕ → Time → Call SwapRow
update_shift_swap_admin_decision id remark admin now =
    update_swap_where id (some admin)
      (λ r. is_pending_admin r.status && not (is_past r.expires_at now))
      (λ r. record r {
        status = admin_rejected;
        admin_decided_at = some now;
        admin_decision_note = remark;
        admin_employee_id = some admin;
      })

unfoldable pub mark_shift_swap_confirmed : ℕ → Option Text → ℕ → Time → Call SwapRow
mark_shift_swap_confirmed id remark admin now =
    update_swap_where id (some admin) (λ r. is_pending_admin r.status)
      (λ r. record r {
        status = confirmed;
        admin_decided_at = some now;
        admin_decision_note = remark;
        admin_employee_id = some admin;
      })

-- `ExpirePendingShiftSwapRequests`, an update that no row's constraint refuses.
unfoldable pub expire_rows : Time → Table SwapRow → Table SwapRow
expire_rows now [] = []
expire_rows now ((k, r) ∷ t) =
    (
      k,
      (if is_active r.status && is_past r.expires_at now then record r { status = expired } else r),
    )
    ∷ expire_rows now t

unfoldable pub expire_pending_shift_swap_requests : Time → Call (Unit {0})
expire_pending_shift_swap_requests now db = (ok tt, record db { swaps = expire_rows now db.swaps })

-- `GetScheduleForSwapValidation`.
unfoldable pub get_schedule_for_swap_validation : ℕ → Call ScheduleRow
get_schedule_for_swap_validation id db = one_row (select id db.schedules) schedule_not_found db

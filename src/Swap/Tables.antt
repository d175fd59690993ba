-- ===== src/Swap/Tables.antt =====
-- The tables under shift swaps (migrations/000001_init.up.sql), and the tests of their columns in
-- internal/repository/db/query/shift_swap.sql.
use hrbackend.Prelude.{
  ℕ, ◌+◌, Bool, true, false, not, ◌&&◌, ◌||◌, Option, none, some, List, [], ◌∷◌, ltb, leb, ◌==◌,
  if◌then◌else◌,
}
use hrbackend.Prelude.GoText.{Text}
use hrbackend.Time.{Time}
use hrbackend.Store.{Action}
use hrbackend.Store.Table.{Table}

-- `shift_swap_status_enum`.
pub data SwapStatus : Type 0 where
  pending_recipient recipient_rejected pending_admin admin_rejected : SwapStatus
  confirmed cancelled expired : SwapStatus

-- The errors of internal/domain for swaps, and `db_error` for a query that the database refuses.
pub data SwapError : Type 0 where
  invalid_request schedule_not_found schedule_in_past schedule_ownership : SwapError
  duplicate_active_request swap_not_found swap_expired state_invalid conflict db_error : SwapError

-- The columns of `schedules` that a swap reads.
pub record ScheduleRow : Type 0 where
  pub employee_id : ℕ
  pub location_id : ℕ
  pub start_datetime : Time
  pub end_datetime : Time

-- `shift_swap_requests`.
pub record SwapRow : Type 0 where
  pub requester_employee_id : ℕ
  pub recipient_employee_id : ℕ
  pub requester_schedule_id : ℕ
  pub recipient_schedule_id : ℕ
  pub status : SwapStatus
  pub requested_at : Time
  pub recipient_responded_at : Option Time
  pub admin_decided_at : Option Time
  pub recipient_response_note : Option Text
  pub admin_decision_note : Option Text
  pub admin_employee_id : Option ℕ
  pub expires_at : Option Time

-- An entry of `schedule_history` for a changed assignment.
pub record HistoryRow : Type 0 where
  pub schedule_id : ℕ
  pub location_id : ℕ
  pub actor_employee_id : ℕ
  pub old_employee_id : ℕ
  pub new_employee_id : ℕ
  pub start_datetime : Time
  pub end_datetime : Time
  pub shift_swap_request_id : ℕ

pub record SwapDb : Type 0 where
  pub employees : List ℕ
  pub schedules : Table ScheduleRow
  pub swaps : Table SwapRow
  pub history : List HistoryRow

abbrev pub is_pending_recipient : SwapStatus → Bool
is_pending_recipient pending_recipient = true
is_pending_recipient _ = false

abbrev pub is_pending_admin : SwapStatus → Bool
is_pending_admin pending_admin = true
is_pending_admin _ = false

abbrev pub is_expired : SwapStatus → Bool
is_expired expired = true
is_expired _ = false

-- `status IN ('pending_recipient', 'pending_admin')`.
abbrev pub is_active : SwapStatus → Bool
is_active pending_recipient = true
is_active pending_admin = true
is_active _ = false

-- `expires_at IS NOT NULL AND expires_at <= NOW()`.
abbrev pub is_past : Option Time → Time → Bool
is_past none now = false
is_past (some t) now = leb t now

abbrev pub Call : Type 0 → Type 0
Call A = Action SwapDb SwapError A

-- `ssr.requester_schedule_id IN (a, b) OR ssr.recipient_schedule_id IN (a, b)`.
abbrev pub touches : ℕ → ℕ → SwapRow → Bool
touches a b r =
    (r.requester_schedule_id == a)
    || (r.requester_schedule_id == b)
    || (r.recipient_schedule_id == a)
    || (r.recipient_schedule_id == b)

-- The trigger `enforce_shift_swap_active_schedule_uniqueness`: another active swap has a schedule.
unfoldable pub clashes : ℕ → ℕ → ℕ → Table SwapRow → Bool
clashes id a b [] = false
clashes id a b ((k, r) ∷ t) =
    (not (k == id) && is_active r.status && touches a b r) || clashes id a b t

-- `CountScheduleOverlapsForEmployee`.
unfoldable pub count_schedule_overlaps_for_employee :
    ℕ → ℕ → ℕ → Time → Time → Table ScheduleRow → ℕ
count_schedule_overlaps_for_employee employee a b conflict_start conflict_end [] = 0
count_schedule_overlaps_for_employee employee a b conflict_start conflict_end ((k, s) ∷ t) =
    (if (s.employee_id == employee)
        && not (k == a)
        && not (k == b)
        && ltb s.start_datetime conflict_end
        && ltb conflict_start s.end_datetime
      then 1
      else 0)
    + count_schedule_overlaps_for_employee employee a b conflict_start conflict_end t

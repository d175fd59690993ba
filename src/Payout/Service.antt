-- ===== src/Payout/Service.antt =====
-- The six operations of internal/service/payout_service.go that change payout requests.
use hrbackend.Params.{uuid_nil}
use hrbackend.Prelude.{ℕ, not, ◌&&◌, ◌||◌, Option, ◌==◌, if◌then◌else◌}
use hrbackend.Prelude.Int.{ℤ, pos, pos_part, ltb_ℤ, ◌*32◌}
use hrbackend.Prelude.GoText.{Text, codes, text_eq, normalized}
use hrbackend.Time.{Time}
use hrbackend.Floats.{Floats}
use hrbackend.Store.{raise_if, one_row, ◌>>=◌, ◌>>◌, exec_tx}
use hrbackend.Balance.{PayoutRow, is_pending_payout}
use hrbackend.Payout.{
  Call, CreateByAdminParams, CreateParams, DecideParams, UpdateParams, approve_payout_request,
  available_minutes, get_payout_request_for_update, insert_payout, is_approved_payout, is_missing,
  is_open, mark_payout_request_paid, not_positive, payout_rate, reject_payout_request,
  write_payout_fields, year_out_of_range, invalid_request, forbidden, state_invalid,
  balance_insufficient,
}

module _ (F : Floats) (legal_total : ℕ → ℕ → Time → ℤ) (contract_rate : ℕ → Option F.Float) where
  open F use {Float, of_ℤ, ◌*F◌}

  -- The body that `CreatePayoutRequest` and `CreateApprovedPayoutRequestByAdmin` share. The request
  -- that is returned is the row under the key.
  unfoldable pub create_checked :
      ℕ → Time → ℕ → ℕ → ℤ → ℤ → Option Text → Call F legal_total contract_rate ℕ
  create_checked fresh now employee created_by hours year note = do
    available ← available_minutes F legal_total contract_rate employee (pos_part year) now
    raise_if (ltb_ℤ available (hours *32 60)) balance_insufficient
    rate ← payout_rate F legal_total contract_rate employee
    insert_payout F legal_total contract_rate fresh employee created_by hours year rate note

  unfoldable pub create_payout_request :
      ℕ → Time → ℕ → CreateParams → Call F legal_total contract_rate ℕ
  create_payout_request fresh now actor p = do
    raise_if
        ((actor == uuid_nil)
          || (p.employee_id == uuid_nil)
          || (p.created_by_employee_id == uuid_nil))
        invalid_request
    raise_if (not (p.employee_id == actor) || not (p.created_by_employee_id == actor)) forbidden
    raise_if (not_positive p.requested_hours || year_out_of_range p.balance_year) invalid_request
    exec_tx (
        create_checked fresh now p.employee_id p.created_by_employee_id p.requested_hours
          p.balance_year p.request_note)

  unfoldable pub update_payout_request :
      ℕ → ℕ → UpdateParams → Call F legal_total contract_rate (PayoutRow Float)
  update_payout_request actor id p = do
    raise_if ((actor == uuid_nil) || (id == uuid_nil)) invalid_request
    exec_tx (do
      current ← get_payout_request_for_update F legal_total contract_rate id
      raise_if (not (current.employee_id == actor)) forbidden
      raise_if (not (is_open current.status)) state_invalid
      write_payout_fields F legal_total contract_rate id p
          (◌*F◌ (of_ℤ p.requested_hours) current.hourly_rate))

  unfoldable pub update_payout_request_by_admin :
      ℕ → ℕ → UpdateParams → Call F legal_total contract_rate (PayoutRow Float)
  update_payout_request_by_admin admin id p = do
    raise_if ((admin == uuid_nil) || (id == uuid_nil)) invalid_request
    exec_tx (do
      current ← get_payout_request_for_update F legal_total contract_rate id
      write_payout_fields F legal_total contract_rate id p
          (◌*F◌ (of_ℤ p.requested_hours) current.hourly_rate))

  unfoldable pub create_approved_payout_request_by_admin :
      ℕ → Time → ℕ → CreateByAdminParams → Call F legal_total contract_rate (PayoutRow Float)
  create_approved_payout_request_by_admin fresh now admin p = do
    raise_if ((admin == uuid_nil) || (p.employee_id == uuid_nil)) invalid_request
    raise_if
        (not_positive p.requested_hours
          || year_out_of_range p.balance_year
          || (p.pay_period_start == 0))
        invalid_request
    exec_tx (do
      created ←
          create_checked fresh now p.employee_id admin p.requested_hours p.balance_year
            p.request_note
      approve_payout_request F legal_total contract_rate created admin p.pay_period_start
          p.decision_note now)

  -- The approving branch of `DecidePayoutRequestByAdmin`. The pay period is not missing past the
  -- test before the transaction.
  unfoldable pub approve_checked :
      ℕ
      → ℕ
      → PayoutRow Float
      → DecideParams
      → Time
      → Call F legal_total contract_rate (PayoutRow Float)
  approve_checked admin id current p now = do
    available ←
        available_minutes F legal_total contract_rate current.employee_id current.balance_year now
    raise_if (ltb_ℤ available (pos 0)) balance_insufficient
    period_start ← one_row p.pay_period_start invalid_request
    approve_payout_request F legal_total contract_rate id admin period_start p.decision_note now

  unfoldable pub decide_payout_request_by_admin :
      ℕ → ℕ → DecideParams → Time → Call F legal_total contract_rate (PayoutRow Float)
  decide_payout_request_by_admin admin id p now =
      let approve = text_eq (normalized p.decision) (codes "approve") in
      let reject = text_eq (normalized p.decision) (codes "reject") in
      do
        raise_if ((admin == uuid_nil) || (id == uuid_nil)) invalid_request
        raise_if (not approve && not reject) invalid_request
        raise_if (approve && is_missing p.pay_period_start) invalid_request
        exec_tx (do
          current ← get_payout_request_for_update F legal_total contract_rate id
          raise_if (not (is_pending_payout current.status)) state_invalid
          (if approve
              then approve_checked admin id current p now
              else reject_payout_request F legal_total contract_rate id admin p.decision_note now))

  unfoldable pub mark_payout_request_paid_by_admin :
      ℕ → ℕ → Time → Call F legal_total contract_rate (PayoutRow Float)
  mark_payout_request_paid_by_admin admin id now = do
    raise_if ((admin == uuid_nil) || (id == uuid_nil)) invalid_request
    exec_tx (do
      current ← get_payout_request_for_update F legal_total contract_rate id
      raise_if (not (is_approved_payout current.status)) state_invalid
      mark_payout_request_paid F legal_total contract_rate id admin now)

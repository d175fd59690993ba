-- ===== src/Payout.antt =====
-- The leave payout service: internal/service/payout_service.go, over the transaction repository of
-- internal/repository/payout_repo.go. Listing requests is left out. What the code asks of its
-- surroundings are arguments: the clock `now`, the key `fresh` that the database makes, the legal
-- leave of a year (`calculate_legal_leave_minutes`, a PL/pgSQL function) and the contract's rate
-- (`GetEmployeePayoutContract`, which joins contracts and salary tables).
pub mod Service
pub mod Budget
pub mod Creation
pub mod Atomic
pub mod Decision
pub mod Direct
pub mod Lifecycle
pub mod Settled
pub mod Progress
use hrbackend.Prelude.{
  ℕ, ◌+◌, ◌-◌, ◌*◌, ◌/◌, Bool, true, false, not, ◌&&◌, ◌||◌, Option, none, some, List, [], ◌∷◌, ltb,
  leb, ◌==◌, if◌then◌else◌,
}
use hrbackend.Prelude.Int.{ℤ, pos, pos_part, ltb_ℤ, ◌-32◌, ◌*32◌}
use hrbackend.Prelude.GoText.{Text, codes, text_eq, normalized}
use hrbackend.Prelude.Results.{Result, ok, err}
use hrbackend.Time.{Time, date_only}
use hrbackend.Time.Calendar.{days_before_year, year_day}
use hrbackend.Floats.{Floats}
use hrbackend.Store.{Action, pure, raise, raise_if, one_row, gets, ◌>>=◌, ◌>>◌, exec_tx}
use hrbackend.Store.Table.{Table, select, update, insert}
use hrbackend.Balance.{
  PayoutRow, PayoutStatus, pending, approved, rejected, paid, LeaveDb, is_pending_payout,
  is_settled, known, is_known, compute_legal_leave_used_for_year,
  compute_reserved_payout_minutes_for_year, lock_employee_for_leave_balance,
}

-- The errors of internal/domain/payout.go, and `db_error` for a query that the database refuses.
pub data PayoutError : Type 0 where
  invalid_request not_found forbidden state_invalid : PayoutError
  balance_insufficient employee_not_found db_error : PayoutError

pub record CreateParams : Type 0 where
  pub employee_id : ℕ
  pub created_by_employee_id : ℕ
  pub requested_hours : ℤ
  pub balance_year : ℤ
  pub request_note : Option Text

pub record UpdateParams : Type 0 where
  pub requested_hours : ℤ
  pub balance_year : ℤ
  pub request_note : Option Text

pub record CreateByAdminParams : Type 0 where
  pub employee_id : ℕ
  pub requested_hours : ℤ
  pub balance_year : ℤ
  pub pay_period_start : Time
  pub request_note : Option Text
  pub decision_note : Option Text

pub record DecideParams : Type 0 where
  pub decision : Text
  pub decision_note : Option Text
  pub pay_period_start : Option Time

-- `BalanceYear < 2000 || BalanceYear > 2100`.
abbrev pub year_out_of_range : ℤ → Bool
year_out_of_range y = ltb_ℤ y (pos 2000) || ltb_ℤ (pos 2100) y

-- `RequestedHours <= 0`.
abbrev pub not_positive : ℤ → Bool
not_positive h = not (ltb_ℤ (pos 0) h)

-- `payoutBalanceAsOf`: the last second of a past year, the first of a coming one, or now.
unfoldable pub payout_balance_as_of : ℕ → Time → Time
payout_balance_as_of year now =
    let current = (year_day (now / 86400)).year in
    if ltb year current
    then days_before_year (year + 1) * 86400 - 1
    else if ltb current year
    then days_before_year year * 86400
    else now

-- `PgDateFromTime`: the date of a time, NULL for the zero time.
abbrev pub pg_date_from_time : Time → Option Time
pg_date_from_time t = if t == 0 then none else some (date_only t)

abbrev pub is_open : PayoutStatus → Bool
is_open pending = true
is_open rejected = true
is_open _ = false

abbrev pub is_approved_payout : PayoutStatus → Bool
is_approved_payout approved = true
is_approved_payout _ = false

abbrev pub is_missing : Option Time → Bool
is_missing none = true
is_missing (some t) = false

module _ (F : Floats) (legal_total : ℕ → ℕ → Time → ℤ) (contract_rate : ℕ → Option F.Float) where
  open F use {Float, of_ℤ, ◌*F◌, is_positive, is_negative, to_rate, to_amount}

  abbrev pub Db : Type 0
  Db = LeaveDb Float

  abbrev pub Call : Type 0 → Type 0
  Call A = Action Db PayoutError A

  -- `GetPayoutRequestForUpdate`.
  unfoldable pub get_payout_request_for_update : ℕ → Call (PayoutRow Float)
  get_payout_request_for_update id db = one_row (select id db.payouts) not_found db

  -- A new row: the schema refuses hours that are not positive, a year out of range and keys of no
  -- employee. The rate and the amount are rounded to their columns, where they may overflow, and the
  -- schema wants the rounded rate positive and the rounded amount not negative.
  unfoldable pub insert_payout : ℕ → ℕ → ℕ → ℤ → ℤ → Float → Option Text → Call ℕ
  insert_payout fresh employee created_by hours year rate note = do
    raise_if (not_positive hours || year_out_of_range year) db_error
    kept ← one_row (to_rate rate) db_error
    gross ← one_row (to_amount (◌*F◌ (of_ℤ hours) rate)) db_error
    raise_if (not (is_positive kept) || is_negative gross) db_error
    employees ← gets (λ db. db.employees)
    raise_if (not (known employee employees) || not (known created_by employees)) db_error
    taken ← gets (λ db. select fresh db.payouts)
    (λ db. elim taken [
      | some r ↦ (err db_error, db)
      | none ↦ (
        ok fresh,
        record db {
          payouts =
              insert fresh
                (record {
                  employee_id = employee;
                  created_by_employee_id = created_by;
                  requested_hours = pos_part hours;
                  balance_year = pos_part year;
                  hourly_rate = kept;
                  gross_amount = gross;
                  pay_period_start = none;
                  status = pending;
                  request_note = note;
                  decision_note = none;
                  decided_by_employee_id = none;
                  paid_by_employee_id = none;
                  decided_at = none;
                  paid_at = none;
                })
                db.payouts;
        },
      )
    ])

  -- An `UPDATE … WHERE id = … RETURNING *` of a payout request, which may write the key of an
  -- employee.
  unfoldable pub update_payout :
      ℕ → Option ℕ → (PayoutRow Float → PayoutRow Float) → Call (PayoutRow Float)
  update_payout id key f = do
    payouts ← gets (λ db. db.payouts)
    r ← one_row (select id payouts) not_found
    employees ← gets (λ db. db.employees)
    raise_if (not (is_known key employees)) db_error
    (λ db. (ok (f r), record db { payouts = update id f db.payouts }))

  unfoldable pub approve_payout_request : ℕ → ℕ → Time → Option Text → Time → Call (PayoutRow Float)
  approve_payout_request id admin period_start note now = update_payout id (some admin) (λ r.
      record r {
        status = approved;
        decision_note = note;
        decided_by_employee_id = some admin;
        pay_period_start = pg_date_from_time period_start;
        decided_at = some now;
      })

  unfoldable pub reject_payout_request : ℕ → ℕ → Option Text → Time → Call (PayoutRow Float)
  reject_payout_request id admin note now = update_payout id (some admin) (λ r. record r {
    status = rejected;
    decision_note = note;
    decided_by_employee_id = some admin;
    decided_at = some now;
  })

  unfoldable pub mark_payout_request_paid : ℕ → ℕ → Time → Call (PayoutRow Float)
  mark_payout_request_paid id admin now =
      update_payout id (some admin)
        (λ r. record r { status = paid; paid_by_employee_id = some admin; paid_at = some now })

  -- The transaction repository's `UpdatePayoutRequest`, the amount as its column keeps it.
  unfoldable pub write_payout_fields : ℕ → UpdateParams → Float → Call (PayoutRow Float)
  write_payout_fields id p gross = do
    raise_if (not_positive p.requested_hours || year_out_of_range p.balance_year) db_error
    kept ← one_row (to_amount gross) db_error
    raise_if (is_negative kept) db_error
    update_payout id none (λ r. record r {
      requested_hours = pos_part p.requested_hours;
      balance_year = pos_part p.balance_year;
      gross_amount = kept;
      request_note = p.request_note;
    })

  -- The balance as the three guarded operations read it, under the employee's lock:
  -- `legalTotalMinutes - legalUsedMinutes - reservedPayoutMinutes` in int32.
  unfoldable pub available_minutes : ℕ → ℕ → Time → Call ℤ
  available_minutes employee year now = do
    lock_employee_for_leave_balance employee employee_not_found
    let total = legal_total employee year (payout_balance_as_of year now)
    used ← compute_legal_leave_used_for_year employee year db_error
    reserved ← compute_reserved_payout_minutes_for_year employee year db_error
    pure (total -32 pos used -32 pos reserved)

  -- `GetEmployeePayoutContract` and the test of its rate.
  unfoldable pub payout_rate : ℕ → Call Float
  payout_rate employee = do
    rate ← one_row (contract_rate employee) not_found
    raise_if (not (is_positive rate)) invalid_request
    pure rate

-- ===== src/Leave/Budget.antt =====
-- Leave requests and the balance of a year: `ComputeLegalLeaveUsedForYear` after the calls of
-- internal/service/leave_service.go.
use hrbackend.Prelude.{
  ℕ, ◌+◌, ◌≤◌, ◌<◌, ◌≡◌, true, false, ◌&&◌, Option, some, arith, ◌==◌, Bool-cases, ◌⊎◌, subst, inl,
  inr,
}
use hrbackend.Prelude.Int.{ℤ, pos, pos_part, ltb_ℤ, int32, int32_half, ◌-32◌, IsInt32, ◌≤ℤ◌}
use hrbackend.Prelude.GoText.{Text}
use hrbackend.Time.{Time, day_of}
use hrbackend.Time.Calendar.{days_before_year, year_day_holds, year_day_unique}
use hrbackend.Store.Table.{sum_rows-update, sum_rows, select, update, insert, HasKeys}
use hrbackend.Balance.{
  approved, rejected, LeaveRow, LeaveDb, settled, in_year, leave_share, is_approved, leave_used,
  payout_used, deducts,
}
use hrbackend.Leave.Queries.{edited_as, leave_decided_as, year_of}
use hrbackend.Leave.Steps.{Affordable, LeaveStep, idle, filed, edited, rejects, approves}

-- A date that the balance query counts to a year has that year.
in_year-year_of : (y : ℕ) (t : Time) → in_year y t ≡ true → year_of t ≡ y
unfolding days_before_year
in_year-year_of y t h = year_day_unique (day_of t) y (ground arith) (ground arith) (ground arith)

-- A date counts to the year that it has.
pub year_of-in_year : (t : Time) → in_year (year_of t) t ≡ true
year_of-in_year t = let (starts, ends) = year_day_holds (day_of t) in ground arith

-- The int32 difference is exact where what is spent is an int32.
pub difference_exact :
    (t : ℤ) (u m : ℕ)
    → IsInt32 t
    → pos 0 ≤ℤ t
    → u < int32_half
    → ltb_ℤ (t -32 pos u) (pos m) ≡ false
    → u + m ≤ pos_part t
unfolding ◌-32◌ int32
difference_exact t u m ht hp hu h = ground arith

module _ {Float : Type 0} (legal_total : ℕ → ℕ → Time → ℤ) where
  -- An update of one request changes what is spent by that request's share.
  pub settled-update :
      (db : LeaveDb Float) (k : ℕ) (f : LeaveRow → LeaveRow) (r : LeaveRow) (employee year : ℕ)
      → HasKeys db.leaves
      → select k db.leaves ≡ some r
      → settled (record db { leaves = update k f db.leaves }) employee year
          + leave_share db employee year r
        ≡ settled db employee year + leave_share db employee year (f r)
  unfolding leave_used payout_used
  settled-update db k f r employee year hk hr =
      ground (arith, sum_rows-update (leave_share db employee year) k f db.leaves r hk hr)

  pub unapproved_share :
      (db : LeaveDb Float) (employee year : ℕ) (r : LeaveRow)
      → is_approved r.status ≡ false
      → leave_share db employee year r ≡ 0
  unapproved_share db employee year r h = ground arith

  -- A request that counts is at most what the balance allowed.
  covered_share :
      (db : LeaveDb Float) (employee year : ℕ) (r : LeaveRow) (now : Time)
      → Affordable legal_total db r now
      → IsInt32 (legal_total employee year now)
      → pos 0 ≤ℤ legal_total employee year now
      → r.employee_id ≡ employee
      → year_of r.start_date ≡ year
      → deducts (db.policies r.leave_type) ≡ true
      → settled db employee year + r.requested_minutes ≤ pos_part (legal_total employee year now)
  covered_share db employee year r now (inl free) ht hp he hy hd = ground arith
  covered_share db employee year r now (inr (hu, hl)) ht hp he hy hd =
      let enough : (settled db employee year < int32_half)
          × (ltb_ℤ (legal_total employee year now -32 pos (settled db employee year))
                (pos r.requested_minutes)
              ≡ false) =
        subst
          (λ e.
            (settled db e year < int32_half)
            × (ltb_ℤ (legal_total e year now -32 pos (settled db e year)) (pos r.requested_minutes)
                ≡ false))
          he
          (subst
            (λ y.
              (settled db r.employee_id y < int32_half)
              × (ltb_ℤ (legal_total r.employee_id y now -32 pos (settled db r.employee_id y))
                    (pos r.requested_minutes)
                  ≡ false))
            hy (hu, hl)) in
      difference_exact (legal_total employee year now) (settled db employee year)
        r.requested_minutes ht hp enough.0 enough.1

  -- The share of an approval.
  approved_share :
      (db : LeaveDb Float) (employee year : ℕ) (r : LeaveRow) (remark : Option Text) (admin : ℕ)
      (now : Time)
      → Affordable legal_total db r now
      → IsInt32 (legal_total employee year now)
      → pos 0 ≤ℤ legal_total employee year now
      → (leave_share db employee year (leave_decided_as approved remark admin now r) ≡ 0)
        ⊎ (settled db employee year
              + leave_share db employee year (leave_decided_as approved remark admin now r)
            ≤ pos_part (legal_total employee year now))
  approved_share db employee year r remark admin now a ht hp =
      elim (Bool-cases (
        (r.employee_id == employee)
        && deducts (db.policies r.leave_type)
        && in_year year r.start_date)) [
          | inl counted ↦ inr (
              ground (
                arith,
                covered_share db employee year r now a ht hp (ground arith)
                    (in_year-year_of year r.start_date (ground arith)) (ground arith),
              ))
          | inr spared ↦ inl (ground arith)
        ]

  -- A step keeps what is spent within a bound on every total.
  pub LeaveStep-within :
      (limit : ℕ) (employee year : ℕ) (db db' : LeaveDb Float)
      → LeaveStep legal_total db db'
      → ((now : Time)
          → (pos 0 ≤ℤ legal_total employee year now)
            × (pos_part (legal_total employee year now) ≤ limit))
      → limit < int32_half
      → HasKeys db.leaves
      → settled db employee year ≤ limit
      → settled db' employee year ≤ limit
  unfolding leave_used payout_used sum_rows insert
  LeaveStep-within limit employee year db db' (idle e) ht hl hk hs = ground arith
  LeaveStep-within limit employee year db db' (filed k emp created_by f m h v e) ht hl hk hs =
      ground arith
  LeaveStep-within limit employee year db db' (edited k r f m h ed v e) ht hl hk hs =
      ground (arith, settled-update db k (edited_as f m) r employee year hk h)
  LeaveStep-within limit employee year db db' (rejects k r remark admin now h st e) ht hl hk hs =
      ground (
        arith,
        settled-update db k (leave_decided_as rejected remark admin now) r employee year hk h,
      )
  LeaveStep-within limit employee year db db' (approves k r remark admin now h st a e) ht hl hk hs =
      ground (
        arith,
        settled-update db k (leave_decided_as approved remark admin now) r employee year hk h,
        approved_share db employee year r remark admin now a (ground (arith, ht now)) (ht now).0,
        ht now,
      )

-- ===== src/Payroll/Periods/Resolved.antt =====
-- Which pay period a date resolves to (internal/domain/salary.go), and the ranges that payroll
-- accepts as a period (`isPayrollPeriodRange`, internal/service/salary_payroll.go).
use hrbackend.Prelude.{
  ℕ, ◌+◌, ◌%◌, ◌≤◌, ◌<◌, ◌≡◌, refl, ◌∙◌, ap, true, false, not, ◌&&◌, ◌||◌, List, [], ◌∷◌, map,
  arith, ltb, ◌==◌, if◌then◌else◌, ◌↔◌,
}
use hrbackend.Time.{Time, date_only, day_of}
use hrbackend.Time.Calendar.{iso_year, iso_year_pos, iso_year_holds, iso_year_unique}
use hrbackend.Payroll.Periods.{
  PeriodOption, find_period, iso_year_start, payroll_period_options_for_year, mark_current,
  payroll_period_options_for_year_marked, resolve_payroll_period, is_payroll_period_start,
  is_payroll_period_range,
}
use hrbackend.Payroll.Periods.Tiling.{
  IsFound, Among-bounds, Among-midnight, options_tile_year, iso_year_start_lem, find_period-IsFound,
  find_period_unique,
}

-- The marks do not matter to the search.
find_period-mark_current :
    (day : Time) (r : Time × Time) (os : List PeriodOption)
    → find_period day (map (mark_current r) os) ≡ find_period day os
unfolding find_period
find_period-mark_current day r [] = refl
find_period-mark_current day r (o ∷ os) = rw (find_period-mark_current day r os)

-- The ISO year of a time, and the options of that year.
abbrev pub year_of : Time → ℕ
year_of t = iso_year (day_of (date_only t))

resolve_lem :
    (t : Time)
    → resolve_payroll_period t
      ≡ find_period (date_only t) (payroll_period_options_for_year (year_of t))
unfolding resolve_payroll_period payroll_period_options_for_year_marked
resolve_lem t = find_period-mark_current _ _ _

-- The year of a date, in times.
year_bounds :
    (t : Time)
    → (iso_year_start (year_of t) ≤ date_only t) × (date_only t < iso_year_start (year_of t + 1))
year_bounds t = omega (
  arith,
  iso_year_pos (day_of (date_only t)),
  iso_year_holds (day_of (date_only t)),
  iso_year_start_lem (year_of t),
  iso_year_start_lem (year_of t + 1),
)

-- Every date resolves to a pay period of its ISO year, and lies in it: the two zero times are never
-- returned for want of a period.
pub resolve_payroll_period-IsFound :
    (t : Time)
    → IsFound (date_only t) (payroll_period_options_for_year (year_of t)) (resolve_payroll_period t)
resolve_payroll_period-IsFound t =
    let y = iso_year_pos (day_of (date_only t)) in
    let tiled = options_tile_year (year_of t) y in
    let first : iso_year_start (year_of t) % 86400 ≡ 0 =
      omega (arith, iso_year_start_lem (year_of t)) in
    rw (resolve_lem t) (
      find_period-IsFound _ _ _ (date_only t) (omega arith) first tiled.0 tiled.1 (year_bounds t).0
        (year_bounds t).1)

year_of_unique :
    (t : Time) (y : ℕ)
    → 1 ≤ y
    → iso_year_start y ≤ date_only t
    → date_only t < iso_year_start (y + 1)
    → year_of t ≡ y
year_of_unique t y h lo hi =
    iso_year_unique (day_of (date_only t)) y h (omega (arith, iso_year_start_lem y h))
      (omega (arith, iso_year_start_lem (y + 1)))

-- All dates of a pay period resolve to that same period.
pub resolve_payroll_period_stable :
    (t u : Time)
    → (resolve_payroll_period t).0 ≤ date_only u
    → date_only u ≤ (resolve_payroll_period t).1
    → resolve_payroll_period u ≡ resolve_payroll_period t
resolve_payroll_period_stable t u lo hi =
    let y = iso_year_pos (day_of (date_only t)) in
    let tiled = options_tile_year (year_of t) y in
    let found = resolve_payroll_period-IsFound t in
    let within = Among-bounds _ _ _ _ tiled.0 found.0 in
    let same = year_of_unique u (year_of t) y (omega arith) (omega arith) in
    resolve_lem u ∙ rw same (find_period_unique _ _ _ _ (date_only u) tiled.0 found.0 lo hi)

resolved_midnight :
    (t : Time) → date_only (resolve_payroll_period t).0 ≡ (resolve_payroll_period t).0
resolved_midnight t =
    let y = iso_year_pos (day_of (date_only t)) in
    let tiled = options_tile_year (year_of t) y in
    let first : iso_year_start (year_of t) % 86400 ≡ 0 =
      omega (arith, iso_year_start_lem (year_of t)) in
    omega (arith, Among-midnight _ _ _ _ first tiled.0 tiled.1 (resolve_payroll_period-IsFound t).0)

resolve_resolved :
    (t : Time) → resolve_payroll_period (resolve_payroll_period t).0 ≡ resolve_payroll_period t
resolve_resolved t =
    let found = resolve_payroll_period-IsFound t in
    let m = resolved_midnight t in
    resolve_payroll_period_stable t (resolve_payroll_period t).0 (omega arith) (omega arith)

-- The test reads its two bounds against the period of the first.
range_lem :
    (a b : Time)
    → is_payroll_period_range a b ≡ (
        if ltb b a || not (date_only a == (resolve_payroll_period a).0)
        then false
        else (a == (resolve_payroll_period a).0) && (b == (resolve_payroll_period a).1))
unfolding is_payroll_period_range is_payroll_period_start
range_lem a b = refl

-- Payroll accepts a pair of bounds as a pay period exactly when it is the period that some date
-- resolves to.
pub is_payroll_period_range_iff :
    (a b : Time)
    → (is_payroll_period_range a b ≡ true) ↔ ((t : Time) × (resolve_payroll_period t ≡ (a, b)))
is_payroll_period_range_iff a b = (λ h. (a, accepted h), λ (t, e). resolved t e)
  where
    accepted : is_payroll_period_range a b ≡ true → resolve_payroll_period a ≡ (a, b)
    accepted h = let h' = range_lem a b in ground arith

    resolved : (t : Time) → resolve_payroll_period t ≡ (a, b) → is_payroll_period_range a b ≡ true
    resolved t e =
        let again : resolve_payroll_period a ≡ (a, b) = rw e at (resolve_resolved t) in
        let midnight : date_only a ≡ a = rw e at (resolved_midnight t) in
        let around = resolve_payroll_period-IsFound a in
        ground (
          arith,
          range_lem a b,
          ap (λ (r : Time × Time). r.0) again,
          ap (λ (r : Time × Time). r.1) again,
        )

-- ===== src/Payroll/Rates.antt =====
-- The irregular-hours (ORT) rate of a minute of work, in internal/service/salary_payroll.go.
-- A rate is a whole percentage (the source's float64 constants 0, 25, 30 and 45). The holiday set
-- is keyed by the formatted date in the source, by the day's number here.
use hrbackend.Prelude.{
  ℕ, ◌*◌, Bool, false, not, ◌&&◌, ◌||◌, List, [], ◌∷◌, ltb, leb, ◌==◌, if◌then◌else◌,
}
use hrbackend.Prelude.GoText.{Text, codes, text_eq, normalized}
use hrbackend.Time.{Time, day_of, weekday, minutes_of_day, sunday, saturday}

abbrev pub Holidays : Type 0
Holidays = List ℕ

unfoldable pub is_holiday : ℕ → Holidays → Bool
is_holiday d [] = false
is_holiday d (h ∷ hs) = (d == h) || is_holiday d hs

-- `minutesOfDay >= from*60 && minutesOfDay < until*60`.
abbrev pub within_hours : ℕ → ℕ → ℕ → Bool
within_hours from until m = leb (from * 60) m && ltb m (until * 60)

-- `minutesOfDay >= 22*60 || minutesOfDay < 6*60`.
abbrev pub is_night : ℕ → Bool
is_night m = leb (22 * 60) m || ltb m (6 * 60)

-- The last switch, on the contract's irregular-hours profile.
unfoldable pub profile_rate : Text → ℕ → ℕ
profile_rate profile m =
    if text_eq (normalized profile) (codes "roster")
    then (if within_hours 6 7 m then 25 else if within_hours 19 22 m then 25 else 0)
    else if text_eq (normalized profile) (codes "non_roster")
    then (if within_hours 20 22 m then 25 else 0)
    else 0

-- `ortRateForMinute`. On a Saturday one of the two tests holds, and the switch never falls through.
unfoldable pub ort_rate_for_minute : Text → Time → Holidays → ℕ
unfolding profile_rate
ort_rate_for_minute profile minute holidays =
    if is_holiday (day_of minute) holidays
    then 45
    else if weekday minute == sunday
    then 45
    else if (weekday minute == saturday) && within_hours 6 22 (minutes_of_day minute)
    then 30
    else if (weekday minute == saturday) && is_night (minutes_of_day minute)
    then 45
    else if is_night (minutes_of_day minute)
    then 45
    else profile_rate profile (minutes_of_day minute)

-- `isLoondienstContractType`, which is also `isPayrollORTEligibleContractType`.
unfoldable pub is_loondienst_contract_type : Text → Bool
is_loondienst_contract_type t =
    text_eq (normalized t) (codes "permanent") || text_eq (normalized t) (codes "temporary")

unfoldable pub is_payroll_eligible_contract_type : Text → Bool
is_payroll_eligible_contract_type t =
    text_eq (normalized t) (codes "permanent")
    || text_eq (normalized t) (codes "temporary")
    || text_eq (normalized t) (codes "on_call")

-- `appliedPayrollRateForMinute`, on the two fields of the work item that it reads.
unfoldable pub applied_payroll_rate_for_minute : Text → Text → Holidays → Time → ℕ
unfolding ort_rate_for_minute is_loondienst_contract_type
applied_payroll_rate_for_minute contract_type profile holidays minute =
    if not (is_loondienst_contract_type contract_type)
    then 0
    else ort_rate_for_minute profile minute holidays

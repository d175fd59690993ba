-- ===== src/Payroll/RuleTable.antt =====
-- The table of irregular-hours rules that `GetORTRules` (internal/service/salary_payroll.go) shows
-- to clients, against the rates that payroll applies.
use hrbackend.Prelude.{
  ℕ, ◌+◌, ◌*◌, ◌≡◌, Bool, true, not, ◌&&◌, ◌||◌, Option, none, some, List, [], ◌∷◌, arith, leb, ltb,
  ◌==◌, if◌then◌else◌,
}
use hrbackend.Prelude.GoText.{Text, codes, text_eq, normalized}
use hrbackend.Time.{Time, day_of, weekday, minutes_of_day, sunday, saturday}
use hrbackend.Clock.{
  parse_clock, parse_minutes, parse_seconds, parse_hour_minute, get_num, skip_colon, drop_fraction,
}
use hrbackend.Payroll.Rates.{
  Holidays, is_holiday, is_loondienst_contract_type, applied_payroll_rate_for_minute,
}

-- `domain.ORTRule`, less the label and the description.
pub record OrtRule : Type 0 where
  pub order : ℕ
  pub rate_percent : ℕ
  pub contract_type : Text
  pub irregular_hours_profile : Option Text
  pub day_type : Text
  pub time_from : Option Text
  pub time_to : Option Text

abbrev rule : ℕ → ℕ → Text → Option Text → Text → Option Text → Option Text → OrtRule
rule n p c pr d f t = record {
  order = n;
  rate_percent = p;
  contract_type = c;
  irregular_hours_profile = pr;
  day_type = d;
  time_from = f;
  time_to = t;
}

-- The response of `GetORTRules`.
unfoldable pub get_ort_rules : List OrtRule
get_ort_rules =
    let loondienst = codes "loondienst" in
    let roster = some (codes "roster") in
    let any_day = codes "any" in
    rule 1 45 loondienst none (codes "public_holiday") none none
    ∷ rule 2 45 loondienst none (codes "sunday") none none
    ∷ rule 3 45 loondienst none any_day (some (codes "22:00")) (some (codes "06:00"))
    ∷ rule 4 30 loondienst none (codes "saturday") (some (codes "06:00")) (some (codes "22:00"))
    ∷ rule 5 25 loondienst roster any_day (some (codes "06:00")) (some (codes "07:00"))
    ∷ rule 6 25 loondienst roster any_day (some (codes "19:00")) (some (codes "22:00"))
    ∷ rule 7 25 loondienst (some (codes "non_roster")) any_day (some (codes "20:00"))
        (some (codes "22:00"))
    ∷ rule 8 0 loondienst none any_day none none
    ∷ rule 9 0 (codes "non_loondienst") none any_day none none
    ∷ []

-- How a client reads a rule. The hours from a clock to a clock, over midnight if the first is later.
abbrev in_window : ℕ → ℕ → ℕ → Bool
in_window from to m = if ltb from to then leb from m && ltb m to else leb from m || ltb m to

clock_minutes : Text → ℕ
clock_minutes t = elim (parse_clock t) [ none ↦ 0 | some c ↦ c.hour * 60 + c.minute ]

in_hours : Option Text → Option Text → ℕ → Bool
unfolding clock_minutes
in_hours (some from) (some to) m = in_window (clock_minutes from) (clock_minutes to) m
in_hours _ _ m = true

on_day : Text → Time → Holidays → Bool
on_day day_type t holidays =
    if text_eq day_type (codes "public_holiday")
    then is_holiday (day_of t) holidays
    else if text_eq day_type (codes "sunday")
    then weekday t == sunday
    else if text_eq day_type (codes "saturday")
    then weekday t == saturday
    else true

for_contract : Text → Text → Bool
for_contract rule_type contract_type =
    if text_eq rule_type (codes "loondienst")
    then is_loondienst_contract_type contract_type
    else not (is_loondienst_contract_type contract_type)

for_profile : Option Text → Text → Bool
for_profile none profile = true
for_profile (some p) profile = text_eq (normalized profile) p

applies : OrtRule → Text → Text → Holidays → Time → Bool
unfolding in_hours on_day for_contract for_profile
applies r contract_type profile holidays t =
    for_contract r.contract_type contract_type
    && for_profile r.irregular_hours_profile profile
    && on_day r.day_type t holidays
    && in_hours r.time_from r.time_to (minutes_of_day t)

-- The rate of the first rule that applies.
pub first_rate : List OrtRule → Text → Text → Holidays → Time → Option ℕ
first_rate [] contract_type profile holidays t = none
first_rate (r ∷ rs) contract_type profile holidays t =
    if applies r contract_type profile holidays t
    then some r.rate_percent
    else first_rate rs contract_type profile holidays t

-- For every contract type, profile, holiday set and minute, the first rule of the published table
-- that applies has the rate that payroll applies to the minute.
pub rule_table_agrees :
    (contract_type profile : Text) (holidays : Holidays) (t : Time)
    → first_rate get_ort_rules contract_type profile holidays t
      ≡ some (applied_payroll_rate_for_minute contract_type profile holidays t)
unfolding first_rate get_ort_rules applies applied_payroll_rate_for_minute parse_clock parse_minutes
    parse_seconds parse_hour_minute get_num skip_colon drop_fraction text_eq
rule_table_agrees contract_type profile holidays t = ground arith

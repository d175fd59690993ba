-- ===== src/Payroll/Periods/Tiling.antt =====
-- The options of an ISO year (internal/domain/salary.go) as a tiling of the year.
use hrbackend.Prelude.{
  ℕ, ◌+◌, ◌*◌, ◌%◌, ◌≤◌, ◌<◌, ◌≡◌, refl, ◌⊎◌, inl, inr, true, false, List, [], ◌∷◌, arith, length,
  ne→==-false, Bool-cases,
}
use hrbackend.Time.{Time}
use hrbackend.Time.Calendar.{iso_year_first_day, iso_week-december_28}
use hrbackend.Payroll.Periods.{
  PeriodOption, iso_year_start, iso_weeks_in_year, period_loop, payroll_period_options_for_year,
  in_period, find_period,
}

abbrev pub WeeksLong : ℕ → PeriodOption → Type 0
WeeksLong n o = o.period_end + 86400 ≡ o.period_start + n * 604800

-- Each option starts on the day after the one before it ends.
abbrev pub Tiles : Time → Time → List PeriodOption → Type 0
Tiles a b [] = a ≡ b
Tiles a b (o ∷ os) =
    (o.period_start ≡ a) × (o.period_start ≤ o.period_end) × Tiles (o.period_end + 86400) b os

-- Each option lasts four weeks, but for the last, which may last five.
abbrev pub IsFourWeekly : List PeriodOption → Type 0
IsFourWeekly [] = Unit {0}
IsFourWeekly (o ∷ []) = WeeksLong 4 o ⊎ WeeksLong 5 o
IsFourWeekly (o ∷ p ∷ os) = WeeksLong 4 o × IsFourWeekly (p ∷ os)

pub iso_year_start_lem : (y : ℕ) → 1 ≤ y → iso_year_start y ≡ iso_year_first_day y * 86400
unfolding iso_year_start iso_year_first_day
iso_year_start_lem y h = ground arith

-- The options of a year that begins at a and of the given number of weeks.
abbrev IsYearOf : Time → ℕ → List PeriodOption → Type 0
IsYearOf a weeks os = Tiles a (a + weeks * 604800) os × IsFourWeekly os × (length os ≡ 13)

loop_52 : (start : Time) → IsYearOf start 52 (period_loop 52 start 52 0)
unfolding period_loop
loop_52 start = (omega arith, omega arith, refl)

loop_53 : (start : Time) → IsYearOf start 53 (period_loop 53 start 53 0)
unfolding period_loop
loop_53 start = (omega arith, omega arith, refl)

options_of_year :
    (y w : ℕ)
    → 1 ≤ y
    → iso_weeks_in_year y ≡ w
    → (w ≡ 52) ⊎ (w ≡ 53)
    → IsYearOf (iso_year_start y) w (payroll_period_options_for_year y)
unfolding payroll_period_options_for_year
options_of_year y w h e (inl short) =
    rw (ne→==-false y 0 (λ z. omega arith), e, short) (loop_52 (iso_year_start y))
options_of_year y w h e (inr long) =
    rw (ne→==-false y 0 (λ z. omega arith), e, long) (loop_53 (iso_year_start y))

next_year_start :
    (y : ℕ) → 1 ≤ y → iso_year_start (y + 1) ≡ iso_year_start y + iso_weeks_in_year y * 604800
unfolding iso_weeks_in_year
next_year_start y h = omega (
  arith,
  iso_year_start_lem y h,
  iso_year_start_lem (y + 1) (omega arith),
  iso_week-december_28 y h,
)

weeks_in_year : (y : ℕ) → 1 ≤ y → (iso_weeks_in_year y ≡ 52) ⊎ (iso_weeks_in_year y ≡ 53)
unfolding iso_weeks_in_year
weeks_in_year y h = (iso_week-december_28 y h).1

-- An ISO year from 1 on has thirteen pay periods, of four weeks each but for the last, which may have
-- five; they follow one another without a gap from the year's first Monday to the next year's.
pub options_tile_year :
    (y : ℕ)
    → 1 ≤ y
    → (let os = payroll_period_options_for_year y in
        Tiles (iso_year_start y) (iso_year_start (y + 1)) os × IsFourWeekly os × (length os ≡ 13))
options_tile_year y h =
    let whole = options_of_year y (iso_weeks_in_year y) h refl (weeks_in_year y h) in
    (rw (next_year_start y h) whole.0, whole.1, whole.2)

-- The bounds of one of the options.
abbrev pub Among : List PeriodOption → Time × Time → Type 0
Among [] r = ⊥
Among (o ∷ os) r = (r ≡ (o.period_start, o.period_end)) ⊎ Among os r

Tiles-le : (a b : Time) (os : List PeriodOption) → Tiles a b os → a ≤ b
Tiles-le a b [] t = omega arith
Tiles-le a b (o ∷ os) t = omega (arith, Tiles-le (o.period_end + 86400) b os t.2)

pub Among-bounds :
    (a b : Time) (os : List PeriodOption) (r : Time × Time)
    → Tiles a b os
    → Among os r
    → (a ≤ r.0) × (r.0 ≤ r.1) × (r.1 + 86400 ≤ b)
Among-bounds a b [] r t m = absurd m
Among-bounds a b (o ∷ os) r t (inl e) = ground (arith, Tiles-le (o.period_end + 86400) b os t.2)
Among-bounds a b (o ∷ os) r t (inr m) =
    omega (arith, Among-bounds (o.period_end + 86400) b os r t.2 m)

IsFourWeekly-parts :
    (o : PeriodOption) (os : List PeriodOption)
    → IsFourWeekly (o ∷ os)
    → (WeeksLong 4 o ⊎ WeeksLong 5 o) × IsFourWeekly os
IsFourWeekly-parts o [] f = (f, tt)
IsFourWeekly-parts o (p ∷ os) f = (inl f.0, f.1)

-- What the search returns lies around the day, and is one of the options.
abbrev pub IsFound : Time → List PeriodOption → Time × Time → Type 0
IsFound day os r = Among os r × (r.0 ≤ day) × (day ≤ r.1)

IsFound-first :
    (o : PeriodOption) (os : List PeriodOption) (day : Time)
    → in_period day o ≡ true
    → IsFound day (o ∷ os) (find_period day (o ∷ os))
unfolding find_period
IsFound-first o os day h = rw h (inl refl, ground arith, ground arith)

IsFound-later :
    (o : PeriodOption) (os : List PeriodOption) (day : Time)
    → in_period day o ≡ false
    → IsFound day os (find_period day os)
    → IsFound day (o ∷ os) (find_period day (o ∷ os))
unfolding find_period
IsFound-later o os day h (m, lo, hi) = rw h (inr m, lo, hi)

-- A day of the tiled stretch has an option that holds it.
pub find_period-IsFound :
    (a b : Time) (os : List PeriodOption) (day : Time)
    → day % 86400 ≡ 0
    → a % 86400 ≡ 0
    → Tiles a b os
    → IsFourWeekly os
    → a ≤ day
    → day < b
    → IsFound day os (find_period day os)
find_period-IsFound a b [] day hd ha t f lo hi = absurd (omega arith)
find_period-IsFound a b (o ∷ os) day hd ha t f lo hi = elim (Bool-cases (in_period day o)) [
  | inl here ↦ IsFound-first o os day here
  | inr later ↦
      let (w, f') = IsFourWeekly-parts o os f in
      let next : (o.period_end + 86400) % 86400 ≡ 0 = omega arith in
      let after : o.period_end + 86400 ≤ day = ground arith in
      IsFound-later o os day later
        (find_period-IsFound (o.period_end + 86400) b os day hd next t.2 f' after hi)
]

-- No other option holds it.
pub find_period_unique :
    (a b : Time) (os : List PeriodOption) (r : Time × Time) (day : Time)
    → Tiles a b os
    → Among os r
    → r.0 ≤ day
    → day ≤ r.1
    → find_period day os ≡ r
unfolding find_period
find_period_unique a b [] r day t m lo hi = absurd m
find_period_unique a b (o ∷ os) r day t (inl e) lo hi = ground arith
find_period_unique a b (o ∷ os) r day t (inr m) lo hi = ground (
  arith,
  Among-bounds (o.period_end + 86400) b os r t.2 m,
  find_period_unique (o.period_end + 86400) b os r day t.2 m lo hi,
)

pub Among-midnight :
    (a b : Time) (os : List PeriodOption) (r : Time × Time)
    → a % 86400 ≡ 0
    → Tiles a b os
    → IsFourWeekly os
    → Among os r
    → r.0 % 86400 ≡ 0
Among-midnight a b [] r ha t f m = absurd m
Among-midnight a b (o ∷ os) r ha t f (inl e) = ground arith
Among-midnight a b (o ∷ os) r ha t f (inr m) =
    let (w, f') = IsFourWeekly-parts o os f in
    Among-midnight (o.period_end + 86400) b os r (omega arith) t.2 f' m

-- ===== src/Time/Calendar.antt =====
-- The proleptic Gregorian calendar and the ISO weeks of Go's package time, on day numbers (day 0 is
-- Monday 1 January of year 1).
use hrbackend.Prelude.{ℕ, ◌+◌, ◌-◌, ◌*◌, ◌/◌, ◌%◌, ◌≤◌, ◌<◌, ◌≡◌, ◌⊎◌, arith}

-- The day number of 1 January of a year from 1 on.
unfoldable pub days_before_year : ℕ → ℕ
days_before_year y = let p = y - 1 in 365 * p + p / 4 - p / 100 + p / 400

-- A day's year and its day in the year, counted from 0, as package time's `absDate` finds them:
-- cycles of 400, 100, 4 and 1 years are cut off, and the last day of the last cycle is kept in it.
pub record YearDay : Type 0 where
  pub year : ℕ
  pub yday : ℕ

-- `n -= n >> 2`: four cycles of the day count are three and a day.
abbrev at_most_three : ℕ → ℕ
at_most_three n = n - n / 4

unfoldable pub year_day : ℕ → YearDay
year_day d =
    let n400 = d / 146097 in
    let d₁ = d - 146097 * n400 in
    let n100 = at_most_three (d₁ / 36524) in
    let d₂ = d₁ - 36524 * n100 in
    let n4 = d₂ / 1461 in
    let d₃ = d₂ - 1461 * n4 in
    let n1 = at_most_three (d₃ / 365) in
    record { year = 400 * n400 + 100 * n100 + 4 * n4 + n1 + 1; yday = d₃ - 365 * n1 }

-- The Thursday of a day's week, on which `ISOWeek` decides.
abbrev pub thursday_of : ℕ → ℕ
thursday_of d = d - d % 7 + 3

unfoldable pub iso_year : ℕ → ℕ
iso_year d = (year_day (thursday_of d)).year

unfoldable pub iso_week : ℕ → ℕ
iso_week d = (year_day (thursday_of d)).yday / 7 + 1

days_before_year-suc :
    (y : ℕ)
    → 1 ≤ y
    → (days_before_year (y + 1) ≡ days_before_year y + 365)
      ⊎ (days_before_year (y + 1) ≡ days_before_year y + 366)
unfolding days_before_year
days_before_year-suc y h = omega arith

-- A year that begins by a day before which another ends is no later than it.
year_order : (d y z : ℕ) → days_before_year y ≤ d → d < days_before_year (z + 1) → y ≤ z
unfolding days_before_year
year_order d y z lo hi = omega arith

year_day_sum : (d : ℕ) → days_before_year (year_day d).year + (year_day d).yday ≡ d
unfolding days_before_year year_day
year_day_sum d = omega arith

year_day_bound : (d : ℕ) → d < days_before_year ((year_day d).year + 1)
unfolding days_before_year year_day
year_day_bound d = omega arith

-- The year of a day is the one that it lies in.
pub year_day_unique :
    (d y : ℕ)
    → 1 ≤ y
    → days_before_year y ≤ d
    → d < days_before_year (y + 1)
    → (year_day d).year ≡ y
year_day_unique d y h lo hi =
    let starts : days_before_year (year_day d).year ≤ d = omega (arith, year_day_sum d) in
    omega (
      arith,
      year_order d y (year_day d).year lo (year_day_bound d),
      year_order d (year_day d).year y starts hi,
    )

-- A day lies in its year.
pub year_day_holds :
    (d : ℕ)
    → (days_before_year (year_day d).year ≤ d) × (d < days_before_year ((year_day d).year + 1))
year_day_holds d = (omega (arith, year_day_sum d), year_day_bound d)

-- The Monday of the week with 4 January.
unfoldable pub iso_year_first_day : ℕ → ℕ
iso_year_first_day y = days_before_year y + 3 - (days_before_year y + 3) % 7

pub iso_year_pos : (d : ℕ) → 1 ≤ iso_year d
unfolding iso_year year_day
iso_year_pos d = omega arith

-- A day lies in its ISO year, from that year's first Monday to the day before the next one's.
pub iso_year_holds :
    (d : ℕ) → (iso_year_first_day (iso_year d) ≤ d) × (d < iso_year_first_day (iso_year d + 1))
unfolding iso_year iso_year_first_day
iso_year_holds d = omega (arith, year_day_sum (thursday_of d), year_day_bound (thursday_of d))

pub iso_year_unique :
    (d y : ℕ) → 1 ≤ y → iso_year_first_day y ≤ d → d < iso_year_first_day (y + 1) → iso_year d ≡ y
unfolding iso_year iso_year_first_day
iso_year_unique d y h lo hi = year_day_unique (thursday_of d) y h (omega arith) (omega arith)

-- 28 December, on which `isoWeeksInYear` asks for the week.
abbrev pub december_28 : ℕ → ℕ
december_28 y = days_before_year (y + 1) - 4

thursday-december_28 : (y : ℕ) → 1 ≤ y → (year_day (thursday_of (december_28 y))).year ≡ y
thursday-december_28 y h =
    year_day_unique (thursday_of (december_28 y)) y h (omega (arith, days_before_year-suc y h))
      (omega (arith, days_before_year-suc y h))

-- The week of 28 December is the number of weeks of the ISO year, which is 52 or 53.
pub iso_week-december_28 :
    (y : ℕ)
    → 1 ≤ y
    → (iso_year_first_day y + 7 * iso_week (december_28 y) ≡ iso_year_first_day (y + 1))
      × ((iso_week (december_28 y) ≡ 52) ⊎ (iso_week (december_28 y) ≡ 53))
unfolding iso_week iso_year_first_day
iso_week-december_28 y h =
    let e = thursday-december_28 y h in
    let s : days_before_year y + (year_day (thursday_of (december_28 y))).yday
        ≡ thursday_of (december_28 y) =
      rw e at (year_day_sum (thursday_of (december_28 y))) in
    omega (arith, days_before_year-suc y h)

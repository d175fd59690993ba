-- ===== src/Time.antt =====
-- Go's `time.Time` in UTC, as the services use it: the seconds since Go's zero time, midnight at the
-- start of Monday 1 January of year 1. `IsZero`, `Before`, `After` and `Equal` are `== 0`, `<`, `>`
-- and `==` on these numbers. Fractions of a second, and times before year 1, are not represented.
pub mod Calendar
use hrbackend.Prelude.{ℕ, ◌+◌, ◌*◌, ◌/◌, ◌%◌}

abbrev pub Time : Type 0
Time = ℕ

abbrev pub seconds_per_day : ℕ
seconds_per_day = 86400

-- The number of the day on which a time falls, 0 for the first.
abbrev pub day_of : Time → ℕ
day_of t = t / 86400

-- `time.Date(t.Year(), t.Month(), t.Day(), 0, 0, 0, 0, time.UTC)`.
abbrev pub date_only : Time → Time
date_only t = t / 86400 * 86400

-- `t.Hour()*60 + t.Minute()`.
abbrev pub minutes_of_day : Time → ℕ
minutes_of_day t = t % 86400 / 60

-- `time.Weekday`: 0 for Sunday. Day 0 is a Monday.
abbrev pub weekday : Time → ℕ
weekday t = (t / 86400 + 1) % 7

abbrev pub sunday : ℕ
sunday = 0

abbrev pub saturday : ℕ
saturday = 6

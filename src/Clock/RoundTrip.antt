-- ===== src/Clock/RoundTrip.antt =====
-- What is printed is read back.
use hrbackend.Prelude.{
  ℕ, ◌+◌, ◌-◌, ◌*◌, ◌/◌, ◌%◌, ◌<◌, ◌≡◌, Bool, true, false, none, some, [], ◌∷◌, ◌++◌, arith, lt→ltb,
  ap, ◌∙◌,
}
use hrbackend.Prelude.GoText.{Text}
use hrbackend.Clock.{
  ClockTime, get_num, skip_colon, drop_fraction, two_digits, parse_hour_minute, parse_seconds,
  parse_minutes, parse_clock, format_minutes, format_seconds, string_from_pg_time,
  pg_time_from_string,
}

get_num-two_digits :
    (fixed : Bool) (n : ℕ) (r : Text) → n < 100 → get_num fixed (two_digits n ++ r) ≡ some (n, r)
unfolding get_num
get_num-two_digits fixed n r h =
    let value : (48 + n / 10 - 48) * 10 + (48 + n % 10 - 48) ≡ n = omega arith in ground arith

parse_hour_minute_lem :
    (h m : ℕ) (r : Text)
    → h < 24
    → m < 60
    → parse_hour_minute (two_digits h ++ (58 ∷ two_digits m ++ r)) ≡ some (h, m, r)
unfolding parse_hour_minute skip_colon
parse_hour_minute_lem h m r hh hm = rw (
  get_num-two_digits false h _ (omega arith),
  lt→ltb h 24 hh,
  get_num-two_digits true m r (omega arith),
  lt→ltb m 60 hm,
)

-- Both layouts are read back from what is printed in them.
parse_seconds_lem :
    (h m s : ℕ)
    → h < 24
    → m < 60
    → s < 60
    → parse_seconds (format_seconds h m s) ≡ some (record { hour = h; minute = m; second = s })
unfolding parse_seconds skip_colon drop_fraction format_seconds
parse_seconds_lem h m s hh hm hs = rw (
  parse_hour_minute_lem h m (58 ∷ two_digits s) hh hm,
  get_num-two_digits true s [] (omega arith),
  lt→ltb s 60 hs,
)

parse_minutes_lem :
    (h m : ℕ)
    → h < 24
    → m < 60
    → (parse_seconds (two_digits h ++ (58 ∷ two_digits m)) ≡ none)
      × (parse_minutes (two_digits h ++ (58 ∷ two_digits m))
          ≡ some (record { hour = h; minute = m; second = 0 }))
unfolding parse_seconds parse_minutes skip_colon
parse_minutes_lem h m hh hm =
    (rw (parse_hour_minute_lem h m [] hh hm), rw (parse_hour_minute_lem h m [] hh hm))

first_layout : (s : Text) (t : ClockTime) → parse_seconds s ≡ some t → parse_clock s ≡ some t
unfolding parse_clock
first_layout s t h = rw (h, parse_clock)

second_layout : (s : Text) → parse_seconds s ≡ none → parse_clock s ≡ parse_minutes s
unfolding parse_clock
second_layout s h = rw (h, parse_clock)

-- The minutes of a day, printed as hh:mm, are read back.
pub parse-format_minutes :
    (m : ℕ)
    → m < 1440
    → parse_clock (format_minutes m) ≡ some (record { hour = m / 60; minute = m % 60; second = 0 })
unfolding format_minutes
parse-format_minutes m h =
    let p = parse_minutes_lem (m / 60) (m % 60) (omega arith) (omega arith) in
    second_layout _ p.0 ∙ p.1

-- A time of day that the database holds is printed and read back, but for the fraction of its
-- second.
pub pg_time_round_trip :
    (us : ℕ)
    → us < 86400000000
    → pg_time_from_string (string_from_pg_time (some us)) ≡ some (us / 1000000 * 1000000)
unfolding pg_time_from_string string_from_pg_time
pg_time_round_trip us h =
    let parsed = first_layout _ _ (
      parse_seconds_lem (us / 1000000 / 3600) (us / 1000000 % 3600 / 60) (us / 1000000 % 60)
        (omega arith) (omega arith) (omega arith)) in
    rw parsed (ap some (omega arith))

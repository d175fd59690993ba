-- ===== src/Clock.antt =====
-- Clock texts: `StringFromPgTime` and `PgTimeFromString` of pkg/conv/pg.go, and package time's
-- `Parse` and `Format` for the two layouts that the services use, "15:04:05" and "15:04".
pub mod RoundTrip
use hrbackend.Prelude.{
  ℕ, ◌+◌, ◌-◌, ◌*◌, ◌/◌, ◌%◌, Bool, true, false, ◌&&◌, ◌||◌, Option, none, some, List, [], ◌∷◌,
  ◌++◌, leb, ltb, ◌==◌, if◌then◌else◌,
}
use hrbackend.Prelude.GoText.{Text}
use hrbackend.Prelude.Options.{◌>>=◌, ◌>>◌, require}

pub record ClockTime : Type 0 where
  pub hour : ℕ
  pub minute : ℕ
  pub second : ℕ

abbrev is_digit : ℕ → Bool
is_digit c = leb b'0' c && leb c b'9'

-- Package time's `getnum`: two digits, or one where they are not fixed at two.
unfoldable pub get_num : Bool → Text → Option (ℕ × Text)
get_num fixed [] = none
get_num fixed (c ∷ []) = if is_digit c then (if fixed then none else some (c - b'0', [])) else none
get_num fixed (c ∷ d ∷ r) =
    if is_digit c
    then (if is_digit d
        then some ((c - b'0') * 10 + (d - b'0'), r)
        else if fixed
        then none
        else some (c - b'0', d ∷ r))
    else none

-- A literal colon of the layout.
unfoldable pub skip_colon : Text → Option Text
skip_colon [] = none
skip_colon (c ∷ r) = if c == b':' then some r else none

drop_digits : Text → Text
drop_digits [] = []
drop_digits (c ∷ r) = let rest = drop_digits r in if is_digit c then rest else c ∷ r

-- `Parse` reads over a fraction of the second that the layout does not have.
unfoldable pub drop_fraction : Text → Text
unfolding drop_digits
drop_fraction (c ∷ d ∷ r) =
    let rest = drop_digits r in
    if ((c == b'.') || (c == b',')) && is_digit d then rest else c ∷ d ∷ r
drop_fraction s = s

abbrev at_end : Text → Bool
at_end [] = true
at_end (c ∷ r) = false

-- The hour and the minute, which both layouts begin with.
unfoldable pub parse_hour_minute : Text → Option (ℕ × ℕ × Text)
unfolding get_num skip_colon
parse_hour_minute s = do
  (h, s₁) ← get_num false s
  require (ltb h 24)
  s₂ ← skip_colon s₁
  (m, s₃) ← get_num true s₂
  require (ltb m 60)
  some (h, m, s₃)

-- `time.Parse("15:04:05", s)`.
unfoldable pub parse_seconds : Text → Option ClockTime
parse_seconds s = do
  (h, m, s₃) ← parse_hour_minute s
  s₄ ← skip_colon s₃
  (sec, s₅) ← get_num true s₄
  require (ltb sec 60)
  require (at_end (drop_fraction s₅))
  some (record { hour = h; minute = m; second = sec })

-- `time.Parse("15:04", s)`.
unfoldable pub parse_minutes : Text → Option ClockTime
parse_minutes s = do
  (h, m, s₃) ← parse_hour_minute s
  require (at_end s₃)
  some (record { hour = h; minute = m; second = 0 })

-- The first layout, or else the second.
unfoldable pub parse_clock : Text → Option ClockTime
parse_clock s = elim (parse_seconds s) [ some t ↦ some t | none ↦ parse_minutes s ]

-- `%02d` of a number below 100.
abbrev pub two_digits : ℕ → Text
two_digits n = (b'0' + n / 10) ∷ (b'0' + n % 10) ∷ []

-- `t.Format("15:04")`, of the minutes since midnight.
unfoldable pub format_minutes : ℕ → Text
format_minutes m = two_digits (m / 60) ++ (b':' ∷ two_digits (m % 60))

-- `fmt.Sprintf("%02d:%02d:%02d", …)`.
unfoldable pub format_seconds : ℕ → ℕ → ℕ → Text
format_seconds h m s = two_digits h ++ (b':' ∷ two_digits m ++ (b':' ∷ two_digits s))

-- `pgtype.Time`: microseconds since midnight, or not valid.
unfoldable pub string_from_pg_time : Option ℕ → Text
string_from_pg_time none = []
string_from_pg_time (some us) =
    let total = us / 1000000 in format_seconds (total / 3600) (total % 3600 / 60) (total % 60)

unfoldable pub pg_time_from_string : Text → Option ℕ
pg_time_from_string s = do
  t ← parse_clock s
  some (t.hour * 3600 * 1000000 + t.minute * 60 * 1000000 + t.second * 1000000)

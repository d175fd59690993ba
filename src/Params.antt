-- ===== src/Params.antt =====
-- Parameters of the services: keys, and values that may be missing.
use hrbackend.Prelude.{ℕ, Bool, true, false, Option, none, some}
use hrbackend.Prelude.GoText.{Text, trim_space}
use hrbackend.Time.{Time, date_only}

-- `uuid.Nil`.
abbrev pub uuid_nil : ℕ
uuid_nil = 0

-- `value != nil`.
abbrev pub is_given : {A : Type 0} → Option A → Bool
is_given none = false
is_given (some a) = true

-- `COALESCE(new, old)`, for a column that is never null and for one that may be.
abbrev pub coalesce : {A : Type 0} → Option A → A → A
coalesce none old = old
coalesce (some new) old = new

abbrev pub coalesce_null : {A : Type 0} → Option A → Option A → Option A
coalesce_null none old = old
coalesce_null (some new) old = some new

-- `strings.TrimSpace` and midnight, of a value that is given.
abbrev pub trimmed : Option Text → Option Text
trimmed none = none
trimmed (some t) = some (trim_space t)

abbrev pub midnight_of : Option Time → Option Time
midnight_of none = none
midnight_of (some t) = some (date_only t)

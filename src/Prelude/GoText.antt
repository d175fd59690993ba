-- ===== src/Prelude/GoText.antt =====
-- Go strings as lists of code points, with the functions of package `strings` that the services
-- call on the words that they compare: `TrimSpace`, `ToLower` and `==`.
use Prim.Native.Nat.{ℕ}
use Prim.Native.Char.{code}
use Prim.Native.String.{String}
use mathlib.Core.Path.{◌≡◌, refl}
use mathlib.Core.Bool.{Bool, true, false, ◌&&◌, ◌||◌}
use mathlib.Core.List.{List, [], ◌∷◌, map, reverse}
use hrbackend.Prelude.Tests.{leb, ◌==◌, if◌then◌else◌}

abbrev pub Text : Type 0
Text = List ℕ

-- A string constant of the source.
abbrev pub codes : String → Text
codes String.[] = []
codes (String.◌∷◌ c s) = code c ∷ codes s

unfoldable pub text_eq : Text → Text → Bool
text_eq [] [] = true
text_eq [] (b ∷ bs) = false
text_eq (a ∷ as') [] = false
text_eq (a ∷ as') (b ∷ bs) = (a == b) && text_eq as' bs

-- `unicode.IsSpace`: the Latin-1 spaces, and those of category Z and White_Space above.
pub is_space : ℕ → Bool
is_space c =
    (leb 9 c && leb c 13)
    || (c == 32)
    || (c == 0x85)
    || (c == 0xA0)
    || (c == 0x1680)
    || (leb 0x2000 c && leb c 0x200A)
    || (c == 0x2028)
    || (c == 0x2029)
    || (c == 0x202F)
    || (c == 0x205F)
    || (c == 0x3000)

unfoldable pub drop_space : Text → Text
drop_space [] = []
drop_space (c ∷ cs) = let rest = drop_space cs in if is_space c then rest else c ∷ cs

unfoldable pub trim_space : Text → Text
unfolding is_space drop_space
trim_space s = reverse (drop_space (reverse (drop_space s)))

-- A text with a character that is no space.
unfoldable pub has_ink : Text → Bool
unfolding is_space
has_ink [] = false
has_ink (c ∷ cs) = if is_space c then has_ink cs else true

-- `unicode.ToLower` on the letters A to Z, and on the two others (U+0130 and the Kelvin sign) whose
-- lower case is an ASCII letter. All else is kept: the words compared with are ASCII.
lower_code : ℕ → ℕ
lower_code c =
    if leb b'A' c && leb c b'Z'
    then Prim.Native.Nat.◌+◌ c 32
    else if c == 0x130
    then b'i'
    else if c == 0x212A
    then b'k'
    else c

unfoldable pub to_lower : Text → Text
unfolding lower_code
to_lower s = map lower_code s

-- `strings.ToLower(strings.TrimSpace(value))`.
unfoldable pub normalized : Text → Text
unfolding trim_space to_lower
normalized s = to_lower (trim_space s)

normalized_word : normalized (codes "  Approve ") ≡ codes "approve"
unfolding normalized
normalized_word = refl

-- ===== src/Overtime/Reasons.antt =====
-- The reason of a rejected overtime entry: what `trimOvertimeStringPtr` of
-- internal/service/overtime_service.go leaves of a text.
use hrbackend.Prelude.{
  ◌≡◌, refl, true, false, Option, none, some, [], ◌∷◌, arith, Bool-cases, inl, inr, ◌∙◌, ap,
  if◌then◌else◌,
}
use mathlib.Core.List.{reverse, reverse_aux}
use hrbackend.Prelude.GoText.{Text, text_eq, is_space, drop_space, trim_space, has_ink}
use hrbackend.Overtime.{trim_overtime_string_ptr}

has_ink-drop_space : (s : Text) → has_ink (drop_space s) ≡ has_ink s
unfolding has_ink drop_space
has_ink-drop_space [] = refl
has_ink-drop_space (c ∷ cs) = elim (Bool-cases (is_space c)) [
  | inl h ↦ ground (arith, has_ink-drop_space cs)
  | inr h ↦ ground arith
]

drop_space_blank : (s : Text) → has_ink s ≡ false → drop_space s ≡ []
unfolding has_ink drop_space
drop_space_blank [] h = refl
drop_space_blank (c ∷ cs) h = ground (arith, drop_space_blank cs)

has_ink-reverse_aux :
    (s t : Text) → has_ink (reverse_aux s t) ≡ (if has_ink s then true else has_ink t)
unfolding has_ink
has_ink-reverse_aux [] t = refl
has_ink-reverse_aux (c ∷ cs) t = elim (Bool-cases (is_space c)) [
  | inl h ↦ ground (arith, has_ink-reverse_aux cs (c ∷ t))
  | inr h ↦ ground (arith, has_ink-reverse_aux cs (c ∷ t))
]

has_ink-reverse : (s : Text) → has_ink (reverse s) ≡ has_ink s
unfolding has_ink
has_ink-reverse s = ground (arith, has_ink-reverse_aux s [])

has_ink-trim_space : (s : Text) → has_ink (trim_space s) ≡ has_ink s
unfolding trim_space
has_ink-trim_space s =
    has_ink-reverse (drop_space (reverse (drop_space s)))
    ∙ has_ink-drop_space (reverse (drop_space s))
    ∙ has_ink-reverse (drop_space s)
    ∙ has_ink-drop_space s

trim_space_blank : (s : Text) → has_ink s ≡ false → trim_space s ≡ []
unfolding trim_space drop_space
trim_space_blank s h = ap (λ t. reverse (drop_space (reverse t))) (drop_space_blank s h)

-- A trimmed text is not blank.
pub trimmed_given :
    (o : Option Text) (t : Text) → trim_overtime_string_ptr o ≡ some t → has_ink t ≡ true
unfolding text_eq
trimmed_given none t e = ground arith
trimmed_given (some s) t e = elim (Bool-cases (has_ink s)) [
  | inl h ↦ ground (arith, has_ink-trim_space s)
  | inr h ↦ ground (arith, trim_space_blank s h)
]

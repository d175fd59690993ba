-- ===== src/Prelude/Int.antt =====
-- Signed integers over the native numbers, and Go's `int32` as the integers that it holds.
use Prim.Native.Nat.{ℕ, suc, ◌+◌, ◌-◌, ◌*◌, ◌%◌, ◌≤◌, ◌<◌}
use mathlib.Core.Path.{◌≡◌}
use mathlib.Core.Bool.{Bool}
use native.Mathlib.Omega.{arith}
use hrbackend.Prelude.Tests.{ltb, leb, if◌then◌else◌}

-- `negsuc n` is -(n + 1).
pub data ℤ : Type 0 where
  pos : ℕ → ℤ
  negsuc : ℕ → ℤ

abbrev pub pos_part : ℤ → ℕ
pos_part (pos n) = n
pos_part (negsuc n) = 0

abbrev pub neg_part : ℤ → ℕ
neg_part (pos n) = 0
neg_part (negsuc n) = suc n

-- The integer a - b.
abbrev pub sub_ℕ : ℕ → ℕ → ℤ
sub_ℕ a b = if leb b a then pos (a - b) else negsuc (b - a - 1)

infix 50 ◌≤ℤ◌ ◌<ℤ◌
abbrev pub ◌≤ℤ◌ : ℤ → ℤ → Type 0
a ≤ℤ b = pos_part a + neg_part b ≤ pos_part b + neg_part a

abbrev pub ◌<ℤ◌ : ℤ → ℤ → Type 0
a <ℤ b = pos_part a + neg_part b < pos_part b + neg_part a

abbrev pub ltb_ℤ : ℤ → ℤ → Bool
ltb_ℤ a b = ltb (pos_part a + neg_part b) (pos_part b + neg_part a)

-- Two to the 31 and to the 32.
abbrev pub int32_half : ℕ
int32_half = 2147483648

abbrev pub int32_mod : ℕ
int32_mod = 4294967296

-- The bit pattern of an integer in 32 bits, and the `int32` with a bit pattern.
abbrev pub bits32 : ℤ → ℕ
bits32 (pos n) = n % int32_mod
bits32 (negsuc n) = int32_mod - 1 - n % int32_mod

abbrev pub of_bits32 : ℕ → ℤ
of_bits32 u = if ltb u int32_half then pos u else negsuc (int32_mod - 1 - u)

-- Go's conversion to `int32`: what is left of an exact result after wrap-around.
unfoldable pub int32 : ℤ → ℤ
int32 z = of_bits32 (bits32 z)

infixl 65 ◌+32◌ ◌-32◌
infixl 70 ◌*32◌
-- The exact sum, difference and product, wrapped to 32 bits.
unfoldable pub ◌+32◌ : ℤ → ℤ → ℤ
a +32 b = int32 (sub_ℕ (pos_part a + pos_part b) (neg_part a + neg_part b))

unfoldable pub ◌-32◌ : ℤ → ℤ → ℤ
a -32 b = int32 (sub_ℕ (pos_part a + neg_part b) (neg_part a + pos_part b))

unfoldable pub ◌*32◌ : ℤ → ℕ → ℤ
a *32 k = int32 (sub_ℕ (pos_part a * k) (neg_part a * k))

-- The values of an `int32`.
abbrev pub IsInt32 : ℤ → Type 0
IsInt32 z = (pos_part z < int32_half) × (neg_part z ≤ int32_half)

pub int32_range : (z : ℤ) → IsInt32 (int32 z)
unfolding int32
int32_range z = ground arith

pub int32_exact : (z : ℤ) → IsInt32 z → int32 z ≡ z
unfolding int32
int32_exact z h = ground arith

-- ===== src/Prelude/Int.antt =====
-- Go's signed integers: ℤ over the native numbers, and the conversions that wrap around.
use Prim.Native.Nat.{ℕ, zero, suc, ◌+◌, ◌-◌, ◌*◌, ◌%◌, ◌<◌}
use mathlib.Core.Path.{◌≡◌, refl}
use mathlib.Core.Bool.{Bool}
use native.Mathlib.Omega.{arith}
use kfc_userapi.Prelude.Tests.{ltb, leb, if◌then◌else◌}

-- `negsuc n` is -(n + 1).
pub data ℤ : Type 0 where
  pos : ℕ → ℤ
  negsuc : ℕ → ℤ

abbrev pub pos_part : ℤ → ℕ
pos_part (pos n) = n
pos_part (negsuc n) = 0

abbrev pub neg_part : ℤ → ℕ
neg_part (pos n) = 0
neg_part (negsuc n) = suc n

-- a - b, as an integer.
abbrev pub sub_ℕ : ℕ → ℕ → ℤ
sub_ℕ a b = if leb b a then pos (a - b) else negsuc (b - a - 1)

infixl 65 ◌+ℤ◌ ◌-ℤ◌
infixl 70 ◌*ℤ◌
unfoldable pub ◌+ℤ◌ : ℤ → ℤ → ℤ
a +ℤ b = sub_ℕ (pos_part a + pos_part b) (neg_part a + neg_part b)

unfoldable pub ◌*ℤ◌ : ℤ → ℤ → ℤ
a *ℤ b =
    sub_ℕ (pos_part a * pos_part b + neg_part a * neg_part b)
      (pos_part a * neg_part b + neg_part a * pos_part b)

abbrev pub ltb_ℤ : ℤ → ℤ → Bool
ltb_ℤ a b = ltb (pos_part a + neg_part b) (pos_part b + neg_part a)

-- The integers that 2 * half bit patterns stand for, read back from the pattern `b`.
abbrev pub of_bits : ℕ → ℕ → ℤ
of_bits half b = if ltb b half then pos b else negsuc (half + half - 1 - b)

-- The bit pattern of an integer, modulo 2 * half.
abbrev pub to_bits : ℕ → ℤ → ℕ
to_bits half (pos n) = n % (half + half)
to_bits half (negsuc n) = half + half - 1 - n % (half + half)

abbrev pub half32 : ℕ
half32 = 2147483648

abbrev pub half64 : ℕ
half64 = 9223372036854775808

-- int32(x), and the result of an int64 operation
unfoldable pub int32 : ℤ → ℤ
int32 x = of_bits half32 (to_bits half32 x)

unfoldable pub int64 : ℤ → ℤ
int64 x = of_bits half64 (to_bits half64 x)

pub int32_of_lt : (n : ℕ) → n < half32 → int32 (pos n) ≡ pos n
unfolding int32
int32_of_lt n h = ground arith

pub int64_of_lt : (n : ℕ) → n < half64 → int64 (pos n) ≡ pos n
unfolding int64
int64_of_lt n h = ground arith

-- A value that passes 2 ^ 32 by `n` is taken for `n`.
pub int32_wraps : (n : ℕ) → n < half32 → int32 (pos (n + 4294967296)) ≡ pos n
unfolding int32
int32_wraps n h = ground arith

pub +ℤ-pos : (a b : ℕ) → pos a +ℤ pos b ≡ pos (a + b)
unfolding ◌+ℤ◌
+ℤ-pos a b = ground arith

pub *ℤ-pos : (a b : ℕ) → pos a *ℤ pos b ≡ pos (a * b)
unfolding ◌*ℤ◌
*ℤ-pos a b = ground arith

int32_tests : (int32 (negsuc 0) ≡ negsuc 0) × (int32 (pos 2147483648) ≡ negsuc 2147483647)
unfolding int32
int32_tests = (refl, refl)

abbrev pub neg_ℤ : ℤ → ℤ
neg_ℤ (pos zero) = pos 0
neg_ℤ (pos (suc n)) = negsuc n
neg_ℤ (negsuc n) = pos (suc n)

-- time.Until and the like
unfoldable pub ◌-ℤ◌ : ℤ → ℤ → ℤ
unfolding ◌+ℤ◌
a -ℤ b = a +ℤ neg_ℤ b

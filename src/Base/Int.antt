-- ===== src/Base/Int.antt =====
-- Signed integers over the native numbers, for `int`, `jint`, `jlong` and `gint64`.
use Prim.Native.Nat.{ℕ, suc, ◌+◌, ◌-◌, ◌%◌, ◌^◌, ◌<◌, ◌≤◌}
use mathlib.Core.Path.{◌≡◌}
use mathlib.Core.Bool.{Bool, false}
use native.Mathlib.Omega.{arith}
use my_stream_out_app.Base.Tests.{ltb, leb, if◌then◌else◌}

-- `negsuc n` is -(n + 1).
pub data ℤ : Type 0 where
  pos : ℕ → ℤ
  negsuc : ℕ → ℤ

abbrev pub pos_part : ℤ → ℕ
pos_part (pos n) = n
pos_part (negsuc n) = 0

abbrev pub neg_part : ℤ → ℕ
neg_part (pos n) = 0
neg_part (negsuc n) = suc n

-- a - b, as an integer.
abbrev pub sub_ℕ : ℕ → ℕ → ℤ
sub_ℕ a b = if leb b a then pos (a - b) else negsuc (b - a - 1)

abbrev pub negate : ℤ → ℤ
negate a = sub_ℕ (neg_part a) (pos_part a)

-- The test `x > 0`.
abbrev pub is_positive : ℤ → Bool
is_positive (pos n) = ltb 0 n
is_positive (negsuc n) = false

-- The bit pattern of an integer in `w` bits: a cast to an unsigned type.
abbrev pub to_unsigned : ℕ → ℤ → ℕ
to_unsigned w (pos n) = n % 2 ^ w
to_unsigned w (negsuc n) = 2 ^ w - 1 - n % 2 ^ w

-- The integer that a pattern of 32 bits stands for: a cast to `int` or `jint`.
abbrev pub to_int32 : ℤ → ℤ
to_int32 a = let w = to_unsigned 32 a in if ltb w (2 ^ 31) then pos w else negsuc (2 ^ 32 - 1 - w)

-- The integer that a pattern of 64 bits stands for: a cast from `guint64` to `gint64`.
abbrev pub signed64 : ℕ → ℤ
signed64 w = if ltb w (2 ^ 63) then pos w else negsuc (2 ^ 64 - 1 - w)

abbrev pub minus_ℤ : ℤ → ℤ → ℤ
minus_ℤ a b = sub_ℕ (pos_part a + neg_part b) (neg_part a + pos_part b)

pub to_int32_small : (n : ℕ) → n < 2 ^ 31 → to_int32 (pos n) ≡ pos n
to_int32_small n h = ground arith

pub to_int32_big : (n : ℕ) → 2 ^ 31 ≤ n → n < 2 ^ 32 → to_int32 (pos n) ≡ negsuc (2 ^ 32 - 1 - n)
to_int32_big n p l = ground arith

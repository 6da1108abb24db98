-- ===== src/Prelude/Int.antt =====
-- Signed integers over the native numbers, and the C++ types `int32_t` and `int64_t`.
use Prim.Native.Nat.{ℕ, suc, ◌+◌, ◌-◌, ◌%◌, ◌^◌, ◌≤◌, ◌<◌}
use mathlib.Core.Path.{◌≡◌, ap}
use mathlib.Core.Bool.{Bool, true}
use native.Mathlib.Omega.{arith}
use hddm.Prelude.Tests.{ltb, leb, ◌==◌, if◌then◌else◌}

-- `negsuc n` is -(n + 1).
pub data ℤ : Type 0 where
  pos : ℕ → ℤ
  negsuc : ℕ → ℤ

abbrev pub pos_part : ℤ → ℕ
pos_part (pos n) = n
pos_part (negsuc n) = 0

abbrev pub neg_part : ℤ → ℕ
neg_part (pos n) = 0
neg_part (negsuc n) = suc n

-- a - b, as an integer.
abbrev pub sub_ℕ : ℕ → ℕ → ℤ
sub_ℕ a b = if leb b a then pos (a - b) else negsuc (b - a - 1)

infixl 65 ◌+ℤ◌ ◌-ℤ◌
unfoldable pub ◌+ℤ◌ : ℤ → ℤ → ℤ
a +ℤ b = sub_ℕ (pos_part a + pos_part b) (neg_part a + neg_part b)

unfoldable pub ◌-ℤ◌ : ℤ → ℤ → ℤ
a -ℤ b = sub_ℕ (pos_part a + neg_part b) (neg_part a + pos_part b)

abbrev pub ltb_ℤ : ℤ → ℤ → Bool
ltb_ℤ a b = ltb (pos_part a + neg_part b) (pos_part b + neg_part a)

abbrev pub eqb_ℤ : ℤ → ℤ → Bool
eqb_ℤ a b = (pos_part a + neg_part b) == (pos_part b + neg_part a)

pub eqb_ℤ→eq : (a b : ℤ) → eqb_ℤ a b ≡ true → a ≡ b
eqb_ℤ→eq (pos n) (pos m) h = ap pos (ground arith)
eqb_ℤ→eq (pos n) (negsuc m) h = absurd (ground arith)
eqb_ℤ→eq (negsuc n) (pos m) h = absurd (ground arith)
eqb_ℤ→eq (negsuc n) (negsuc m) h = ap negsuc (ground arith)

pub sub_pos : (a b : ℕ) → pos (a + b) -ℤ pos a ≡ pos b
unfolding ◌-ℤ◌
sub_pos a b = ground arith

abbrev pub int_max : ℕ
int_max = 2 ^ 31 - 1

-- The value fits `int32_t`.
pub record IsInt32 (v : ℤ) : Type 0 where
  pub above : neg_part v ≤ 2 ^ 31
  pub below : pos_part v ≤ int_max

pub record IsInt64 (v : ℤ) : Type 0 where
  pub above : neg_part v ≤ 2 ^ 63
  pub below : pos_part v < 2 ^ 63

-- The conversion `(int)n` of an unsigned number: the low 32 bits, in two's complement.
unfoldable pub to_int32 : ℕ → ℤ
to_int32 n = let m = n % 2 ^ 32 in if ltb m (2 ^ 31) then pos m else negsuc (2 ^ 32 - m - 1)

pub to_int32_small : (n : ℕ) → n ≤ int_max → to_int32 n ≡ pos n
unfolding to_int32
to_int32_small n h = ground arith

pub to_int32-IsInt32 : (n : ℕ) → IsInt32 (to_int32 n)
unfolding to_int32
to_int32-IsInt32 n = ground arith

-- ===== src/Common/Int.antt =====
-- Go's `int64` and `uint64`: signed values over the native numbers, and the conversions that wrap.
use Prim.Native.Nat.{ℕ, suc, ◌+◌, ◌-◌, ◌*◌, ◌/◌, ◌%◌, ◌≤◌}
use mathlib.Core.Bool.{Bool, true, false}
use chronometrics.Common.Tests.{ltb, leb, if◌then◌else◌}

-- `negsuc n` is -(n + 1).
pub data ℤ : Type 0 where
  pos : ℕ → ℤ
  negsuc : ℕ → ℤ

abbrev pub ltb_ℤ : ℤ → ℤ → Bool
ltb_ℤ (pos a) (pos b) = ltb a b
ltb_ℤ (pos a) (negsuc b) = false
ltb_ℤ (negsuc a) (pos b) = true
ltb_ℤ (negsuc a) (negsuc b) = ltb b a

abbrev pub leb_ℤ : ℤ → ℤ → Bool
leb_ℤ (pos a) (pos b) = leb a b
leb_ℤ (pos a) (negsuc b) = false
leb_ℤ (negsuc a) (pos b) = true
leb_ℤ (negsuc a) (negsuc b) = leb b a

abbrev pub u64_mod : ℕ
u64_mod = 18446744073709551616

-- Conversion of an `int64` to `uint64`: its two's-complement bit pattern.
abbrev pub to_u64 : ℤ → ℕ
to_u64 (pos n) = n % u64_mod
to_u64 (negsuc n) = u64_mod - 1 - n % u64_mod

-- Go's `/` by a positive constant, which truncates towards zero.
abbrev pub neg : ℕ → ℤ
neg n = if leb n 0 then pos 0 else negsuc (n - 1)

abbrev pub div_ℤ : ℤ → ℕ → ℤ
div_ℤ (pos n) d = pos (n / d)
div_ℤ (negsuc n) d = neg (suc n / d)

-- `uint64` addition, subtraction and multiplication.
abbrev pub add_u64 : ℕ → ℕ → ℕ
add_u64 a b = (a + b) % u64_mod

abbrev pub sub_u64 : ℕ → ℕ → ℕ
sub_u64 a b = (a + u64_mod - b) % u64_mod

abbrev pub mul_u64 : ℕ → ℕ → ℕ
mul_u64 a b = a * b % u64_mod

abbrev pub i64_max : ℕ
i64_max = 9223372036854775807

-- The values of Go's `int64`.
abbrev pub IsInt64 : ℤ → Type 0
IsInt64 (pos n) = n ≤ i64_max
IsInt64 (negsuc n) = n ≤ i64_max

-- Conversion of a `uint64` to `int64`.
abbrev pub of_u64 : ℕ → ℤ
of_u64 n = if ltb n 9223372036854775808 then pos n else negsuc (u64_mod - 1 - n)

-- `int64` multiplication by a constant, which wraps.
abbrev pub scale : ℤ → ℕ → ℤ
scale z d = of_u64 (mul_u64 (to_u64 z) d)

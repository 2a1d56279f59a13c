-- ===== src/Prelude/Int.antt =====
-- Signed integers over the native numbers, under the library's names, and the two views of a
-- 64-bit word: `loff_t` (signed) and `unsigned long` (its bit pattern).
use Prim.Native.Nat.{ℕ, suc, ◌+◌, ◌-◌, ◌%◌, ◌^◌, ◌<◌}
use mathlib.Core.Path.{◌≡◌}
use mathlib.Core.Bool.{Bool}
use native.Mathlib.Omega.{arith}
use learn_linux_drv.Prelude.Tests.{ltb, if◌then◌else◌}

-- `negsuc n` is -(n + 1).
pub data ℤ : Type 0 where
  pos : ℕ → ℤ
  negsuc : ℕ → ℤ

abbrev pub pos_part : ℤ → ℕ
pos_part (pos n) = n
pos_part (negsuc n) = 0

abbrev pub neg_part : ℤ → ℕ
neg_part (pos n) = 0
neg_part (negsuc n) = suc n

-- `a < b` on signed integers.
abbrev pub ltb_ℤ : ℤ → ℤ → Bool
ltb_ℤ a b = ltb (pos_part a + neg_part b) (pos_part b + neg_part a)

-- The conversion of a `loff_t` to `unsigned long`: its two's complement bit pattern.
unfoldable pub to_u64 : ℤ → ℕ
to_u64 (pos n) = n % 2 ^ 64
to_u64 (negsuc n) = 2 ^ 64 - 1 - n % 2 ^ 64

-- The `loff_t` that a 64-bit pattern stands for.
unfoldable pub to_s64 : ℕ → ℤ
to_s64 w = if ltb w (2 ^ 63) then pos w else negsuc (2 ^ 64 - 1 - w)

-- `loff_t` addition, which wraps.
unfoldable pub add_s64 : ℤ → ℤ → ℤ
unfolding to_u64 to_s64
add_s64 a b = to_s64 ((to_u64 a + to_u64 b) % 2 ^ 64)

pub to_u64-pos : (n : ℕ) → n < 2 ^ 64 → to_u64 (pos n) ≡ n
unfolding to_u64
to_u64-pos n h = omega arith

pub add_s64-pos : (m n : ℕ) → m + n < 2 ^ 63 → add_s64 (pos m) (pos n) ≡ pos (m + n)
unfolding add_s64
add_s64-pos m n h = ground arith

-- The numbers that a `loff_t` holds.
abbrev pub IsLoff : ℤ → Type 0
IsLoff (pos n) = n < 2 ^ 63
IsLoff (negsuc n) = n < 2 ^ 63

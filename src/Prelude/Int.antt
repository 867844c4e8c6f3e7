-- ===== src/Prelude/Int.antt =====
-- Signed integers over the native numbers, for the fields that the source lets go negative.
use Prim.Native.Nat.{ℕ, ◌+◌, ◌-◌}
use mathlib.Core.Bool.{Bool, true, false}
use distributed_image_proces.Prelude.Tests.{ltb, if◌then◌else◌}

-- `negsuc n` is -(n + 1).
pub data ℤ : Type 0 where
  pos : ℕ → ℤ
  negsuc : ℕ → ℤ

abbrev pub pos_part : ℤ → ℕ
pos_part (pos n) = n
pos_part (negsuc n) = 0

-- a < b
abbrev pub ltb_ℤ : ℤ → ℤ → Bool
ltb_ℤ (pos a) (pos b) = ltb a b
ltb_ℤ (pos a) (negsuc b) = false
ltb_ℤ (negsuc a) (pos b) = true
ltb_ℤ (negsuc a) (negsuc b) = ltb b a

abbrev pub is_neg : ℤ → Bool
is_neg (pos n) = false
is_neg (negsuc n) = true

-- The bound of an int64: its values lie below 2 ^ 63.
abbrev pub int64_max : ℕ
int64_max = 9223372036854775808

-- The int64 sum of two values that are not negative: past the bound it wraps to a negative number.
abbrev pub add_int64 : ℕ → ℕ → ℤ
add_int64 a b =
    if ltb (a + b) int64_max then pos (a + b) else negsuc (18446744073709551616 - (a + b) - 1)

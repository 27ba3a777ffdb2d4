-- ===== src/Prelude/Words.antt =====
-- Machine words. A uint32 is a number below 2 ^ 32, and an int32 is its bit pattern.
use Prim.Native.Nat.{ℕ, ◌+◌, ◌-◌, ◌%◌, ◌^◌}
use mathlib.Core.Bool.{Bool}
use landlord.Prelude.Tests.{ltb, leb, if◌then◌else◌}

abbrev pub u32_mod : ℕ
u32_mod = 2 ^ 32

abbrev pub add32 : ℕ → ℕ → ℕ
add32 a b = (a + b) % u32_mod

abbrev pub sub32 : ℕ → ℕ → ℕ
sub32 a b = (a + u32_mod - b) % u32_mod

-- The pattern of -1.
abbrev pub minus_one : ℕ
minus_one = 0xffff_ffff

-- `w < 0` for an int32.
abbrev pub is_negative : ℕ → Bool
is_negative w = leb (2 ^ 31) w

-- `0 < w` for an int32.
abbrev pub is_positive : ℕ → Bool
is_positive w = if ltb 0 w then ltb w (2 ^ 31) else Bool.false

-- The order of int32 is the order of the patterns moved by half the range.
abbrev pub signed_key : ℕ → ℕ
signed_key w = (w + 2 ^ 31) % u32_mod

-- `std::max` of two int32; of equal ones it returns the first.
abbrev pub max32 : ℕ → ℕ → ℕ
max32 a b = if ltb (signed_key a) (signed_key b) then b else a

-- ===== src/Common/Words.antt =====
-- Machine words as native numbers. An int64 is its two's complement pattern, below 2 ^ 64.
use Prim.Native.Nat.{ℕ, ◌+◌, ◌-◌, ◌%◌, ◌^◌, ◌<◌}
use mathlib.Core.Bool.{Bool}
use arkive.Common.Tests.{ltb, leb}

abbrev pub u16_mod : ℕ
u16_mod = 2 ^ 16

abbrev pub u32_mod : ℕ
u32_mod = 2 ^ 32

abbrev pub u64_mod : ℕ
u64_mod = 2 ^ 64

abbrev pub sign_bit : ℕ
sign_bit = 2 ^ 63

abbrev pub IsWord : ℕ → Type 0
IsWord v = v < u64_mod

-- `int64(v) < 0`
abbrev pub is_neg : ℕ → Bool
is_neg v = leb sign_bit v

-- `a + b`, `a - b` and `-a` on int64 and on uint64.
abbrev pub add64 : ℕ → ℕ → ℕ
add64 a b = (a + b) % u64_mod

abbrev pub sub64 : ℕ → ℕ → ℕ
sub64 a b = (a + (u64_mod - b)) % u64_mod

-- `a < b` on int64.
abbrev pub slt : ℕ → ℕ → Bool
slt a b = ltb ((a + sign_bit) % u64_mod) ((b + sign_bit) % u64_mod)

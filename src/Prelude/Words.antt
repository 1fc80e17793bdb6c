-- ===== src/Prelude/Words.antt =====
-- Unsigned machine words as native numbers, with their wrap-around written out.
use Prim.Native.Nat.{ℕ, ◌+◌, ◌-◌, ◌/◌, ◌%◌, ◌^◌}
use mathlib.Core.Bool.{Bool, ◌&&◌}
use go_libutp.Prelude.Tests.{ltb, leb, if◌then◌else◌}

-- a + b and a - b on a w-bit unsigned integer, for operands that are in range.
abbrev pub add16 : ℕ → ℕ → ℕ
add16 a b = (a + b) % 2 ^ 16

abbrev pub sub16 : ℕ → ℕ → ℕ
sub16 a b = (a + 2 ^ 16 - b) % 2 ^ 16

abbrev pub add32 : ℕ → ℕ → ℕ
add32 a b = (a + b) % 2 ^ 32

abbrev pub sub32 : ℕ → ℕ → ℕ
sub32 a b = (a + 2 ^ 32 - b) % 2 ^ 32

abbrev pub add64 : ℕ → ℕ → ℕ
add64 a b = (a + b) % 2 ^ 64

abbrev pub sub64 : ℕ → ℕ → ℕ
sub64 a b = (a + 2 ^ 64 - b) % 2 ^ 64

-- The magnitude of a 32-bit word read as a signed integer.
abbrev pub abs32 : ℕ → ℕ
abs32 w = if ltb w (2 ^ 31) then w else 2 ^ 32 - w

-- A 32-bit word read as a signed integer, divided by 4 towards zero, as a word again.
abbrev pub quarter32 : ℕ → ℕ
quarter32 w = if ltb w (2 ^ 31) then w / 4 else (2 ^ 32 - (2 ^ 32 - w) / 4) % 2 ^ 32

-- `(int)(a - b) >= 0` and `(int)(a - b) >= c` for 64-bit times and a positive `c`: the difference is
-- truncated to 32 bits and read as a signed integer.
abbrev pub reached : ℕ → ℕ → Bool
reached a b = ltb ((a + 2 ^ 64 - b) % 2 ^ 32) (2 ^ 31)

abbrev pub reached_by : ℕ → ℕ → ℕ → Bool
reached_by a b c = let d = (a + 2 ^ 64 - b) % 2 ^ 32 in ltb d (2 ^ 31) && leb c d

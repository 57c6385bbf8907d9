-- ===== src/Prelude/Bits.antt =====
-- Single bits of a machine word, by division: the test, `|` and `& ~` with a one-bit mask of the C
-- code, at a bit's number.
use Prim.Native.Nat.{ℕ, ◌+◌, ◌-◌, ◌/◌, ◌%◌, ◌^◌}
use mathlib.Core.Bool.{Bool}
use os182_ass.Prelude.Tests.{◌==◌, if◌then◌else◌}

-- `w & (1 << k)`
abbrev pub has_bit : ℕ → ℕ → Bool
has_bit k w = w / 2 ^ k % 2 == 1

-- `w | (1 << k)`
abbrev pub bit_on : ℕ → ℕ → ℕ
bit_on k w = if has_bit k w then w else w + 2 ^ k

-- `w & ~(1 << k)`
abbrev pub bit_off : ℕ → ℕ → ℕ
bit_off k w = if has_bit k w then w - 2 ^ k else w

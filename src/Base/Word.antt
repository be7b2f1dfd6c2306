-- ===== src/Base/Word.antt =====
-- Go's `int` and `int64` (64 bits on every Mac): a value is its two's complement pattern, a number
-- below 2 ^ 64, so that -1 is 2 ^ 64 - 1 and each operation wraps as the machine does.
use Prim.Native.Nat.{ℕ, ◌+◌, ◌-◌, ◌%◌, ◌^◌}
use mathlib.Core.Bool.{Bool}
use mac_agent.Base.Tests.{ltb, leb}

abbrev pub Int64 : Type 0
Int64 = ℕ

abbrev pub add64 : Int64 → Int64 → Int64
add64 a b = (a + b) % 2 ^ 64

abbrev pub sub64 : Int64 → Int64 → Int64
sub64 a b = (a + 2 ^ 64 - b) % 2 ^ 64

-- The order of the signed values: the pattern moved by 2 ^ 63 orders as the values do.
abbrev pub lt64 : Int64 → Int64 → Bool
lt64 a b = ltb ((a + 2 ^ 63) % 2 ^ 64) ((b + 2 ^ 63) % 2 ^ 64)

abbrev pub le64 : Int64 → Int64 → Bool
le64 a b = leb ((a + 2 ^ 63) % 2 ^ 64) ((b + 2 ^ 63) % 2 ^ 64)

abbrev pub minus_one : Int64
minus_one = 2 ^ 64 - 1

-- ===== src/Base/Words.antt =====
-- Machine words as bit patterns: a `uintN_t` is a number below 2 ^ N, and an `intN_t` is the
-- pattern of its two's complement.
use chimera_common_minibox.Base.Tests.{ltb, leb, if◌then◌else◌}
use Prim.Native.Nat.{ℕ, ◌+◌, ◌-◌, ◌%◌, ◌^◌}
use mathlib.Core.Bool.{Bool, not, ◌&&◌}

abbrev pub two32 : ℕ
two32 = 2 ^ 32

abbrev pub two64 : ℕ
two64 = 2 ^ 64

-- `uint64_t` addition and subtraction.
abbrev pub add64 : ℕ → ℕ → ℕ
add64 a b = (a + b) % 2 ^ 64

abbrev pub sub64 : ℕ → ℕ → ℕ
sub64 a b = (a + 2 ^ 64 - b) % 2 ^ 64

-- `x < 0` of an `int64_t`.
abbrev pub neg64 : ℕ → Bool
neg64 x = leb (2 ^ 63) x

-- `a < b` of two `int64_t`, and `a <= b` of two `int32_t`: the order of the patterns with their
-- sign bits turned over.
abbrev pub slt64 : ℕ → ℕ → Bool
slt64 a b = ltb ((a + 2 ^ 63) % 2 ^ 64) ((b + 2 ^ 63) % 2 ^ 64)

abbrev pub sle32 : ℕ → ℕ → Bool
sle32 a b = leb ((a + 2 ^ 31) % 2 ^ 32) ((b + 2 ^ 31) % 2 ^ 32)

-- Whether the sum of two `int64_t` is none: both have one sign, and the sum's pattern has the other.
abbrev pub overflows64 : ℕ → ℕ → Bool
overflows64 a b =
    if leb (2 ^ 63) a
    then leb (2 ^ 63) b && not (leb (2 ^ 63) (add64 a b))
    else not (leb (2 ^ 63) b) && leb (2 ^ 63) (add64 a b)

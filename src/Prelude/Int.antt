-- ===== src/Prelude/Int.antt =====
-- Signed integers over the native numbers, and 64-bit ones as bit patterns.
use Prim.Native.Nat.{ℕ, suc, ◌+◌, ◌-◌, ◌%◌, ◌^◌}
use mathlib.Core.Bool.{Bool, ◌&&◌}
use hudsucker.Prelude.Tests.{ltb, leb, if◌then◌else◌}

-- `negsuc n` is -(n + 1).
pub data ℤ : Type 0 where
  pos : ℕ → ℤ
  negsuc : ℕ → ℤ

abbrev pub pos_part : ℤ → ℕ
pos_part (pos n) = n
pos_part (negsuc n) = 0

abbrev pub neg_part : ℤ → ℕ
neg_part (pos n) = 0
neg_part (negsuc n) = suc n

-- a - b, as an integer.
abbrev pub sub_ℕ : ℕ → ℕ → ℤ
sub_ℕ a b = if leb b a then pos (a - b) else negsuc (b - a - 1)

-- An `i64` is its bit pattern, below 2 ^ 64; this is the integer that the pattern stands for.
abbrev pub signed64 : ℕ → ℤ
signed64 w = if ltb w (2 ^ 63) then pos w else negsuc (2 ^ 64 - w - 1)

-- `a + b` and `a - b` of `i64`, which wrap round.
abbrev pub add_i64 : ℕ → ℕ → ℕ
add_i64 a b = (a + b) % 2 ^ 64

abbrev pub sub_i64 : ℕ → ℕ → ℕ
sub_i64 a b = (a + 2 ^ 64 - b) % 2 ^ 64

-- The true sum or difference is out of the range of `i64`, for a `b` that is not negative.
abbrev pub add_overflows : ℕ → ℕ → Bool
add_overflows a b = ltb a (2 ^ 63) && leb (2 ^ 63) (a + b)

abbrev pub sub_overflows : ℕ → ℕ → Bool
sub_overflows a b = leb (2 ^ 63) a && ltb a (2 ^ 63 + b)

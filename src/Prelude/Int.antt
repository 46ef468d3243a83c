-- ===== src/Prelude/Int.antt =====
-- The C `int` of the source, as an integer: what the code does with one is a comparison, or the
-- low bits of its two's complement.
use Prim.Native.Nat.{ℕ, ◌-◌, ◌%◌, ◌^◌}
use mathlib.Core.Bool.{Bool, true, false}
use jornada_gpib.Prelude.Tests.{ltb, leb, if◌then◌else◌}

-- `negsuc n` is -(n + 1).
pub data ℤ : Type 0 where
  pos : ℕ → ℤ
  negsuc : ℕ → ℤ

-- x > k, at a natural k
abbrev pub gtz : ℤ → ℕ → Bool
gtz (pos n) k = ltb k n
gtz (negsuc n) k = false

-- x < 0
abbrev pub is_neg : ℤ → Bool
is_neg (pos n) = false
is_neg (negsuc n) = true

-- x >= -1
abbrev pub ge_minus_one : ℤ → Bool
ge_minus_one (pos n) = true
ge_minus_one (negsuc n) = leb n 0

-- The 32-bit pattern, as a conversion to `unsigned` gives it.
abbrev pub bits32 : ℤ → ℕ
bits32 (pos n) = n % 2 ^ 32
bits32 (negsuc n) = 2 ^ 32 - 1 - n % 2 ^ 32

-- a - b, as an integer
abbrev pub sub_ℕ : ℕ → ℕ → ℤ
sub_ℕ a b = if leb b a then pos (a - b) else negsuc (b - a - 1)

-- The `int` that a 32-bit pattern stands for.
abbrev pub int_of : ℕ → ℤ
int_of w = if ltb w (2 ^ 31) then pos w else negsuc (2 ^ 32 - 1 - w)

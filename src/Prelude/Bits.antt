-- ===== src/Prelude/Bits.antt =====
-- Bit operations on the registers' bytes.
use Prim.Native.Nat.{ℕ, ◌-◌, ◌%◌, bit_and}
use mathlib.Core.Bool.{Bool, not}
use jornada_gpib.Prelude.Tests.{◌==◌}

-- (uint8_t) x
abbrev pub u8 : ℕ → ℕ
u8 x = x % 256

-- `x & mask`, as a condition
abbrev pub has : ℕ → ℕ → Bool
has x mask = not (bit_and x mask == 0)

-- `x & (uint8_t)~mask` of a byte
abbrev pub clear : ℕ → ℕ → ℕ
clear x mask = bit_and x (255 - mask)

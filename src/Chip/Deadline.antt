-- ===== src/Chip/Deadline.antt =====
-- Progress deadlines, and the transfer counter as the chip counts it: up, from -n to 0.
pub mod Elapsed
use jornada_gpib.Prelude.{
  ℕ, ◌+◌, ◌-◌, ◌*◌, ◌/◌, ◌%◌, ◌^◌, bit_or, Bool, false, not, ◌==◌, ltb, if◌then◌else◌,
}
use jornada_gpib.Chip.Io.{Io, M, ◌>>=◌, ◌>>◌, pure, chip, rd, wr, now_ms}
use jornada_gpib.Chip.Reg

pub record Deadline : Type 0 where
  pub at : ℕ
  pub enabled : Bool

-- (int32_t)(now - at) >= 0
abbrev pub reached : ℕ → ℕ → Bool
reached now at = ltb ((now + 2 ^ 32 - at) % 2 ^ 32) (2 ^ 31)

-- (uint32_t)(-(int32_t)n)
abbrev pub negate32 : ℕ → ℕ
negate32 n = (2 ^ 32 - n) % 2 ^ 32

module _ ⦃io : Io⦄ where
  unfoldable pub deadline_start : M Deadline
  unfolding chip now_ms pure
  deadline_start = do
    c ← chip
    t ← now_ms
    pure (record { at = (t + c.timeout_ms) % 2 ^ 32; enabled = not (c.timeout_ms == 0) })

  unfoldable pub deadline_expired : Deadline → M Bool
  unfolding now_ms pure
  deadline_expired d = if d.enabled then (do t ← now_ms; pure (reached t d.at)) else pure false

  unfoldable pub remaining_count : M ℕ
  unfolding rd pure
  remaining_count = do
    a ← rd Reg.cnt0
    b ← rd Reg.cnt1
    c ← rd Reg.cnt2
    d ← rd Reg.cnt3
    pure (negate32 (bit_or (bit_or (bit_or a (b * 2 ^ 8)) (c * 2 ^ 16)) (d * 2 ^ 24)))

unfoldable pub set_count : ℕ → M (Unit {0})
unfolding wr
set_count n =
    let v = negate32 n in
    do wr Reg.cnt0 v; wr Reg.cnt1 (v / 2 ^ 8); wr Reg.cnt2 (v / 2 ^ 16); wr Reg.cnt3 (v / 2 ^ 24)

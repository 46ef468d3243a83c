-- ===== src/Controller/Bytes.antt =====
-- The multiline command bytes, and the byte sequences that the controller sends with ATN.
use jornada_gpib.Prelude.{
  ℕ, bit_and, bit_or, Bool, not, ◌&&◌, if◌then◌else◌, List, [], ◌∷◌, ◌++◌, ℤ, pos, negsuc, gtz,
  is_neg, ge_minus_one, bits32, u8,
}
use jornada_gpib.Chip.Io.{Chip}

abbrev pub gpib_gtl : ℕ
gpib_gtl = 0x01

abbrev pub gpib_sdc : ℕ
gpib_sdc = 0x04

abbrev pub gpib_get : ℕ
gpib_get = 0x08

abbrev pub gpib_tct : ℕ
gpib_tct = 0x09

abbrev pub gpib_llo : ℕ
gpib_llo = 0x11

abbrev pub gpib_dcl : ℕ
gpib_dcl = 0x14

abbrev pub gpib_spe : ℕ
gpib_spe = 0x18

abbrev pub gpib_spd : ℕ
gpib_spd = 0x19

abbrev pub gpib_unl : ℕ
gpib_unl = 0x3f

abbrev pub gpib_unt : ℕ
gpib_unt = 0x5f

abbrev pub gpib_max_cmd : ℕ
gpib_max_cmd = 8

unfoldable pub gpib_lad : ℤ → ℕ
gpib_lad pad = u8 (bit_or 0x20 (bit_and (bits32 pad) 0x1f))

unfoldable pub gpib_tad : ℤ → ℕ
gpib_tad pad = u8 (bit_or 0x40 (bit_and (bits32 pad) 0x1f))

unfoldable pub gpib_sad : ℤ → ℕ
gpib_sad sad = u8 (bit_or 0x60 (bit_and (bits32 sad) 0x1f))

-- pad >= 0 && pad <= 30 && sad >= -1 && sad <= 30
abbrev pub valid_address : ℤ → ℤ → Bool
valid_address pad sad = not (is_neg pad) && not (gtz pad 30) && ge_minus_one sad && not (gtz sad 30)

-- if (sad >= 0) out[n++] = GPIB_SAD(sad);
abbrev pub secondary : ℤ → List ℕ
secondary (pos n) = gpib_sad (pos n) ∷ []
secondary (negsuc n) = []

unfoldable pub build_address : Chip → ℤ → ℤ → Bool → List ℕ
build_address c pad sad device_talks =
    gpib_unl
    ∷ (if device_talks then gpib_tad pad else gpib_lad pad)
    ∷ (secondary sad
        ++ ((if device_talks then gpib_lad (pos c.pad) else gpib_tad (pos c.pad))
            ∷ secondary c.sad))

-- The bytes of `addressed_command`.
unfoldable pub build_addressed : ℤ → ℤ → ℕ → List ℕ
build_addressed pad sad command = gpib_unl ∷ gpib_lad pad ∷ (secondary sad ++ (command ∷ []))

-- The bytes before the status byte of `gpib_serial_poll`, and those after it.
unfoldable pub build_poll : Chip → ℤ → ℤ → List ℕ
build_poll c pad sad = gpib_unl ∷ gpib_lad (pos c.pad) ∷ gpib_spe ∷ gpib_tad pad ∷ secondary sad

abbrev pub poll_tail : List ℕ
poll_tail = gpib_spd ∷ gpib_unt ∷ []

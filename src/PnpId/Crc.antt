-- ===== src/PnpId/Crc.antt =====
-- The card CRC.
use jornada_gpib.Prelude.{
  ℕ, zero, suc, ◌*◌, ◌/◌, ◌%◌, ◌^◌, bit_and, bit_xor, List, [], ◌∷◌, has, ◌==◌, if◌then◌else◌,
}

abbrev pub crc_poly_reflected : ℕ
crc_poly_reflected = 0xa001

abbrev pub crc_high_nibble_typo_index : ℕ
crc_high_nibble_typo_index = 15

abbrev pub crc_high_nibble_typo_value : ℕ
crc_high_nibble_typo_value = 0x4600

-- (uint16_t)n
abbrev pub u16 : ℕ → ℕ
u16 n = n % 2 ^ 16

-- (c & 1) ? (c >> 1) ^ CRC_POLY_REFLECTED : c >> 1
abbrev pub crc_shift : ℕ → ℕ
crc_shift c = if has c 1 then u16 (bit_xor (c / 2) crc_poly_reflected) else u16 (c / 2)

-- The loop of `crc_table_entry`, `bits` rounds of it.
abbrev pub crc_shifts : ℕ → ℕ → ℕ
crc_shifts zero c = c
crc_shifts (suc bits) c = crc_shifts bits (crc_shift c)

unfoldable pub crc_table_entry : ℕ → ℕ
crc_table_entry index = crc_shifts 8 (u16 index)

-- `high` of `pnpid_crc16`.
unfoldable pub high_entry : ℕ → ℕ
unfolding crc_table_entry
high_entry hi =
    if hi == crc_high_nibble_typo_index
    then crc_high_nibble_typo_value
    else crc_table_entry (hi * 16)

-- The body of the loop of `pnpid_crc16`.
unfoldable pub crc_byte : ℕ → ℕ → ℕ
unfolding crc_table_entry high_entry
crc_byte crc b =
    let tmp = bit_xor b (bit_and crc 0xff) in
    u16
      (bit_xor (bit_xor (crc / 2 ^ 8) (crc_table_entry (bit_and tmp 0x0f))) (high_entry (tmp / 16)))

unfoldable pub crc16 : ℕ → List ℕ → ℕ
unfolding crc_byte
crc16 crc [] = crc
crc16 crc (b ∷ bs) = crc16 (crc_byte crc b) bs

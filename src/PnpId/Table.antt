-- ===== src/PnpId/Table.antt =====
-- The two nibble tables against the table of the CRC-16.
use jornada_gpib.Prelude.{
  ℕ, ◌/◌, ◌<◌, bit_and, bit_xor, ◌≡◌, refl, true, arith, ◌==◌, if◌then◌else◌, holds_below,
  holds_below-at,
}
use jornada_gpib.PnpId.Crc.{high_entry, crc_table_entry}

-- Where the high nibble is not 15, the entries of the two nibbles make up the entry of the byte in
-- the table of the CRC-16; where it is 15, the result is off by 0x0200.
pub nibbles-table :
    (tmp : ℕ)
    → tmp < 256
    → bit_xor (crc_table_entry (bit_and tmp 0x0f)) (high_entry (tmp / 16))
      ≡ (if tmp / 16 == 15 then bit_xor (crc_table_entry tmp) 0x0200 else crc_table_entry tmp)
nibbles-table tmp h = ground (arith, value)
  where
    value :
        (bit_xor (crc_table_entry (bit_and tmp 0x0f)) (high_entry (tmp / 16))
          == (if tmp / 16 == 15 then bit_xor (crc_table_entry tmp) 0x0200 else crc_table_entry tmp))
        ≡ true
    value =
        unfold crc_table_entry high_entry holds_below in
        holds_below-at
          (λ k.
            bit_xor (crc_table_entry (bit_and k 0x0f)) (high_entry (k / 16))
            == (if k / 16 == 15 then bit_xor (crc_table_entry k) 0x0200 else crc_table_entry k))
          tmp h refl

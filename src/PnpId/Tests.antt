-- ===== src/PnpId/Tests.antt =====
-- The identifier of a small card, and the theorems at it.
use jornada_gpib.Prelude.{
  drop, ◌/◌, bit_and, bit_xor, ℕ, List, [], ◌∷◌, ◌≡◌, refl, some, true, arith, ◌<◌, length,
}
use jornada_gpib.PnpId.Build.{Builder, begin, add_tuple, add_tuples, finish}
use jornada_gpib.PnpId.Text.{all_printable}
use jornada_gpib.PnpId.Identifier.{finish-printable, add_tuples-names, finish-exact}
use jornada_gpib.PnpId.Crc.{crc16, high_entry, crc_table_entry}
use jornada_gpib.PnpId.Table.{nibbles-table}

-- MANFID, then VERS_1 with the strings "N I" and "G,P", then VERS_1 again.
abbrev tuples : List (ℕ × List ℕ)
tuples =
    (0x20, 0x0b ∷ 0x01 ∷ [])
    ∷ (0x15, 4 ∷ 1 ∷ 78 ∷ 32 ∷ 73 ∷ 0 ∷ 71 ∷ 44 ∷ 80 ∷ 0 ∷ 255 ∷ [])
    ∷ (0x15, 4 ∷ 1 ∷ 65 ∷ 0 ∷ 66 ∷ 0 ∷ [])
    ∷ []

-- The same from the first VERS_1 on.
abbrev vers1_tuples : List (ℕ × List ℕ)
vers1_tuples = drop 1 tuples

abbrev named : Builder
named = record {
  crc = 0x4ed5;
  manufacturer = 78 ∷ 73 ∷ [];
  product = 71 ∷ 80 ∷ [];
  have_vers1 = true;
}

tuples_named : (add_tuples begin tuples).manufacturer ≡ 78 ∷ 95 ∷ 73 ∷ []
unfolding add_tuples
tuples_named = refl

finish-printable_example :
    (out : List ℕ) × (finish (add_tuples begin tuples) 128 ≡ some out)
    × (length out < 128)
    × (all_printable out ≡ true)
finish-printable_example = finish-printable tuples 128 (omega arith)

finish-exact_example : finish named 12 ≡ some (78 ∷ 73 ∷ 45 ∷ 71 ∷ 80 ∷ 45 ∷ 52 ∷ 69 ∷ 68 ∷ 53 ∷ [])
finish-exact_example = finish-exact named 12 refl refl (omega arith)

add_tuples-names_example :
    ((add_tuples begin vers1_tuples).manufacturer ≡ 78 ∷ 95 ∷ 73 ∷ [])
    × ((add_tuples begin vers1_tuples).product ≡ 71 ∷ 95 ∷ 80 ∷ [])
unfolding add_tuple
add_tuples-names_example =
    add_tuples-names begin (4 ∷ 1 ∷ 78 ∷ 32 ∷ 73 ∷ 0 ∷ 71 ∷ 44 ∷ 80 ∷ 0 ∷ 255 ∷ []) (drop 2 tuples)
      (omega arith)

nibbles-table_example :
    bit_xor (crc_table_entry (bit_and 0x21 0x0f)) (high_entry (0x21 / 16)) ≡ crc_table_entry 0x21
nibbles-table_example = nibbles-table 0x21 (omega arith)

-- The check values of the host tests.
crc_digits : crc16 0 (49 ∷ 50 ∷ 51 ∷ 52 ∷ 53 ∷ 54 ∷ 55 ∷ 56 ∷ 57 ∷ []) ≡ 0x593c
unfolding crc16
crc_digits = refl

crc_one : crc16 0 (1 ∷ []) ≡ 0xc0c1
unfolding crc16
crc_one = refl

-- ===== src/Cis/Tests.antt =====
-- A small card information structure, and the theorems at it.
use jornada_gpib.Prelude.{List, ◌≡◌, refl, [], ◌∷◌, some, arith}
use jornada_gpib.Cis.Walk.{Found, cis_capture_socket, cis_max_tuples, walk}
use jornada_gpib.Cis.Raw.{walked, kept, read_raw, no_tuples, one_more}
use jornada_gpib.Cis.Captured.{IsCaptured, cis_capture_socket-IsCaptured, read_raw-captured}

-- MANFID, an end, and what comes after it.
abbrev some_card : List Found
some_card =
    record { code = 0x20; bytes = some (0x0b ∷ 0x01 ∷ 0x02 ∷ 0x00 ∷ []) }
    ∷ record { code = 0xff; bytes = some [] }
    ∷ record { code = 0x21; bytes = some (6 ∷ []) }
    ∷ []

captured_bytes :
    (cis_capture_socket some_card).0.raw ≡ 0x20 ∷ 4 ∷ 0x0b ∷ 0x01 ∷ 0x02 ∷ 0x00 ∷ 0xff ∷ 0 ∷ []
unfolding cis_capture_socket walk
captured_bytes = refl

captured_manufacturer : (cis_capture_socket some_card).0.manufacturer_id ≡ 0x10b
unfolding cis_capture_socket walk
captured_manufacturer = refl

cis_capture_socket-IsCaptured_example :
    IsCaptured (walked cis_max_tuples some_card) (cis_capture_socket some_card)
cis_capture_socket-IsCaptured_example = cis_capture_socket-IsCaptured some_card

read_raw-captured_example :
    read_raw cis_max_tuples (cis_capture_socket some_card).0.raw
    ≡ some (kept 0 (walked cis_max_tuples some_card))
read_raw-captured_example =
    read_raw-captured some_card (one_more (omega arith) (one_more (omega arith) no_tuples))

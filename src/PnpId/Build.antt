-- ===== src/PnpId/Build.antt =====
-- The builder of the identifier, and the identifier.
use jornada_gpib.Prelude.{
  ℕ, suc, ◌+◌, ◌/◌, ◌%◌, ◌^◌, Bool, true, false, not, ◌||◌, Option, none, some, List, [], ◌∷◌, ◌++◌,
  length, take, drop, get_or, ltb, leb, ◌==◌, if◌then◌else◌,
}
use jornada_gpib.PnpId.Crc.{crc16}

abbrev pub pnpid_max : ℕ
pnpid_max = 128

abbrev pub pnpid_manf_max : ℕ
pnpid_manf_max = 115

abbrev pub pnpid_prod_max : ℕ
pnpid_prod_max = 64

pub record Builder : Type 0 where
  pub crc : ℕ
  pub manufacturer : List ℕ
  pub product : List ℕ
  pub have_vers1 : Bool

abbrev pub begin : Builder
begin = record { crc = 0; manufacturer = []; product = []; have_vers1 = false }

-- What the loop of `copy_filtered` makes of a character: '_' for a space or a comma, nothing for
-- what is outside 0x21 .. 0x7E.
abbrev pub filtered : ℕ → List ℕ
filtered c =
    if c == 0x20 || c == 0x2c then 0x5f ∷ [] else if leb c 0x20 || leb 0x7f c then [] else c ∷ []

-- if (n + 1 < cap) dst[n++] = c;
abbrev pub with_room : (cap n : ℕ) → List ℕ → List ℕ
with_room cap n cs = if ltb (n + 1) cap then cs else []

-- With `n` characters in `dst`: those that are added, and `*consumed`.
unfoldable pub copy_filtered : (cap n : ℕ) → List ℕ → List ℕ × ℕ
copy_filtered cap n [] = ([], 0)
copy_filtered cap n (c ∷ cs) =
    let added = with_room cap n (filtered c) in
    let rest = copy_filtered cap (n + length added) cs in
    if c == 0 then ([], 1) else (added ++ rest.0, suc rest.1)

-- used <= len ? used : len
abbrev pub at_most : (used len : ℕ) → ℕ
at_most used len = if leb used len then used else len

unfoldable pub add_vers1 : Builder → List ℕ → Builder
unfolding copy_filtered crc16
add_vers1 b tuple =
    let len = length tuple in
    let (manufacturer, consumed) = copy_filtered (pnpid_manf_max + 1) 0 (drop 2 tuple) in
    let used = 2 + consumed in
    let (product, consumed') = copy_filtered (pnpid_prod_max + 1) 0 (drop used tuple) in
    let more = ltb used len in
    let used' = if more then used + consumed' else used in
    if leb len 4 then b else record {
      crc = crc16 b.crc (take (at_most used' len) tuple);
      manufacturer = manufacturer;
      product = if more then product else b.product;
      have_vers1 = true;
    }

abbrev pub cistpl_device_code : ℕ
cistpl_device_code = 0x01

abbrev pub cistpl_vers_1_code : ℕ
cistpl_vers_1_code = 0x15

abbrev pub cistpl_config_code : ℕ
cistpl_config_code = 0x1a

abbrev pub cistpl_cftable_entry_code : ℕ
cistpl_cftable_entry_code = 0x1b

abbrev pub cistpl_manfid_code : ℕ
cistpl_manfid_code = 0x20

-- The codes of the tuples that only go into the CRC.
abbrev pub only_crc : ℕ → Bool
only_crc code =
    (code == cistpl_device_code)
    || (code == cistpl_config_code)
    || (code == cistpl_cftable_entry_code)
    || (code == cistpl_manfid_code)

unfoldable pub add_tuple : Builder → ℕ → List ℕ → Builder
unfolding add_vers1 crc16
add_tuple b code tuple =
    if code == cistpl_vers_1_code
    then if not b.have_vers1 then add_vers1 b tuple else record b { crc = crc16 b.crc tuple }
    else if only_crc code
    then record b { crc = crc16 b.crc tuple }
    else b

-- The tuples of a card, in the order of the CIS.
unfoldable pub add_tuples : Builder → List (ℕ × List ℕ) → Builder
unfolding add_tuple
add_tuples b [] = b
add_tuples b ((code, tuple) ∷ ts) = add_tuples (add_tuple b code tuple) ts

-- The `n` characters already in `out` are a list.
unfoldable pub append : ℕ → List ℕ → List ℕ → List ℕ
append cap out [] = out
append cap out (c ∷ cs) =
    let more = append cap (out ++ c ∷ []) cs in if ltb (length out + 1) cap then more else out

abbrev pub hex : List ℕ
hex = 48 ∷ 49 ∷ 50 ∷ 51 ∷ 52 ∷ 53 ∷ 54 ∷ 55 ∷ 56 ∷ 57 ∷ 65 ∷ 66 ∷ 67 ∷ 68 ∷ 69 ∷ 70 ∷ []

-- hex[n & 15]
abbrev pub hex_digit : ℕ → ℕ
hex_digit n = get_or hex (n % 16) 0

abbrev pub crc_text : ℕ → List ℕ
crc_text crc =
    hex_digit (crc / 2 ^ 12)
    ∷ hex_digit (crc / 2 ^ 8)
    ∷ hex_digit (crc / 2 ^ 4)
    ∷ hex_digit crc
    ∷ []

abbrev pub unknown_manufacturer : List ℕ
unknown_manufacturer =
    85 ∷ 78 ∷ 75 ∷ 78 ∷ 79 ∷ 87 ∷ 78 ∷ 95 ∷ 77 ∷ 65 ∷ 78 ∷ 85 ∷ 70 ∷ 65 ∷ 67 ∷ 84 ∷ 85 ∷ 82 ∷ 69
    ∷ 82 ∷ []

abbrev pub dash : List ℕ
dash = 0x2d ∷ []

-- s[0] == 0
abbrev pub is_empty : List ℕ → Bool
is_empty [] = true
is_empty (c ∷ cs) = false

-- The strings of `pnpid_finish` before the last dash, put after `out`.
unfoldable pub append_names : Builder → ℕ → List ℕ → List ℕ
unfolding append
append_names b cap out =
    if is_empty b.manufacturer
    then append cap out unknown_manufacturer
    else let out' = append cap out b.manufacturer in
      if is_empty b.product then out' else append cap (append cap out' dash) b.product

-- The string in `out`, whose length is returned; none where 0 is returned and `out` is not
-- written.
unfoldable pub finish : Builder → ℕ → Option (List ℕ)
unfolding append append_names
finish b cap =
    if ltb cap 8
    then none
    else some (append cap (append cap (append_names b cap []) dash) (crc_text b.crc))

-- ===== src/PnpId/Identifier.antt =====
-- The identifier that `pnpid_finish` renders.
use jornada_gpib.Prelude.{
  ℕ, ◌+◌, ◌≤◌, ◌<◌, ◌≡◌, refl, sym, ◌∙◌, true, false, some, List, [], ◌∷◌, ◌++◌, append_assoc,
  append-nil, arith, length, length-append, get_or, ◌%◌, ltb, Bool-cases, inl, inr, holds_below,
  holds_below-at, ◌/◌, ◌^◌,
}
use jornada_gpib.PnpId.Build.{
  Builder, begin, cistpl_vers_1_code, add_vers1, add_tuple, add_tuples, append, crc_text, dash,
  unknown_manufacturer, append_names, finish, is_empty, hex, hex_digit,
}
use jornada_gpib.PnpId.Text.{
  is_printable, all_printable, all_printable-append, IsFit, begin-IsFit, add_tuples-IsFit,
}

-- What can be in the output buffer, NUL excluded.
record IsGood (cap : ℕ) (out : List ℕ) : Type 0 where
  printable : all_printable out ≡ true
  short : length out < cap

append-IsGood :
    (cap : ℕ) (out s : List ℕ)
    → all_printable s ≡ true
    → IsGood cap out
    → IsGood cap (append cap out s)
unfolding append
append-IsGood cap out [] p g = g
append-IsGood cap out (c ∷ cs) p g = elim (Bool-cases (ltb (length out + 1) cap)) [
  | inl e ↦ rw e (
      append-IsGood cap (out ++ c ∷ []) cs (ground (arith, p)) (record {
        printable = all_printable-append out (c ∷ []) g.printable (ground (arith, p));
        short = ground (arith, length-append out (c ∷ []));
      }))
  | inr e ↦ rw e g
]

hex_digit-printable : (n : ℕ) → is_printable (hex_digit n) ≡ true
hex_digit-printable n =
    unfold holds_below in
    holds_below-at (λ k. is_printable (get_or hex k 0)) {bound = 16} (n % 16) (omega arith) refl

crc_text-printable : (crc : ℕ) → all_printable (crc_text crc) ≡ true
crc_text-printable crc =
    rw
      (
        hex_digit-printable (crc / 2 ^ 12),
        hex_digit-printable (crc / 2 ^ 8),
        hex_digit-printable (crc / 2 ^ 4),
        hex_digit-printable crc,
      )
      refl

append_names-IsGood :
    (b : Builder) (cap : ℕ) → IsFit b → IsGood cap [] → IsGood cap (append_names b cap [])
unfolding append_names
append_names-IsGood b cap h g = elim (Bool-cases (is_empty b.manufacturer)) [
  | inl e ↦ rw e (append-IsGood cap [] unknown_manufacturer refl g)
  | inr e ↦
      let first = append-IsGood cap [] b.manufacturer h.manufacturer g in
      elim (Bool-cases (is_empty b.product)) [
        | inl e' ↦ rw (e, e') first
        | inr e' ↦
            rw (e, e')
              (append-IsGood cap _ b.product h.product (append-IsGood cap _ dash refl first))
      ]
]

-- Whatever tuples a card holds, in a buffer of 8 bytes or more the identifier is written, with room
-- for its NUL, and all of its characters are of 0x21 .. 0x7E and none a comma.
pub finish-printable :
    (ts : List (ℕ × List ℕ)) (cap : ℕ)
    → 8 ≤ cap
    → (out : List ℕ) × (finish (add_tuples begin ts) cap ≡ some out)
      × (length out < cap)
      × (all_printable out ≡ true)
unfolding finish
finish-printable ts cap h =
    let b = add_tuples begin ts in
    let names =
      append_names-IsGood b cap (add_tuples-IsFit begin ts begin-IsFit)
        (record { printable = refl; short = omega arith }) in
    let good =
      append-IsGood cap _ (crc_text b.crc) (crc_text-printable b.crc)
        (append-IsGood cap _ dash refl names) in
    let room : ltb cap 8 ≡ false = ground arith in (_, rw room refl, good.short, good.printable)

append-fits : (cap : ℕ) (out s : List ℕ) → length out + length s < cap → append cap out s ≡ out ++ s
unfolding append
append-fits cap out [] h = sym (append-nil out)
append-fits cap out (c ∷ cs) h =
    let room : ltb (length out + 1) cap ≡ true = ground arith in
    rw room (
      append-fits cap (out ++ c ∷ []) cs (omega (arith, length-append out (c ∷ [])))
      ∙ append_assoc out (c ∷ []) cs)

length-positive : (s : List ℕ) → is_empty s ≡ false → 1 ≤ length s
length-positive [] h = cc
length-positive (c ∷ cs) h = omega arith

-- A builder with both strings, and a buffer with room for them, two dashes, four digits and the NUL:
-- nothing is cut off.
pub finish-exact :
    (b : Builder) (cap : ℕ)
    → is_empty b.manufacturer ≡ false
    → is_empty b.product ≡ false
    → length b.manufacturer + length b.product + 6 < cap
    → finish b cap ≡ some (b.manufacturer ++ dash ++ b.product ++ dash ++ crc_text b.crc)
unfolding finish append_names
finish-exact b cap m p h =
    let x = b.manufacturer in
    let y = b.product in
    let c = crc_text b.crc in
    let room : ltb cap 8 ≡ false = ground (arith, length-positive x m, length-positive y p) in
    let l = length-append (x ++ dash) y in
    let k = length-append x dash in
    let j = length-append ((x ++ dash) ++ y) dash in
    rw
      (
        room,
        m,
        p,
        append-fits cap [] x (omega arith),
        append-fits cap x dash (omega arith),
        append-fits cap (x ++ dash) y (omega (arith, k)),
        append-fits cap ((x ++ dash) ++ y) dash (omega (arith, k, l)),
        append-fits cap (((x ++ dash) ++ y) ++ dash) c (omega (arith, k, l, j)),
      )
      refl

-- Once a CISTPL_VERS_1 was used, the tuples change only the CRC.
add_tuples-kept :
    (b : Builder) (ts : List (ℕ × List ℕ))
    → b.have_vers1 ≡ true
    → ((add_tuples b ts).manufacturer ≡ b.manufacturer) × ((add_tuples b ts).product ≡ b.product)
unfolding add_tuples add_tuple
add_tuples-kept b [] h = (refl, refl)
add_tuples-kept b ((code, tuple) ∷ ts) h =
    let (kept, m, p) = step in
    let (m', p') = add_tuples-kept (add_tuple b code tuple) ts kept in (m' ∙ m, p' ∙ p)
  where
    step :
        ((add_tuple b code tuple).have_vers1 ≡ true)
        × ((add_tuple b code tuple).manufacturer ≡ b.manufacturer)
        × ((add_tuple b code tuple).product ≡ b.product)
    step = (ground arith, ground arith, ground arith)

add_vers1-have :
    (b : Builder) (tuple : List ℕ)
    → 4 < length tuple
    → (add_tuple b cistpl_vers_1_code tuple).have_vers1 ≡ true
unfolding add_tuple add_vers1
add_vers1-have b tuple h = ground arith

-- After a CISTPL_VERS_1 of more than 4 bytes the names are settled: whatever tuples come after it,
-- other CISTPL_VERS_1 too, the identifier has the names that it had right after that one.
pub add_tuples-names :
    (b : Builder) (tuple : List ℕ) (ts : List (ℕ × List ℕ))
    → 4 < length tuple
    → ((add_tuples b ((cistpl_vers_1_code, tuple) ∷ ts)).manufacturer
        ≡ (add_tuple b cistpl_vers_1_code tuple).manufacturer)
      × ((add_tuples b ((cistpl_vers_1_code, tuple) ∷ ts)).product
          ≡ (add_tuple b cistpl_vers_1_code tuple).product)
unfolding add_tuples
add_tuples-names b tuple ts h =
    add_tuples-kept (add_tuple b cistpl_vers_1_code tuple) ts (add_vers1-have b tuple h)

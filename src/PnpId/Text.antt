-- ===== src/PnpId/Text.antt =====
-- The characters and the length of the identifier, whatever the card's tuples hold.
use jornada_gpib.Prelude.{
  ℕ, ◌+◌, ◌≤◌, ◌<◌, ◌≡◌, refl, Bool, true, not, ◌&&◌, List, [], ◌∷◌, ◌++◌, arith, length,
  length-append, drop, ltb, leb, ◌==◌, Bool-cases, inl, inr,
}
use jornada_gpib.PnpId.Build.{
  Builder, begin, filtered, with_room, copy_filtered, add_vers1, add_tuple, add_tuples,
  pnpid_manf_max, pnpid_prod_max,
}

-- A character of 0x21 .. 0x7E but the comma.
abbrev pub is_printable : ℕ → Bool
is_printable c = leb 0x21 c && leb c 0x7e && not (c == 0x2c)

abbrev pub all_printable : List ℕ → Bool
all_printable [] = true
all_printable (c ∷ cs) = is_printable c && all_printable cs

pub all_printable-append :
    (xs ys : List ℕ)
    → all_printable xs ≡ true
    → all_printable ys ≡ true
    → all_printable (xs ++ ys) ≡ true
all_printable-append [] ys p q = q
all_printable-append (x ∷ xs) ys p q = ground (arith, all_printable-append xs ys)

all_printable-with_room : (cap n c : ℕ) → all_printable (with_room cap n (filtered c)) ≡ true
all_printable-with_room cap n c = ground arith

length-with_room : (cap n c : ℕ) → n < cap → n + length (with_room cap n (filtered c)) < cap
length-with_room cap n c h = ground arith

-- What `copy_filtered` adds is printable, and leaves room for the NUL.
copy_filtered-printable : (cap n : ℕ) (s : List ℕ) → all_printable (copy_filtered cap n s).0 ≡ true
unfolding copy_filtered
copy_filtered-printable cap n [] = refl
copy_filtered-printable cap n (c ∷ cs) =
    let added = with_room cap n (filtered c) in
    let rest = copy_filtered cap (n + length added) cs in
    elim (Bool-cases (c == 0)) [
      | inl e ↦ rw e refl
      | inr e ↦ rw e (
          all_printable-append added rest.0 (all_printable-with_room cap n c)
            (copy_filtered-printable cap (n + length added) cs))
    ]

length-copy_filtered :
    (cap n : ℕ) (s : List ℕ) → n < cap → n + length (copy_filtered cap n s).0 < cap
unfolding copy_filtered
length-copy_filtered cap n [] h = omega arith
length-copy_filtered cap n (c ∷ cs) h =
    let added = with_room cap n (filtered c) in
    let rest = copy_filtered cap (n + length added) cs in
    elim (Bool-cases (c == 0)) [
      | inl e ↦ rw e (omega arith)
      | inr e ↦ rw e (
          omega (
            arith,
            length-append added rest.0,
            length-copy_filtered cap (n + length added) cs (length-with_room cap n c h),
          ))
    ]

-- The strings of the builder are printable and fit in their arrays.
pub record IsFit (b : Builder) : Type 0 where
  pub manufacturer : all_printable b.manufacturer ≡ true
  pub product : all_printable b.product ≡ true
  pub manufacturer_fits : length b.manufacturer ≤ pnpid_manf_max
  pub product_fits : length b.product ≤ pnpid_prod_max

pub begin-IsFit : IsFit begin
begin-IsFit = record {
  manufacturer = refl;
  product = refl;
  manufacturer_fits = omega arith;
  product_fits = omega arith;
}

add_vers1-IsFit : (b : Builder) (tuple : List ℕ) → IsFit b → IsFit (add_vers1 b tuple)
unfolding add_vers1
add_vers1-IsFit b tuple h = elim (Bool-cases (leb (length tuple) 4)) [
  | inl short ↦ rw short h
  | inr long ↦
      let first = copy_filtered 116 0 (drop 2 tuple) in
      let second = copy_filtered 65 0 (drop (2 + first.1) tuple) in
      elim (Bool-cases (ltb (2 + first.1) (length tuple))) [
        | inl more ↦
            rw (long, more)
              (record {
                manufacturer = copy_filtered-printable 116 0 (drop 2 tuple);
                product = copy_filtered-printable 65 0 (drop (2 + first.1) tuple);
                manufacturer_fits = omega (arith, length-copy_filtered 116 0 (drop 2 tuple));
                product_fits = omega (arith, length-copy_filtered 65 0 (drop (2 + first.1) tuple));
              })
        | inr last ↦
            rw (long, last)
              (record {
                manufacturer = copy_filtered-printable 116 0 (drop 2 tuple);
                product = h.product;
                manufacturer_fits = omega (arith, length-copy_filtered 116 0 (drop 2 tuple));
                product_fits = h.product_fits;
              })
      ]
]

add_tuple-IsFit :
    (b : Builder) (code : ℕ) (tuple : List ℕ) → IsFit b → IsFit (add_tuple b code tuple)
unfolding add_tuple
add_tuple-IsFit b code tuple h = ground (arith, add_vers1-IsFit b tuple h)

pub add_tuples-IsFit : (b : Builder) (ts : List (ℕ × List ℕ)) → IsFit b → IsFit (add_tuples b ts)
unfolding add_tuples
add_tuples-IsFit b [] h = h
add_tuples-IsFit b ((code, tuple) ∷ ts) h =
    add_tuples-IsFit (add_tuple b code tuple) ts (add_tuple-IsFit b code tuple h)

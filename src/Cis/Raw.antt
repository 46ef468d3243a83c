-- ===== src/Cis/Raw.antt =====
-- The raw capture of src/gpib/cis.c as a format: how a reader takes the tuples from its bytes.
use jornada_gpib.Prelude.{
  ℕ, zero, suc, ◌+◌, ◌%◌, ◌^◌, ◌≤◌, ◌<◌, ◌≡◌, refl, true, ◌==◌, ltb, leb, if◌then◌else◌, List, [],
  ◌∷◌, ◌++◌, length, length-append, take, drop, Option, none, some, arith,
}
use jornada_gpib.Cis.Walk.{cis_capture_max, cistpl_end, Found}

-- A sequence of: code, length, data bytes.
abbrev pub flat : List (ℕ × List ℕ) → List ℕ
flat [] = []
flat ((code, d) ∷ ts) = code ∷ length d % 2 ^ 8 ∷ (d ++ flat ts)

abbrev pub cons_if : ℕ × List ℕ → Option (List (ℕ × List ℕ)) → Option (List (ℕ × List ℕ))
cons_if t none = none
cons_if t (some ts) = some (t ∷ ts)

-- The tuples of such a sequence, at most `rounds` of them; none where the bytes end within one.
unfoldable pub read_raw : (rounds : ℕ) → List ℕ → Option (List (ℕ × List ℕ))
read_raw rounds [] = some []
read_raw zero (code ∷ more) = none
read_raw (suc rounds) (code ∷ []) = none
read_raw (suc rounds) (code ∷ len ∷ more) =
    let rest : Option (List (ℕ × List ℕ)) = read_raw rounds (drop len more) in
    if leb len (length more) then cons_if (code, take len more) rest else none

-- The data of a tuple is at most 255 bytes, as the byte that holds its length.
pub data AreShort : List (ℕ × List ℕ) → Type 0 where
  no_tuples : AreShort []
  one_more :
      {code : ℕ} {d : List ℕ} {ts : List (ℕ × List ℕ)}
      → length d < 256
      → AreShort ts
      → AreShort ((code, d) ∷ ts)

module _ {ℓ} {A : Type ℓ} where
  take-append : (xs ys : List A) → take (length xs) (xs ++ ys) ≡ xs
  take-append [] ys = refl
  take-append (x ∷ xs) ys = rw (take-append xs ys) refl

  drop-append : (xs ys : List A) → drop (length xs) (xs ++ ys) ≡ ys
  drop-append [] ys = refl
  drop-append (x ∷ xs) ys = drop-append xs ys

small-mod : (n : ℕ) → n < 256 → n % 2 ^ 8 ≡ n
small-mod n h = omega arith

-- Reading back what was written.
pub read_raw-flat :
    (rounds : ℕ) (ts : List (ℕ × List ℕ))
    → AreShort ts
    → length ts ≤ rounds
    → read_raw rounds (flat ts) ≡ some ts
unfolding read_raw
read_raw-flat rounds [] short enough = refl
read_raw-flat zero ((code, d) ∷ ts) short enough = absurd (omega arith)
read_raw-flat (suc rounds) ((code, d) ∷ ts) (one_more small short) enough =
    let room : leb (length d) (length (d ++ flat ts)) ≡ true =
      ground (arith, length-append d (flat ts)) in
    rw
      (
        small-mod (length d) small,
        drop-append d (flat ts),
        take-append d (flat ts),
        room,
        read_raw-flat rounds ts short (omega arith),
      )
      refl

-- The tuples that the walk comes to, `left` of them at most: up to CISTPL_END, and to the first whose
-- data cannot be read.
abbrev pub walked : (left : ℕ) → List Found → List (ℕ × List ℕ)
walked left [] = []
walked zero (t ∷ ts) = []
walked (suc left) (t ∷ ts) =
    let rest : List (ℕ × List ℕ) = walked left ts in
    elim t.bytes [ none ↦ [] | some d ↦ (t.code, d) ∷ (if t.code == cistpl_end then [] else rest) ]

-- Those that fit into the capture, `used` bytes of it being taken.
abbrev pub kept : (used : ℕ) → List (ℕ × List ℕ) → List (ℕ × List ℕ)
kept used [] = []
kept used ((code, d) ∷ ts) =
    let without : List (ℕ × List ℕ) = kept used ts in
    let with' : List (ℕ × List ℕ) = (code, d) ∷ kept (used + 2 + length d) ts in
    if ltb cis_capture_max (used + 2 + length d) then without else with'

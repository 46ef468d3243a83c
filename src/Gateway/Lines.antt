-- ===== src/Gateway/Lines.antt =====
-- What the bytes from a client mean as lines, apart from the buffer of src/gpibsrv/gpibsrv.c: first
-- the escapes are resolved, then the newlines split the rest, then each line is cut off.
use jornada_gpib.Prelude.{
  ℕ, zero, suc, ◌≤◌, ◌≡◌, refl, Bool, true, false, ◌==◌, ltb, if◌then◌else◌, List, [], ◌∷◌, ◌++◌,
  length, take, arith, Bool-cases, inl, inr,
}
use jornada_gpib.Api.State.{Os}
use jornada_gpib.Gateway.State.{line_max, Net, Server, Run, done, busy, G, and_then, ◌>>◌, give}
use jornada_gpib.Gateway.Serve.{
  Lexer, append_byte, is_newline, fresh, complete, take_byte, take_bytes,
}

pub data Token : Type 0 where
  byte : (c : ℕ) → Token
  newline : Token

-- ESC stands for itself before nothing, and else makes the next byte plain.
abbrev pub unescape : (escaped : Bool) → List ℕ → List Token
unescape escaped [] = []
unescape true (c ∷ cs) = byte c ∷ unescape false cs
unescape false (c ∷ cs) =
    let plain : List Token = byte c ∷ unescape false cs in
    let next : List Token = unescape true cs in
    let ended : List Token = newline ∷ unescape false cs in
    if c == 0x1b then next else if is_newline c then ended else plain

-- Whether the bytes end within an escape.
abbrev pub dangling : (escaped : Bool) → List ℕ → Bool
dangling escaped [] = escaped
dangling true (c ∷ cs) = dangling false cs
dangling false (c ∷ cs) =
    let next : Bool = dangling true cs in
    let later : Bool = dangling false cs in if c == 0x1b then next else later

-- The lines that are complete, `start` the beginning of the first one.
abbrev pub split_lines : (start : List ℕ) → List Token → List (List ℕ)
split_lines start [] = []
split_lines start (byte c ∷ ts) = split_lines (start ++ c ∷ []) ts
split_lines start (newline ∷ ts) = start ∷ split_lines [] ts

-- What comes after the last newline.
abbrev pub last_line : (start : List ℕ) → List Token → List ℕ
last_line start [] = start
last_line start (byte c ∷ ts) = last_line (start ++ c ∷ []) ts
last_line start (newline ∷ ts) = last_line [] ts

abbrev pub lines_of : List ℕ → List (List ℕ)
lines_of bytes = split_lines [] (unescape false bytes)

-- The unfinished line and escape after the bytes.
abbrev pub rest_of : List ℕ → Lexer
rest_of bytes = record {
  line = take line_max (last_line [] (unescape false bytes));
  escaped = dangling false bytes;
}

pub take-all : (n : ℕ) (xs : List ℕ) → length xs ≤ n → take n xs ≡ xs
take-all zero [] h = refl
take-all zero (x ∷ xs) h = absurd (omega arith)
take-all (suc n) [] h = refl
take-all (suc n) (x ∷ xs) h = rw (take-all n xs (omega arith)) refl

take-nil : (n : ℕ) → take {A = ℕ} n [] ≡ []
take-nil zero = refl
take-nil (suc n) = refl

append-take :
    (n : ℕ) (p : List ℕ) (c : ℕ)
    → (if ltb (length (take n p)) n then take n p ++ c ∷ [] else take n p) ≡ take n (p ++ c ∷ [])
append-take zero p c = refl
append-take (suc n) [] c = rw (take-nil n) (ground arith)
append-take (suc n) (x ∷ p) c = elim (Bool-cases (ltb (length (take n p)) n)) [
  | inl e ↦ ground (arith, e, append-take n p c)
  | inr e ↦ ground (arith, e, append-take n p c)
]

-- Appending to what fits is cutting off what was appended to.
append_byte-take :
    (p : List ℕ) (c : ℕ) → append_byte (take line_max p) c ≡ take line_max (p ++ c ∷ [])
append_byte-take p c = append-take 1024 p c

module _ (rounds : ℕ) ⦃os : Os⦄ ⦃net : Net⦄ where
  -- Each line in turn, cut off at LINE_MAX bytes; an empty one is passed over.
  unfoldable pub handle_lines : List (List ℕ) → G (Unit {0})
  unfolding give complete
  handle_lines [] = give tt
  handle_lines (l ∷ ls) = do complete rounds (take line_max l); handle_lines ls

  then-handle :
      {A B : Type 0} (r : Run (Unit {0})) (l : A) (f : A → G B) (m : G (Unit {0})) (g : G B)
      → ((u : Server) → f l u ≡ (m >> g) u)
      → and_then (and_then r (λ t. give l)) f ≡ and_then (and_then r (λ t. m)) (λ t. g)
  unfolding give
  then-handle (done t u) l f m g h = h u
  then-handle (busy u) l f m g h = refl

  -- From any unfinished line and escape.
  pub take_bytes-from :
      (start : List ℕ) (escaped : Bool) (bytes : List ℕ) (s : Server)
      → take_bytes rounds (record { line = take line_max start; escaped = escaped }) bytes s
        ≡ (handle_lines (split_lines start (unescape escaped bytes))
              >> give (record {
                line = take line_max (last_line start (unescape escaped bytes));
                escaped = dangling escaped bytes;
              }))
            s
  unfolding take_bytes take_byte give handle_lines
  take_bytes-from start escaped [] s = refl
  take_bytes-from start true (c ∷ cs) s =
      rw append_byte-take (take_bytes-from (start ++ c ∷ []) false cs s)
  take_bytes-from start false (c ∷ cs) s = elim (Bool-cases (c == 0x1b)) [
    | inl esc ↦ rw esc (take_bytes-from start true cs s)
    | inr no_esc ↦ elim (Bool-cases (is_newline c)) [
      | inl nl ↦
          rw (no_esc, nl)
            (then-handle (complete rounds (take line_max start) s) fresh
              (λ l. take_bytes rounds l cs) _ _ (λ u. take_bytes-from [] false cs u))
      | inr plain ↦
          rw (no_esc, plain, append_byte-take) (take_bytes-from (start ++ c ∷ []) false cs s)
    ]
  ]

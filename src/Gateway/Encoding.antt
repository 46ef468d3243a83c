-- ===== src/Gateway/Encoding.antt =====
-- How a client writes lines that src/gpibsrv/gpibsrv.c reads back.
use jornada_gpib.Prelude.{
  ℕ, ◌≤◌, ◌≡◌, refl, ◌∙◌, ap, ◌||◌, Bool, false, ◌==◌, if◌then◌else◌, List, [], ◌∷◌, ◌++◌, length,
  append_assoc, append-nil, arith, Bool-cases, inl, inr,
}
use jornada_gpib.Api.State.{Os}
use jornada_gpib.Gateway.State.{line_max, Net, Server, G, ◌>>◌, give}
use jornada_gpib.Gateway.Commands.{handle_line}
use jornada_gpib.Gateway.Serve.{is_newline, fresh, take_bytes, complete}
use jornada_gpib.Gateway.Lines.{
  Token, byte, newline, unescape, dangling, split_lines, last_line, lines_of, handle_lines,
  take-all, take_bytes-from,
}

-- ESC before a byte that has a meaning of its own, and before those that `also` tells.
abbrev pub encode_byte : (also : ℕ → Bool) → ℕ → List ℕ
encode_byte also c = if also c || c == 0x1b || is_newline c then 0x1b ∷ c ∷ [] else c ∷ []

abbrev pub encode_line : (also : ℕ → Bool) → List ℕ → List ℕ
encode_line also [] = 0x0a ∷ []
encode_line also (c ∷ cs) = encode_byte also c ++ encode_line also cs

abbrev pub encode_lines : (also : ℕ → Bool) → List (List ℕ) → List ℕ
encode_lines also [] = []
encode_lines also (l ∷ ls) = encode_line also l ++ encode_lines also ls

-- No line is empty, or longer than LINE_MAX.
pub data AreLines : List (List ℕ) → Type 0 where
  no_lines : AreLines []
  one_more :
      {c : ℕ} {cs : List ℕ} {ls : List (List ℕ)}
      → length (c ∷ cs) ≤ line_max
      → AreLines ls
      → AreLines ((c ∷ cs) ∷ ls)

abbrev bytes_then : List ℕ → List Token → List Token
bytes_then [] ts = ts
bytes_then (c ∷ cs) ts = byte c ∷ bytes_then cs ts

unescape-encode_byte :
    (also : ℕ → Bool) (c : ℕ) (more : List ℕ)
    → unescape false (encode_byte also c ++ more) ≡ byte c ∷ unescape false more
unescape-encode_byte also c more = elim (Bool-cases (also c || c == 0x1b || is_newline c)) [
  | inl e ↦ rw e refl
  | inr e ↦ ground (arith, e)
]

unescape-encode_line :
    (also : ℕ → Bool) (l more : List ℕ)
    → unescape false (encode_line also l ++ more) ≡ bytes_then l (newline ∷ unescape false more)
unescape-encode_line also [] more = refl
unescape-encode_line also (c ∷ cs) more =
    rw
      (
        append_assoc (encode_byte also c) (encode_line also cs) more,
        unescape-encode_byte also c (encode_line also cs ++ more),
        unescape-encode_line also cs more,
      )
      refl

split-bytes_then :
    (start l : List ℕ) (ts : List Token)
    → split_lines start (bytes_then l (newline ∷ ts)) ≡ (start ++ l) ∷ split_lines [] ts
split-bytes_then start [] ts = rw (append-nil start) refl
split-bytes_then start (c ∷ cs) ts =
    rw (split-bytes_then (start ++ c ∷ []) cs ts, append_assoc start (c ∷ []) cs) refl

last-bytes_then :
    (start l : List ℕ) (ts : List Token)
    → last_line start (bytes_then l (newline ∷ ts)) ≡ last_line [] ts
last-bytes_then start [] ts = refl
last-bytes_then start (c ∷ cs) ts = last-bytes_then (start ++ c ∷ []) cs ts

lines_of-encode : (also : ℕ → Bool) (ls : List (List ℕ)) → lines_of (encode_lines also ls) ≡ ls
lines_of-encode also [] = refl
lines_of-encode also (l ∷ ls) =
    rw
      (
        unescape-encode_line also l (encode_lines also ls),
        split-bytes_then [] l (unescape false (encode_lines also ls)),
        lines_of-encode also ls,
      )
      refl

last_line-encode :
    (also : ℕ → Bool) (ls : List (List ℕ))
    → last_line [] (unescape false (encode_lines also ls)) ≡ []
last_line-encode also [] = refl
last_line-encode also (l ∷ ls) =
    rw
      (
        unescape-encode_line also l (encode_lines also ls),
        last-bytes_then [] l (unescape false (encode_lines also ls)),
      )
      (last_line-encode also ls)

dangling-encode_byte :
    (also : ℕ → Bool) (c : ℕ) (more : List ℕ)
    → dangling false (encode_byte also c ++ more) ≡ dangling false more
dangling-encode_byte also c more = elim (Bool-cases (also c || c == 0x1b || is_newline c)) [
  | inl e ↦ rw e refl
  | inr e ↦ ground (arith, e)
]

dangling-encode_line :
    (also : ℕ → Bool) (l more : List ℕ)
    → dangling false (encode_line also l ++ more) ≡ dangling false more
dangling-encode_line also [] more = refl
dangling-encode_line also (c ∷ cs) more =
    rw
      (
        append_assoc (encode_byte also c) (encode_line also cs) more,
        dangling-encode_byte also c (encode_line also cs ++ more),
      )
      (dangling-encode_line also cs more)

dangling-encode :
    (also : ℕ → Bool) (ls : List (List ℕ)) → dangling false (encode_lines also ls) ≡ false
dangling-encode also [] = refl
dangling-encode also (l ∷ ls) =
    rw (dangling-encode_line also l (encode_lines also ls)) (dangling-encode also ls)

then-both : {m n k l : G (Unit {0})} → m ≡ n → k ≡ l → ◌≡◌ {A = G (Unit {0})} (m >> k) (n >> l)
then-both p q = rw (p, q) refl

module _ (rounds : ℕ) ⦃os : Os⦄ ⦃net : Net⦄ where
  -- One call for each line, in order.
  unfoldable pub handle_each : List (List ℕ) → G (Unit {0})
  unfolding give
  handle_each [] = give tt
  handle_each (l ∷ ls) = do handle_line rounds l; handle_each ls

  handle_lines-each : (ls : List (List ℕ)) → AreLines ls → handle_lines rounds ls ≡ handle_each ls
  unfolding handle_lines complete handle_each
  handle_lines-each [] no_lines = refl
  handle_lines-each ([] ∷ ls) x = elim x [ ]
  handle_lines-each ((c ∷ cs) ∷ ls) (one_more fits more) =
      then-both (ap (complete rounds) (take-all line_max (c ∷ cs) fits)) (handle_lines-each ls more)

  -- Lines that a client has encoded, none of them empty or longer than LINE_MAX, are handled as
  -- they were, byte for byte, each once and in order, whichever other bytes were escaped too; no part
  -- of a line and no escape is left over.
  pub take_bytes-encode :
      (also : ℕ → Bool) (ls : List (List ℕ)) (s : Server)
      → AreLines ls
      → take_bytes rounds fresh (encode_lines also ls) s ≡ (handle_each ls >> give fresh) s
  take_bytes-encode also ls s good =
      take_bytes-from rounds [] false (encode_lines also ls) s
      ∙ rw
          (
            lines_of-encode also ls,
            last_line-encode also ls,
            dangling-encode also ls,
            handle_lines-each ls good,
          )
          refl

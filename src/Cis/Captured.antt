-- ===== src/Cis/Captured.antt =====
-- What `cis_capture_socket` of src/gpib/cis.c has captured, whatever Card Services answers.
use jornada_gpib.Prelude.{
  Option-cases, ℕ, zero, suc, ◌+◌, ◌%◌, ◌^◌, ◌≤◌, ◌≡◌, refl, ◌∙◌, sym, ap, Bool, true, false, ◌==◌,
  ltb, if◌then◌else◌, List, [], ◌∷◌, ◌++◌, length, length-append, append_assoc, append-nil, some,
  arith, Bool-cases, inl, inr,
}
use jornada_gpib.PnpId.Build.{Builder, begin, add_tuple, add_tuples, finish, pnpid_max}
use jornada_gpib.Driver.State.{Cis}
use jornada_gpib.Cis.Walk.{
  cis_capture_max, cis_max_tuples, cistpl_end, Found, decode, capture_raw, take_tuple, walk, empty,
  text_or_empty, cis_capture_socket,
}
use jornada_gpib.Cis.Raw.{
  flat, read_raw, AreShort, no_tuples, one_more, read_raw-flat, walked, kept,
}

-- The fields that the walk itself keeps, where `ts` are the tuples still to come from `cap`.
record Walks (cap : Cis) (pnp : Builder) (ts : List (ℕ × List ℕ)) (r : Cis × Builder) : Type 0 where
  builder : r.1 ≡ add_tuples pnp ts
  count : r.0.tuples ≡ cap.tuples + length ts
  bytes : r.0.raw ≡ cap.raw ++ flat (kept cap.raw_len ts)
  len : cap.raw_len ≤ cis_capture_max → r.0.raw_len ≤ cis_capture_max
  exact : cap.raw_len ≡ length cap.raw → r.0.raw_len ≡ length r.0.raw

decode-raw : (code : ℕ) (d : List ℕ) (cap : Cis) → (decode code d cap).raw ≡ cap.raw
unfolding decode
decode-raw code d cap = ground arith

decode-raw_len : (code : ℕ) (d : List ℕ) (cap : Cis) → (decode code d cap).raw_len ≡ cap.raw_len
unfolding decode
decode-raw_len code d cap = ground arith

decode-tuples : (code : ℕ) (d : List ℕ) (cap : Cis) → (decode code d cap).tuples ≡ cap.tuples
unfolding decode
decode-tuples code d cap = ground arith

-- Whether a tuple is not kept.
abbrev is_over : Cis → List ℕ → Bool
is_over cap d = ltb cis_capture_max (cap.raw_len + 2 + length d)

take_tuple-tuples :
    (cap : Cis) (code : ℕ) (d : List ℕ) → (take_tuple cap code d).tuples ≡ suc cap.tuples
unfolding take_tuple capture_raw
take_tuple-tuples cap code d = elim (Bool-cases (is_over cap d)) [
  | inl e ↦ rw (decode-tuples code d (capture_raw cap code d), e) refl
  | inr e ↦ rw (decode-tuples code d (capture_raw cap code d), e) refl
]

take_tuple-raw :
    (cap : Cis) (code : ℕ) (d : List ℕ)
    → (take_tuple cap code d).raw
      ≡ (if is_over cap d then cap.raw else cap.raw ++ code ∷ length d % 2 ^ 8 ∷ d)
unfolding take_tuple capture_raw
take_tuple-raw cap code d = elim (Bool-cases (is_over cap d)) [
  | inl e ↦ rw (decode-raw code d (capture_raw cap code d), e) refl
  | inr e ↦ rw (decode-raw code d (capture_raw cap code d), e) refl
]

take_tuple-raw_len :
    (cap : Cis) (code : ℕ) (d : List ℕ)
    → (take_tuple cap code d).raw_len
      ≡ (if is_over cap d then cap.raw_len else cap.raw_len + 2 + length d)
unfolding take_tuple capture_raw
take_tuple-raw_len cap code d = elim (Bool-cases (is_over cap d)) [
  | inl e ↦ rw (decode-raw_len code d (capture_raw cap code d), e) refl
  | inr e ↦ rw (decode-raw_len code d (capture_raw cap code d), e) refl
]

-- After a tuple that is not kept.
then_over :
    (cap cap' : Cis) (pnp : Builder) (code : ℕ) (d : List ℕ) (ts : List (ℕ × List ℕ))
    (r : Cis × Builder)
    → is_over cap d ≡ true
    → cap'.tuples ≡ suc cap.tuples
    → cap'.raw ≡ cap.raw
    → cap'.raw_len ≡ cap.raw_len
    → Walks cap' (add_tuple pnp code d) ts r
    → Walks cap pnp ((code, d) ∷ ts) r
unfolding add_tuples
then_over cap cap' pnp code d ts r over t b l w = record {
  builder = w.builder;
  count = omega (arith, w.count, t);
  bytes = rw over (w.bytes ∙ rw (b, l) refl);
  len = λ h. w.len (rw l h);
  exact = λ h. w.exact (l ∙ h ∙ ap length (sym b));
}

-- After one that is.
then_kept :
    (cap cap' : Cis) (pnp : Builder) (code : ℕ) (d : List ℕ) (ts : List (ℕ × List ℕ))
    (r : Cis × Builder)
    → is_over cap d ≡ false
    → cap'.tuples ≡ suc cap.tuples
    → cap'.raw ≡ cap.raw ++ code ∷ length d % 2 ^ 8 ∷ d
    → cap'.raw_len ≡ cap.raw_len + 2 + length d
    → Walks cap' (add_tuple pnp code d) ts r
    → Walks cap pnp ((code, d) ∷ ts) r
unfolding add_tuples
then_kept cap cap' pnp code d ts r fits t b l w = record {
  builder = w.builder;
  count = omega (arith, w.count, t);
  bytes = rw fits (w.bytes ∙ rw (b, l) (append_assoc cap.raw (code ∷ length d % 2 ^ 8 ∷ d) _));
  len = λ h. w.len (ground (arith, fits, l));
  exact = λ h.
      w.exact
        (omega (arith, l, h, ap length b, length-append cap.raw (code ∷ length d % 2 ^ 8 ∷ d)));
}

Walks-then :
    (cap : Cis) (pnp : Builder) (code : ℕ) (d : List ℕ) (ts : List (ℕ × List ℕ)) (r : Cis × Builder)
    → Walks (take_tuple cap code d) (add_tuple pnp code d) ts r
    → Walks cap pnp ((code, d) ∷ ts) r
Walks-then cap pnp code d ts r w = elim (Bool-cases (is_over cap d)) [
  | inl e ↦
      then_over cap (take_tuple cap code d) pnp code d ts r e (take_tuple-tuples cap code d)
        (take_tuple-raw cap code d ∙ rw e refl) (take_tuple-raw_len cap code d ∙ rw e refl) w
  | inr e ↦
      then_kept cap (take_tuple cap code d) pnp code d ts r e (take_tuple-tuples cap code d)
        (take_tuple-raw cap code d ∙ rw e refl) (take_tuple-raw_len cap code d ∙ rw e refl) w
]

Walks-nothing : (cap : Cis) (pnp : Builder) → Walks cap pnp [] (cap, pnp)
unfolding add_tuples
Walks-nothing cap pnp = record {
  builder = refl;
  count = omega arith;
  bytes = sym (append-nil cap.raw);
  len = λ h. h;
  exact = λ h. h;
}

walk-Walks :
    (left : ℕ) (found : List Found) (cap : Cis) (pnp : Builder)
    → cap.tuples + left ≡ cis_max_tuples
    → Walks cap pnp (walked left found) (walk found cap pnp)
unfolding walk
walk-Walks left [] cap pnp room = Walks-nothing cap pnp
walk-Walks zero (t ∷ ts) cap pnp room =
    let full : ltb cap.tuples cis_max_tuples ≡ false = ground (arith, room) in
    elim (Option-cases t.bytes) [
      | inl e ↦ rw e (Walks-nothing cap pnp)
      | inr (d, e) ↦ rw (e, full) (Walks-nothing cap pnp)
    ]
walk-Walks (suc left) (t ∷ ts) cap pnp room =
    let more : ltb cap.tuples cis_max_tuples ≡ true = ground (arith, room) in
    elim (Option-cases t.bytes) [
      | inl e ↦ rw e (Walks-nothing cap pnp)
      | inr (d, e) ↦ elim (Bool-cases (t.code == cistpl_end)) [
        | inl last ↦ rw (e, more, last) (Walks-then cap pnp t.code d [] _ (Walks-nothing _ _))
        | inr later ↦
            rw (e, more, later)
              (Walks-then cap pnp t.code d (walked left ts) _ (
                walk-Walks left ts (take_tuple cap t.code d) (add_tuple pnp t.code d)
                  (omega (arith, take_tuple-tuples cap t.code d, room))))
      ]
    ]

-- What is captured of the tuples that the walk comes to.
pub record IsCaptured (ts : List (ℕ × List ℕ)) (r : Cis × Bool) : Type 0 where
  pub count : r.0.tuples ≡ length ts
  pub limit : r.0.tuples ≤ cis_max_tuples
  pub identifier : r.0.pnpid ≡ text_or_empty (finish (add_tuples begin ts) pnpid_max)
  pub size : r.0.raw_len ≡ length r.0.raw
  pub room : r.0.raw_len ≤ cis_capture_max
  pub answer : r.1 ≡ ltb 0 (length ts)

length-walked : (left : ℕ) (found : List Found) → length (walked left found) ≤ left
length-walked left [] = omega arith
length-walked zero (t ∷ ts) = omega arith
length-walked (suc left) (t ∷ ts) = elim (Option-cases t.bytes) [
  | inl e ↦ rw e (omega arith)
  | inr (d, e) ↦ elim (Bool-cases (t.code == cistpl_end)) [
    | inl last ↦ rw (e, last) (omega arith)
    | inr later ↦ rw (e, later) (omega (arith, length-walked left ts))
  ]
]

-- Whatever Card Services answers: the capture counts the tuples that the walk comes to, at most 64,
-- and has their identifier; its bytes are as many as it says and at most 1024; TRUE is returned where
-- there is such a tuple.
pub cis_capture_socket-IsCaptured :
    (found : List Found) → IsCaptured (walked cis_max_tuples found) (cis_capture_socket found)
unfolding cis_capture_socket
cis_capture_socket-IsCaptured found =
    let w = walk-Walks cis_max_tuples found empty begin refl in
    let n : (walk found empty begin).0.tuples ≡ length (walked cis_max_tuples found) =
      omega (arith, w.count) in
    record {
      count = n;
      limit = omega (arith, n, length-walked cis_max_tuples found);
      identifier = rw w.builder refl;
      size = w.exact refl;
      room = w.len (omega arith);
      answer = rw n refl;
    }

length-kept : (used : ℕ) (ts : List (ℕ × List ℕ)) → length (kept used ts) ≤ length ts
length-kept used [] = omega arith
length-kept used ((code, d) ∷ ts) =
    ground (arith, length-kept used ts, length-kept (used + 2 + length d) ts)

kept-AreShort : (used : ℕ) (ts : List (ℕ × List ℕ)) → AreShort ts → AreShort (kept used ts)
kept-AreShort used [] short = no_tuples
kept-AreShort used ((code, d) ∷ ts) (one_more small short) =
    elim (Bool-cases (ltb cis_capture_max (used + 2 + length d))) [
      | inl e ↦ rw e (kept-AreShort used ts short)
      | inr e ↦ rw e (one_more small (kept-AreShort (used + 2 + length d) ts short))
    ]

-- Where no tuple has more than 255 bytes, a reader of the captured bytes finds the tuples that the
-- walk came to, in order, but for those that did not fit behind the ones before.
pub read_raw-captured :
    (found : List Found)
    → AreShort (walked cis_max_tuples found)
    → read_raw cis_max_tuples (cis_capture_socket found).0.raw
      ≡ some (kept 0 (walked cis_max_tuples found))
unfolding cis_capture_socket
read_raw-captured found short =
    let ts : List (ℕ × List ℕ) = walked cis_max_tuples found in
    let few : length (kept 0 ts) ≤ 64 =
      omega (arith, length-kept 0 ts, length-walked cis_max_tuples found) in
    rw (walk-Walks cis_max_tuples found empty begin refl).bytes
      (read_raw-flat cis_max_tuples (kept 0 ts) (kept-AreShort 0 ts short) few)

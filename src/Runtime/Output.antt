-- ===== src/Runtime/Output.antt =====
-- `rt_vfmt` and `rt_vfmt8`: what they return, and what is in the buffer.
use jornada_gpib.Prelude.{
  ℕ, zero, suc, ◌+◌, ◌-◌, ◌*◌, ◌%◌, ◌^◌, ◌≤◌, ◌<◌, ◌≡◌, refl, sym, ◌∙◌, ap, inl, inr, Bool, false,
  not, ◌&&◌, ◌||◌, ◌==◌, ltb, leb, if◌then◌else◌, Bool-cases, Option-cases, none, some, List, [],
  ◌∷◌, ◌++◌, length, get_or, arith, int_of,
}
use jornada_gpib.Runtime.Memory.{Memory, store}
use jornada_gpib.Runtime.Sink.{Sink, unit_of, put, put_all, finish}
use jornada_gpib.Runtime.Format.{
  Args, Directive, flags, width_of, skip_l, directive_at, directive, after_arg, format_loop, format,
}
use jornada_gpib.Runtime.Rendered.{piece, takes_arg, convert_lem, put_all-append}

-- The text that is printed, with no buffer; `rounds` as for `format_loop`.
unfoldable pub text : (rounds : ℕ) → Args → (pos : ℕ) → List ℕ → List ℕ
text zero a pos fmt = []
text (suc rounds) a pos [] = []
text (suc rounds) a pos (c ∷ cs) =
    let plain : List ℕ = c ∷ text rounds a pos cs in
    let converted : List ℕ = elim (directive cs) [
      | none ↦ []
      | some d ↦
          piece a d (a.word pos % 2 ^ 32)
          ++ text rounds a (after_arg (takes_arg d.conversion) pos) d.rest
    ] in
    if not (c == 0x25) then plain else converted

-- The text of a whole format string.
abbrev pub rendered : Args → List ℕ → List ℕ
rendered a fmt = text (suc (length fmt)) a 0 fmt

length-flags : (l z : Bool) (fmt : List ℕ) → length (flags l z fmt).2 ≤ length fmt
length-flags l z [] = omega arith
length-flags l z (c ∷ cs) = ground (arith, length-flags (l || c == 0x2d) (z || c == 0x30) cs)

length-width_of : (w : ℕ) (fmt : List ℕ) → length (width_of w fmt).1 ≤ length fmt
length-width_of w [] = omega arith
length-width_of w (c ∷ cs) = ground (arith, length-width_of (w * 10 + (c - 0x30)) cs)

length-skip_l : (fmt : List ℕ) → length (skip_l fmt) ≤ length fmt
length-skip_l [] = omega arith
length-skip_l (c ∷ cs) = ground arith

length-directive_at :
    (l z : Bool) (w : ℕ) (fmt : List ℕ) {d : Directive}
    → directive_at l z w fmt ≡ some d
    → length d.rest < length fmt
length-directive_at l z w [] e = cc
length-directive_at l z w (c ∷ cs) e = ground arith

length-directive :
    (fmt : List ℕ) {d : Directive} → directive fmt ≡ some d → length d.rest < length fmt
unfolding directive
length-directive fmt {d} e =
    let f = flags false false fmt in
    let w = width_of 0 f.2 in
    omega (
      arith,
      length-directive_at f.0 f.1 w.0 (skip_l w.1) e,
      length-skip_l w.1,
      length-width_of 0 f.2,
      length-flags false false fmt,
    )

-- With a round for each unit of the format string and one more, the loop ends, and has put the text.
format_loop_lem :
    (rounds : ℕ) (a : Args) (pos : ℕ) (fmt : List ℕ) (s : Sink)
    → length fmt < rounds
    → format_loop rounds a pos fmt s ≡ some (put_all s (text rounds a pos fmt))
unfolding format_loop text put_all
format_loop_lem zero a pos fmt s h = absurd (omega arith)
format_loop_lem (suc rounds) a pos [] s h = refl
format_loop_lem (suc rounds) a pos (c ∷ cs) s h = elim (Bool-cases (c == 0x25)) [
  | inr plain ↦ rw plain (format_loop_lem rounds a pos cs (put s c) (omega arith))
  | inl percent ↦ elim (Option-cases (directive cs)) [
    | inl e ↦ rw (percent, e) refl
    | inr (d, e) ↦
        let w = a.word pos % 2 ^ 32 in
        rw (percent, e, convert_lem a d w s)
          (format_loop_lem rounds a (after_arg (takes_arg d.conversion) pos) d.rest
              (put_all s (piece a d w)) (omega (arith, length-directive cs e))
            ∙ ap some (sym (put_all-append s (piece a d w) _)))
  ]
]

put_all-len :
    (s : Sink) (xs : List ℕ) → s.len + length xs < 2 ^ 32 → (put_all s xs).len ≡ s.len + length xs
unfolding put_all
put_all-len s [] h = omega arith
put_all-len s (x ∷ xs) h = omega (arith, put_all-len (put s x) xs)

put_all-cap : (s : Sink) (xs : List ℕ) → (put_all s xs).cap ≡ s.cap
unfolding put_all
put_all-cap s [] = refl
put_all-cap s (x ∷ xs) = put_all-cap (put s x) xs

get_or-cons : (x : ℕ) (xs : List ℕ) (k j : ℕ) → k ≡ j + 1 → get_or (x ∷ xs) k 0 ≡ get_or xs j 0
get_or-cons x xs zero j e = absurd (omega arith)
get_or-cons x xs (suc k) j e = ap (λ n. get_or xs n 0) (omega arith)

get_or_self : (n x : ℕ) (xs : List ℕ) → get_or (x ∷ xs) (n - n) 0 ≡ x
get_or_self n x xs = ap (λ (k : ℕ). get_or (x ∷ xs) k 0) zero_eq
  where
    zero_eq : n - n ≡ 0
    zero_eq = omega arith

-- One more unit `u` in front of `n` others.
one_more :
    (len n i cap u v w : ℕ) (m : Memory)
    → (i ≡ len → w ≡ u)
    → (len < i → w ≡ v)
    → (if leb (len + 1) i && ltb i (len + 1 + n) && ltb (i + 1) cap
        then v
        else (if ltb (len + 1) cap then store m len u else m) i)
      ≡ (if leb len i && ltb i (len + suc n) && ltb (i + 1) cap then w else m i)
one_more len n i cap u v w m here later = elim (Bool-cases (ltb (len + 1) cap)) [
  | inl fits ↦ rw fits (ground (arith, fits, here, later))
  | inr full ↦ rw full (ground (arith, full, here, later))
]

-- The buffer after the text: its units from `len` on, as far as they fit before the last place.
put_all-out :
    (s : Sink) (xs : List ℕ) (i : ℕ)
    → s.len + length xs < 2 ^ 32
    → (put_all s xs).out i ≡ (
        if leb s.len i && ltb i (s.len + length xs) && ltb (i + 1) s.cap
        then unit_of s.wide (get_or xs (i - s.len) 0)
        else s.out i)
unfolding put_all
put_all-out s [] i h = ground arith
put_all-out s (x ∷ xs) i h =
    put_all-out (put s x) xs i (omega arith)
    ∙ rw wrap (
        one_more s.len (length xs) i s.cap (unit_of s.wide x)
          (unit_of s.wide (get_or xs (i - (s.len + 1)) 0))
          (unit_of s.wide (get_or (x ∷ xs) (i - s.len) 0)) s.out
          (λ e. ap (unit_of s.wide) (first e)) (λ k. ap (unit_of s.wide) (later k)))
  where
    wrap : (s.len + 1) % 2 ^ 32 ≡ s.len + 1
    wrap = omega arith

    first : i ≡ s.len → get_or (x ∷ xs) (i - s.len) 0 ≡ x
    first e = rw e (get_or_self s.len x xs)

    later : s.len < i → get_or (x ∷ xs) (i - s.len) 0 ≡ get_or xs (i - (s.len + 1)) 0
    later k = get_or-cons x xs (i - s.len) (i - (s.len + 1)) (omega arith)

-- What is in the buffer at `i` after the whole text, NUL included.
abbrev pub stored : Bool → Memory → (cap : ℕ) → List ℕ → Memory
stored wide buf cap t i =
    let end = if ltb (length t) cap then length t else cap - 1 in
    if cap == 0
    then buf i
    else if ltb i end
    then unit_of wide (get_or t i 0)
    else if i == end
    then 0
    else buf i

finished :
    (u : Sink) (wide : Bool) (buf : Memory) (cap i : ℕ) (t : List ℕ)
    → u.cap ≡ cap
    → u.len ≡ length t
    → u.out i ≡ (
        if leb 0 i && ltb i (length t) && ltb (i + 1) cap
        then unit_of wide (get_or t i 0)
        else buf i)
    → (finish u).out i ≡ stored wide buf cap t i
unfolding finish
finished u wide buf cap i t e f g = ground (arith, e, f, g)

finish-out :
    (s : Sink) (t : List ℕ) (i : ℕ)
    → s.len ≡ 0
    → length t < 2 ^ 32
    → (finish (put_all s t)).out i ≡ stored s.wide s.out s.cap t i
unfolding finish
finish-out s t i z h =
    finished (put_all s t) s.wide s.out s.cap i t (put_all-cap s t) (omega (arith, put_all-len s t))
      (put_all-out s t i (omega arith) ∙ ground (arith, z, same))
  where
    same : get_or t (i - s.len) 0 ≡ get_or t i 0
    same = ap (λ k. get_or t k 0) (omega (arith, z))

-- From a sink of length 0, and where the text has fewer than 2 ^ 32 units: the formatter ends, and
-- its text does not depend on the buffer. What is returned is the length of all of the text, cast
-- to `int` (so it is negative from 2 ^ 31 on); the buffer holds as much of the text as fits before
-- the last place, cast to its units, and a NUL; nothing else is touched, and nothing at all if the
-- buffer has no place.
pub format_lem :
    (a : Args) (fmt : List ℕ) (s : Sink)
    → s.len ≡ 0
    → length (rendered a fmt) < 2 ^ 32
    → (s' : Sink) × (format a fmt s ≡ some (s', int_of (length (rendered a fmt))))
      × ((i : ℕ) → s'.out i ≡ stored s.wide s.out s.cap (rendered a fmt) i)
unfolding format finish
format_lem a fmt s z h =
    let t = rendered a fmt in
    (
      finish (put_all s t),
      rw (format_loop_lem (suc (length fmt)) a 0 fmt s (omega arith), format)
          (ap (λ n. some (finish (put_all s t), int_of n))
            (len (put_all s t) (put_all-len s t (omega (arith, z, h))))),
      λ i. out i,
    )
  where
    len :
        (u : Sink)
        → u.len ≡ s.len + length (rendered a fmt)
        → (finish u).len ≡ length (rendered a fmt)
    len u e = ground (arith, e, z)

    out :
        (i : ℕ)
        → (finish (put_all s (rendered a fmt))).out i ≡ stored s.wide s.out s.cap (rendered a fmt) i
    out i = finish-out s (rendered a fmt) i z h

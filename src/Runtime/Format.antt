-- ===== src/Runtime/Format.antt =====
-- `format` of src/rt/fmt.c. The format string is the list of its units before the NUL; the variable
-- arguments are a sequence of 32-bit words, some of them addresses of strings.
use jornada_gpib.Prelude.{
  int_of, ℤ, ℕ, zero, suc, ◌+◌, ◌-◌, ◌*◌, ◌%◌, ◌^◌, Bool, true, false, not, ◌&&◌, ◌||◌, ◌==◌, leb,
  if◌then◌else◌, List, [], ◌∷◌, Option, none, some, length,
}
use jornada_gpib.Runtime.Sink.{Sink, put, finish}
use jornada_gpib.Runtime.Memory.{Memory}
use jornada_gpib.Runtime.Numbers.{emit_number, emit_wstr, emit_str}

pub record Args : Type 0 where
  pub word : ℕ → ℕ
  pub wide_at : ℕ → List ℕ
  pub narrow_at : ℕ → List ℕ

-- The flags, the width and the conversion character after a '%', and the format string after it.
pub record Directive : Type 0 where
  pub left : Bool
  pub zero_fill : Bool
  pub width : ℕ
  pub conversion : ℕ
  pub rest : List ℕ

-- The loop over '-' and '0'.
abbrev pub flags : Bool → Bool → List ℕ → Bool × Bool × List ℕ
flags left zero_fill [] = (left, zero_fill, [])
flags left zero_fill (c ∷ cs) =
    let more = flags (left || c == 0x2d) (zero_fill || c == 0x30) cs in
    if c == 0x2d || c == 0x30 then more else (left, zero_fill, c ∷ cs)

-- The loop over the digits of the width.
abbrev pub width_of : ℕ → List ℕ → ℕ × List ℕ
width_of width [] = (width, [])
width_of width (c ∷ cs) =
    let more = width_of (width * 10 + (c - 0x30)) cs in
    if leb 0x30 c && leb c 0x39 then more else (width, c ∷ cs)

-- if (*fmt == 'l') fmt++;
abbrev pub skip_l : List ℕ → List ℕ
skip_l [] = []
skip_l (c ∷ cs) = if c == 0x6c then cs else c ∷ cs

abbrev pub directive_at : Bool → Bool → ℕ → List ℕ → Option Directive
directive_at left zero_fill width [] = none
directive_at left zero_fill width (c ∷ cs) =
    some (record { left = left; zero_fill = zero_fill; width = width; conversion = c; rest = cs })

-- From after a '%'; none where the format string ends first.
unfoldable pub directive : List ℕ → Option Directive
directive fmt =
    let (left, zero_fill, fmt') = flags false false fmt in
    let (width, fmt'') = width_of 0 fmt' in directive_at left zero_fill width (skip_l fmt'')

abbrev pub string_at : (ℕ → List ℕ) → ℕ → Option (List ℕ)
string_at at w = if w == 0 then none else some (at w)

-- v < 0
abbrev pub is_negative : ℕ → Bool
is_negative w = leb (2 ^ 31) w

-- v < 0 ? (unsigned int)(-(v + 1)) + 1u : (unsigned int)v
abbrev pub magnitude : ℕ → ℕ
magnitude w = if is_negative w then (2 ^ 32 - 1 - w + 1) % 2 ^ 32 else w

-- The `switch`: `w` is the next argument. With the sink, whether the argument was taken.
unfoldable pub convert : Args → Directive → (w : ℕ) → Sink → Sink × Bool
convert a d w s =
    let c = d.conversion in
    if c == 0x64 || c == 0x69
    then (emit_number s (magnitude w) 10 false (is_negative w) d.width d.left d.zero_fill, true)
    else if c == 0x75
    then (emit_number s w 10 false false d.width d.left d.zero_fill, true)
    else if c == 0x78
    then (emit_number s w 16 false false d.width d.left d.zero_fill, true)
    else if c == 0x58
    then (emit_number s w 16 true false d.width d.left d.zero_fill, true)
    else if c == 0x70
    then (emit_number (put (put s 0x30) 0x78) w 16 false false 8 false true, true)
    else if c == 0x63
    then (put s (w % 2 ^ 16), true)
    else if c == 0x73
    then (emit_wstr s (string_at a.wide_at w) d.width d.left, true)
    else if c == 0x53
    then (emit_str s (string_at a.narrow_at w) d.width d.left, true)
    else if c == 0x25
    then (put s 0x25, false)
    else (put (put s 0x25) c, false)

-- The next position in the arguments.
abbrev pub after_arg : Bool → ℕ → ℕ
after_arg taken pos = if taken then pos + 1 else pos

-- The outer loop, for `rounds` characters or directives at most; none where that is too few.
unfoldable pub format_loop : (rounds : ℕ) → Args → (pos : ℕ) → List ℕ → Sink → Option Sink
unfolding directive
format_loop zero a pos fmt s = none
format_loop (suc rounds) a pos [] s = some s
format_loop (suc rounds) a pos (c ∷ cs) s =
    let plain : Option Sink = format_loop rounds a pos cs (put s c) in
    let converted : Option Sink = elim (directive cs) [
      | none ↦ some s
      | some d ↦
          let (s', taken) = convert a d (a.word pos % 2 ^ 32) s in
          format_loop rounds a (after_arg taken pos) d.rest s'
    ] in
    if not (c == 0x25) then plain else converted

-- The sink at the end, and what is returned: its `len`, cast to `int`.
unfoldable pub format : Args → List ℕ → Sink → Option (Sink × ℤ)
unfolding format_loop finish
format a fmt s = elim (format_loop (suc (length fmt)) a 0 fmt s) [
  | none ↦ none
  | some s' ↦ some (finish s', int_of (finish s').len)
]

unfoldable pub vfmt : Memory → (cap : ℕ) → List ℕ → Args → Option (Sink × ℤ)
unfolding format
vfmt buf cap fmt a = format a fmt (record { wide = true; out = buf; cap = cap; len = 0 })

unfoldable pub vfmt8 : Memory → (cap : ℕ) → List ℕ → Args → Option (Sink × ℤ)
unfolding format
vfmt8 buf cap fmt a = format a fmt (record { wide = false; out = buf; cap = cap; len = 0 })

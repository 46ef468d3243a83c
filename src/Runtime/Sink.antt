-- ===== src/Runtime/Sink.antt =====
-- The output of src/rt/fmt.c: `sink`, its buffer as a memory of 8-bit or 16-bit units.
use jornada_gpib.Prelude.{
  ℕ, zero, suc, ◌+◌, ◌-◌, ◌%◌, ◌^◌, Bool, ◌==◌, ltb, if◌then◌else◌, List, [], ◌∷◌,
}
use jornada_gpib.Runtime.Memory.{Memory, store}

-- `wide` is `s->w != NULL`; `out` is the buffer that is written to.
pub record Sink : Type 0 where
  pub wide : Bool
  pub out : Memory
  pub cap : ℕ
  pub len : ℕ

-- The unit that is stored for a character.
abbrev pub unit_of : Bool → ℕ → ℕ
unit_of wide ch = if wide then ch % 2 ^ 16 else if ltb ch 0x80 then ch else 0x3f

-- `len` is an `unsigned int`.
unfoldable pub put : Sink → ℕ → Sink
put s ch = record s {
  out = if ltb ((s.len + 1) % 2 ^ 32) s.cap then store s.out s.len (unit_of s.wide ch) else s.out;
  len = (s.len + 1) % 2 ^ 32;
}

unfoldable pub finish : Sink → Sink
finish s =
    if s.cap == 0
    then s
    else record s { out = store s.out (if ltb s.len s.cap then s.len else s.cap - 1) 0 }

-- while (count-- > 0) put(s, ch);
unfoldable pub pad : Sink → (count ch : ℕ) → Sink
unfolding put
pad s zero ch = s
pad s (suc count) ch = pad (put s ch) count ch

-- The loops that put one character of a string or of `tmp` after the other.
unfoldable pub put_all : Sink → List ℕ → Sink
unfolding put
put_all s [] = s
put_all s (c ∷ cs) = put_all (put s c) cs

-- ===== src/Runtime/Tests.antt =====
-- The formatter and the memory functions at small inputs, and the runtime's theorems at them.
use jornada_gpib.Prelude.{
  int_of, ◌/◌, ℕ, ◌%◌, ◌^◌, ◌<◌, ◌≡◌, refl, inr, true, false, List, [], ◌∷◌, some, length, get_or,
  arith,
}
use jornada_gpib.Runtime.Memory.{umodsi3, memmove, Memory}
use jornada_gpib.Runtime.Strings.{strlen_lem, strlen}
use jornada_gpib.Runtime.Digits.{number-digits, number}
use jornada_gpib.Runtime.Sink.{Sink}
use jornada_gpib.Runtime.Output.{format_lem, stored, rendered, text}
use jornada_gpib.Runtime.Format.{directive, format, Args}
use jornada_gpib.Runtime.Numbers.{tmp_size, digits}
use jornada_gpib.Runtime.Moves.{memmove-moved, umodsi3_lem, moved}

-- Memory in which each address holds its own number.
abbrev counting : Memory
counting i = i

-- Overlapping: 4 bytes from 10 to 12.
memmove-moved_example : memmove 12 10 4 counting 15 ≡ moved 12 10 4 counting 15
memmove-moved_example = memmove-moved 12 10 4 counting 15

overlapping : memmove 12 10 4 counting 15 ≡ 13
unfolding memmove
overlapping = refl

umodsi3_example : umodsi3 ◌/◌ 1000 7 ≡ 1000 % 7
umodsi3_example = umodsi3_lem ◌/◌ 1000 7 (omega arith) (omega arith) refl

strlen_example : strlen (65 ∷ 66 ∷ 0 ∷ 67 ∷ []) ≡ 2
strlen_example = strlen_lem (65 ∷ 66 ∷ []) (67 ∷ []) refl

number-digits_example : number 16 (digits tmp_size 0xbeef 16 true) ≡ 0xbeef
number-digits_example = number-digits 0xbeef 16 true (omega arith) (inr refl)

-- -5, then 0xbeef, then the string at address 8.
abbrev some_args : Args
some_args = record {
  word = λ i. get_or (0xfffffffb ∷ 0xbeef ∷ 8 ∷ []) i 0;
  wide_at = λ w. 72 ∷ 105 ∷ [];
  narrow_at = λ w. [];
}

-- "%4d|%06x|%-4s|%%"
abbrev some_format : List ℕ
some_format =
    0x25 ∷ 52 ∷ 100 ∷ 124 ∷ 0x25 ∷ 48 ∷ 54 ∷ 120 ∷ 124 ∷ 0x25 ∷ 45 ∷ 52 ∷ 115 ∷ 124 ∷ 0x25 ∷ 0x25
    ∷ []

-- "  -5|00beef|Hi  |%"
formatted :
    rendered some_args some_format
    ≡ 32 ∷ 32 ∷ 45 ∷ 53 ∷ 124 ∷ 48 ∷ 48 ∷ 98 ∷ 101 ∷ 101 ∷ 102 ∷ 124 ∷ 72 ∷ 105 ∷ 32 ∷ 32 ∷ 124 ∷ 37
      ∷ []
unfolding text directive digits
formatted = refl

abbrev small_sink : Sink
small_sink = record { wide = false; out = counting; cap = 8; len = 0 }

format_example :
    (s' : Sink) × (format some_args some_format small_sink
      ≡ some (s', int_of (length (rendered some_args some_format))))
    × ((i : ℕ) → s'.out i ≡ stored false counting 8 (rendered some_args some_format) i)
format_example = format_lem some_args some_format small_sink refl small
  where
    small : length (rendered some_args some_format) < 2 ^ 32
    small = rw formatted (omega arith)

-- ===== src/Runtime/Numbers.antt =====
-- Numbers and strings in src/rt/fmt.c. `tmp` is the list of its characters, the first one first;
-- a string is the list of its units before the NUL.
use jornada_gpib.Prelude.{
  ℕ, zero, suc, ◌+◌, ◌-◌, ◌/◌, ◌%◌, Bool, not, ◌&&◌, ◌==◌, ltb, if◌then◌else◌, List, [], ◌∷◌,
  length, get_or, Option, none, some,
}
use mathlib.Core.List.{reverse}
use jornada_gpib.Runtime.Sink.{Sink, pad, put_all}

abbrev upper_digits : List ℕ
upper_digits = 48 ∷ 49 ∷ 50 ∷ 51 ∷ 52 ∷ 53 ∷ 54 ∷ 55 ∷ 56 ∷ 57 ∷ 65 ∷ 66 ∷ 67 ∷ 68 ∷ 69 ∷ 70 ∷ []

abbrev lower_digits : List ℕ
lower_digits = 48 ∷ 49 ∷ 50 ∷ 51 ∷ 52 ∷ 53 ∷ 54 ∷ 55 ∷ 56 ∷ 57 ∷ 97 ∷ 98 ∷ 99 ∷ 100 ∷ 101 ∷ 102 ∷ []

-- set[d]
abbrev pub digit : Bool → ℕ → ℕ
digit upper d = get_or (if upper then upper_digits else lower_digits) d 0

-- The do-while loop of `digits`, for `rounds` rounds at most.
unfoldable pub digits : (rounds v base : ℕ) → (upper : Bool) → List ℕ
digits zero v base upper = []
digits (suc rounds) v base upper =
    let more = digits rounds (v / base) base upper in
    digit upper (v % base) ∷ (if v / base == 0 then [] else more)

-- `tmp` has 12 places.
abbrev pub tmp_size : ℕ
tmp_size = 12

-- width > total ? width - total : 0
abbrev pub fill_of : (width total : ℕ) → ℕ
fill_of width total = if ltb total width then width - total else 0

abbrev pub sign_of : Bool → List ℕ
sign_of negative = if negative then 0x2d ∷ [] else []

-- if (c) pad(s, fill, ch);
unfoldable pub pad_if : Bool → Sink → (count ch : ℕ) → Sink
unfolding pad
pad_if c s count ch = if c then pad s count ch else s

unfoldable pub emit_number :
    Sink → (v base : ℕ) → (upper negative : Bool) → (width : ℕ) → (left zero_fill : Bool) → Sink
unfolding put_all pad_if
emit_number s v base upper negative width left zero_fill =
    let tmp = digits tmp_size v base upper in
    let n = length tmp in
    let total = n + (if negative then 1 else 0) in
    let fill = fill_of width total in
    let s1 = pad_if (not left && not zero_fill) s fill 0x20 in
    let s2 = put_all s1 (sign_of negative) in
    let s3 = pad_if (not left && zero_fill) s2 fill 0x30 in
    let s4 = put_all s3 (reverse tmp) in pad_if left s4 fill 0x20

-- "(null)"
abbrev pub null_text : List ℕ
null_text = 0x28 ∷ 0x6e ∷ 0x75 ∷ 0x6c ∷ 0x6c ∷ 0x29 ∷ []

-- if (str == NULL) str = none;
abbrev pub text_or_null : Option (List ℕ) → List ℕ
text_or_null none = null_text
text_or_null (some str) = str

unfoldable pub emit_wstr : Sink → Option (List ℕ) → (width : ℕ) → (left : Bool) → Sink
unfolding put_all pad_if
emit_wstr s str width left =
    let text = text_or_null str in
    let fill = fill_of width (length text) in
    let s1 = pad_if (not left) s fill 0x20 in let s2 = put_all s1 text in pad_if left s2 fill 0x20

unfoldable pub emit_str : Sink → Option (List ℕ) → (width : ℕ) → (left : Bool) → Sink
unfolding put_all pad_if
emit_str s str width left =
    let text = text_or_null str in
    let fill = fill_of width (length text) in
    let s1 = pad_if (not left) s fill 0x20 in let s2 = put_all s1 text in pad_if left s2 fill 0x20

-- ===== src/Runtime/Rendered.antt =====
-- What the formatter prints, as a text without a buffer, and that the buffer gets as much of it as
-- fits.
use jornada_gpib.Prelude.{
  ℕ, zero, suc, ◌+◌, ◌%◌, ◌^◌, ◌≡◌, refl, ◌∙◌, ap, Bool, true, false, not, ◌&&◌, ◌||◌, ◌==◌,
  if◌then◌else◌, Option, List, [], ◌∷◌, ◌++◌, length, replicate, arith,
}
use mathlib.Core.List.{reverse, reverse_aux}
use jornada_gpib.Runtime.Sink.{Sink, put, put_all, pad}
use jornada_gpib.Runtime.Numbers.{
  digits, tmp_size, fill_of, sign_of, pad_if, emit_number, emit_wstr, emit_str, text_or_null,
}
use jornada_gpib.Runtime.Format.{Args, Directive, string_at, is_negative, magnitude, convert}

-- A field: blanks before or after, or zeros between the sign and the digits.
abbrev pub laid : (fill : ℕ) → (left zero_fill : Bool) → (sign body : List ℕ) → List ℕ
laid fill left zero_fill sign body =
    (if not left && not zero_fill then replicate fill 0x20 else [])
    ++ (sign
        ++ ((if not left && zero_fill then replicate fill 0x30 else [])
            ++ (body ++ (if left then replicate fill 0x20 else []))))

abbrev pub field : (width : ℕ) → (left zero_fill : Bool) → (sign body : List ℕ) → List ℕ
field width left zero_fill sign body =
    laid (fill_of width (length body + length sign)) left zero_fill sign body

abbrev pub number_text :
    (v base : ℕ) → (upper negative : Bool) → ℕ → (left zero_fill : Bool) → List ℕ
number_text v base upper negative width left zero_fill =
    field width left zero_fill (sign_of negative) (reverse (digits tmp_size v base upper))

-- What a directive prints, `w` the next argument.
abbrev pub piece : Args → Directive → ℕ → List ℕ
piece a d w =
    let c = d.conversion in
    if c == 0x64 || c == 0x69
    then number_text (magnitude w) 10 false (is_negative w) d.width d.left d.zero_fill
    else if c == 0x75
    then number_text w 10 false false d.width d.left d.zero_fill
    else if c == 0x78
    then number_text w 16 false false d.width d.left d.zero_fill
    else if c == 0x58
    then number_text w 16 true false d.width d.left d.zero_fill
    else if c == 0x70
    then 0x30 ∷ 0x78 ∷ number_text w 16 false false 8 false true
    else if c == 0x63
    then (w % 2 ^ 16) ∷ []
    else if c == 0x73
    then field d.width d.left false [] (text_or_null (string_at a.wide_at w))
    else if c == 0x53
    then field d.width d.left false [] (text_or_null (string_at a.narrow_at w))
    else if c == 0x25
    then 0x25 ∷ []
    else 0x25 ∷ c ∷ []

abbrev pub takes_arg : ℕ → Bool
takes_arg c =
    (c == 0x64 || c == 0x69)
    || c == 0x75
    || c == 0x78
    || c == 0x58
    || c == 0x70
    || c == 0x63
    || c == 0x73
    || c == 0x53

pub put_all-append : (s : Sink) (xs ys : List ℕ) → put_all s (xs ++ ys) ≡ put_all (put_all s xs) ys
unfolding put_all
put_all-append s [] ys = refl
put_all-append s (x ∷ xs) ys = put_all-append (put s x) xs ys

pad-replicate : (s : Sink) (n c : ℕ) → pad s n c ≡ put_all s (replicate n c)
unfolding pad put_all
pad-replicate s zero c = refl
pad-replicate s (suc n) c = pad-replicate (put s c) n c

pad_if_lem :
    (b : Bool) (s : Sink) (n c : ℕ) → pad_if b s n c ≡ put_all s (if b then replicate n c else [])
unfolding pad_if put_all
pad_if_lem true s n c = pad-replicate s n c
pad_if_lem false s n c = refl

length-reverse_aux : (xs ys : List ℕ) → length (reverse_aux xs ys) ≡ length xs + length ys
length-reverse_aux [] ys = omega arith
length-reverse_aux (x ∷ xs) ys = omega (arith, length-reverse_aux xs (x ∷ ys))

length-reverse : (xs : List ℕ) → length (reverse xs) ≡ length xs
length-reverse xs = length-reverse_aux xs [] ∙ omega arith

laid_lem :
    (s : Sink) (fill : ℕ) (left zero_fill : Bool) (sign body : List ℕ)
    → pad_if left
        (put_all
          (pad_if
            (not left && zero_fill)
            (put_all (pad_if (not left && not zero_fill) s fill 0x20) sign)
            fill
            0x30)
          body)
        fill
        0x20
      ≡ put_all s (laid fill left zero_fill sign body)
laid_lem s fill left zero_fill sign body = simp (pad_if_lem, put_all-append)

emit_number_lem :
    (s : Sink) (v base : ℕ) (upper negative : Bool) (width : ℕ) (left zero_fill : Bool)
    → emit_number s v base upper negative width left zero_fill
      ≡ put_all s (number_text v base upper negative width left zero_fill)
unfolding emit_number
emit_number_lem s v base upper negative width left zero_fill =
    laid_lem s _ left zero_fill (sign_of negative) (reverse (digits tmp_size v base upper))
    ∙ ap
        (λ n. put_all s (
          laid (fill_of width n) left zero_fill (sign_of negative)
            (reverse (digits tmp_size v base upper))))
        total
  where
    total :
        length (digits tmp_size v base upper) + (if negative then 1 else 0)
        ≡ length (reverse (digits tmp_size v base upper)) + length (sign_of negative)
    total = ground (arith, length-reverse (digits tmp_size v base upper))

plain_lem :
    (s : Sink) (fill : ℕ) (left : Bool) (body : List ℕ)
    → pad_if left (put_all (pad_if (not left) s fill 0x20) body) fill 0x20
      ≡ put_all s (laid fill left false [] body)
unfolding put_all
plain_lem s fill true body = simp (pad_if_lem, put_all-append)
plain_lem s fill false body = simp (pad_if_lem, put_all-append)

emit_text_lem :
    (s : Sink) (width : ℕ) (left : Bool) (text : List ℕ)
    → pad_if left
        (put_all (pad_if (not left) s (fill_of width (length text)) 0x20) text)
        (fill_of width (length text))
        0x20
      ≡ put_all s (field width left false [] text)
emit_text_lem s width left text =
    plain_lem s _ left text
    ∙ ap (λ n. put_all s (laid (fill_of width n) left false [] text)) (omega arith)

emit_wstr_lem :
    (s : Sink) (str : Option (List ℕ)) (width : ℕ) (left : Bool)
    → emit_wstr s str width left ≡ put_all s (field width left false [] (text_or_null str))
unfolding emit_wstr
emit_wstr_lem s str width left = emit_text_lem s width left (text_or_null str)

emit_str_lem :
    (s : Sink) (str : Option (List ℕ)) (width : ℕ) (left : Bool)
    → emit_str s str width left ≡ put_all s (field width left false [] (text_or_null str))
unfolding emit_str
emit_str_lem s str width left = emit_text_lem s width left (text_or_null str)

-- One directive prints its piece, and takes an argument if it has a use for one.
pub convert_lem :
    (a : Args) (d : Directive) (w : ℕ) (s : Sink)
    → convert a d w s ≡ (put_all s (piece a d w), takes_arg d.conversion)
unfolding convert put_all
convert_lem a d w s = simp (emit_number_lem, emit_wstr_lem, emit_str_lem) (ground arith)

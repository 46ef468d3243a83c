-- ===== src/Gateway/Words.antt =====
-- The words and numbers of a controller command in src/gpibsrv/gpibsrv.c. A string is the bytes before
-- its NUL.
use jornada_gpib.Prelude.{
  ℕ, ◌+◌, ◌-◌, ◌*◌, ◌%◌, ◌^◌, Bool, true, false, not, ◌&&◌, ◌==◌, leb, if◌then◌else◌, List, [], ◌∷◌,
  ℤ, int_of,
}

-- The string at an address: the bytes before the first NUL.
unfoldable pub c_string : List ℕ → List ℕ
c_string [] = []
c_string (c ∷ cs) = let rest = c ∷ c_string cs in if c == 0 then [] else rest

-- while (*s == ' ') s++;
abbrev pub skip_spaces : List ℕ → List ℕ
skip_spaces [] = []
skip_spaces (c ∷ cs) = let rest = skip_spaces cs in if c == 0x20 then rest else c ∷ cs

-- The loop over the digits, `v` the pattern of the `int`, which wraps in the machine, and `any`.
abbrev pub read_digits : (v : ℕ) (any : Bool) → List ℕ → ℕ × Bool
read_digits v any [] = (v, any)
read_digits v any (c ∷ cs) =
    let rest = read_digits ((v * 10 + (c - 0x30)) % 2 ^ 32) true cs in
    if leb 0x30 c && leb c 0x39 then rest else (v, any)

-- `*out`, and what is returned.
unfoldable pub parse_int : List ℕ → ℤ × Bool
parse_int s = let (v, any) = read_digits 0 false (skip_spaces s) in (int_of v, any)

-- while (*s != 0 && *s != ' ') s++;
abbrev pub skip_letters : List ℕ → List ℕ
skip_letters [] = []
skip_letters (c ∷ cs) = let rest = skip_letters cs in if not (c == 0x20) then rest else c ∷ cs

unfoldable pub skip_word : List ℕ → List ℕ
skip_word s = skip_spaces (skip_letters s)

-- s[i] == 0 || s[i] == ' '
abbrev pub at_end : List ℕ → Bool
at_end [] = true
at_end (c ∷ cs) = c == 0x20

unfoldable pub starts_with : (s word : List ℕ) → Bool
starts_with s [] = at_end s
starts_with [] (w ∷ ws) = false
starts_with (c ∷ cs) (w ∷ ws) = let rest = starts_with cs ws in if not (c == w) then false else rest

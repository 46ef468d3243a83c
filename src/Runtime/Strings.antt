-- ===== src/Runtime/Strings.antt =====
-- src/rt/crt.c, the functions on strings. Here a string is the units of memory from its address on,
-- the NUL and what comes after it included; past the end of the list the memory reads as NUL.
use jornada_gpib.Prelude.{
  ◌↔◌, ℕ, zero, suc, ◌-◌, ◌<◌, ◌≡◌, refl, Bool, true, not, ◌&&◌, ◌==◌, if◌then◌else◌, List, [], ◌∷◌,
  ◌++◌, length, take, ℤ, pos, sub_ℕ, arith,
}

-- while (s[n] != 0) n++;
unfoldable pub strlen : List ℕ → ℕ
strlen [] = 0
strlen (c ∷ cs) = let rest = suc (strlen cs) in if c == 0 then 0 else rest

unfoldable pub wcslen : List ℕ → ℕ
wcslen [] = 0
wcslen (c ∷ cs) = let rest = suc (wcslen cs) in if c == 0 then 0 else rest

unfoldable pub wcscmp : List ℕ → List ℕ → ℤ
wcscmp [] [] = pos 0
wcscmp [] (b ∷ bs) = sub_ℕ 0 b
wcscmp (a ∷ as') [] = sub_ℕ a 0
wcscmp (a ∷ as') (b ∷ bs) =
    let rest = wcscmp as' bs in if not (a == 0) && a == b then rest else sub_ℕ a b

-- The units stored from `dst` on, `room` the places up to the last one of the buffer.
abbrev pub copy_units : (room : ℕ) → List ℕ → List ℕ
copy_units zero src = 0 ∷ []
copy_units (suc room) [] = 0 ∷ []
copy_units (suc room) (c ∷ cs) =
    let rest = c ∷ copy_units room cs in if c == 0 then 0 ∷ [] else rest

unfoldable pub wcscpy_n : (cap : ℕ) → List ℕ → List ℕ
wcscpy_n zero src = []
wcscpy_n (suc room) src = copy_units room src

abbrev pub no_nul : List ℕ → Bool
no_nul [] = true
no_nul (c ∷ cs) = not (c == 0) && no_nul cs

-- A string is as long as the units before its first NUL.
pub strlen_lem : (s rest : List ℕ) → no_nul s ≡ true → strlen (s ++ 0 ∷ rest) ≡ length s
unfolding strlen
strlen_lem [] rest h = refl
strlen_lem (c ∷ cs) rest h = ground (arith, strlen_lem cs rest)

copy_units_lem :
    (room : ℕ) (s rest : List ℕ)
    → no_nul s ≡ true
    → copy_units room (s ++ 0 ∷ rest) ≡ take room s ++ 0 ∷ []
copy_units_lem zero s rest h = refl
copy_units_lem (suc room) [] rest h = refl
copy_units_lem (suc room) (c ∷ cs) rest h = ground (arith, copy_units_lem room cs rest)

-- What `rt_wcscpy_n` stores: as much of the string as fits before the last place, and a NUL.
pub wcscpy_n_lem :
    (cap : ℕ) (s rest : List ℕ)
    → 0 < cap
    → no_nul s ≡ true
    → wcscpy_n cap (s ++ 0 ∷ rest) ≡ take (cap - 1) s ++ 0 ∷ []
unfolding wcscpy_n
wcscpy_n_lem zero s rest h n = absurd (omega arith)
wcscpy_n_lem (suc room) s rest h n = rw suc-sub_one (copy_units_lem room s rest n)
  where
    suc-sub_one : suc room - 1 ≡ room
    suc-sub_one = omega arith

-- `rt_wcscmp` gives 0 exactly if two strings are equal.
pub wcscmp-eq-zero :
    (s t rest rest' : List ℕ)
    → no_nul s ≡ true
    → no_nul t ≡ true
    → (wcscmp (s ++ 0 ∷ rest) (t ++ 0 ∷ rest') ≡ pos 0) ↔ (s ≡ t)
unfolding wcscmp
wcscmp-eq-zero [] [] rest rest' h k = (λ e. refl, λ e. refl)
wcscmp-eq-zero [] (b ∷ bs) rest rest' h k = (λ e. absurd (ground arith), λ e. cc)
wcscmp-eq-zero (a ∷ as') [] rest rest' h k = (λ e. absurd (ground arith), λ e. cc)
wcscmp-eq-zero (a ∷ as') (b ∷ bs) rest rest' h k =
    let ih = wcscmp-eq-zero as' bs rest rest' (ground arith) (ground arith) in
    (λ e. ground (arith, e, ih.0), λ e. ground (arith, e, ih.1))

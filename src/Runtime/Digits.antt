-- ===== src/Runtime/Digits.antt =====
-- The digits of a number, read back.
use jornada_gpib.Prelude.{
  ℕ, zero, suc, ◌+◌, ◌-◌, ◌*◌, ◌/◌, ◌%◌, ◌^◌, ◌<◌, ◌≡◌, refl, ◌⊎◌, inl, inr, Bool, true, false,
  ◌==◌, ltb, if◌then◌else◌, Bool-cases, List, [], ◌∷◌, holds_below, holds_below-at, arith,
}
use jornada_gpib.Runtime.Numbers.{digit, digits, tmp_size}

-- The number that a digit stands for, in either case.
abbrev pub digit_value : ℕ → ℕ
digit_value c = if ltb c 0x3a then c - 0x30 else if ltb c 0x47 then c - 0x37 else c - 0x57

-- The number that digits spell, the lowest first.
abbrev pub number : (base : ℕ) → List ℕ → ℕ
number base [] = 0
number base (c ∷ cs) = digit_value c + base * number base cs

digit_value-digit : (upper : Bool) (d : ℕ) → d < 16 → digit_value (digit upper d) ≡ d
digit_value-digit upper d h = ground (arith, value upper)
  where
    value : (b : Bool) → (digit_value (digit b d) == d) ≡ true
    value true =
        unfold holds_below in holds_below-at (λ k. digit_value (digit true k) == k) d h refl
    value false =
        unfold holds_below in holds_below-at (λ k. digit_value (digit false k) == k) d h refl

-- base ^ rounds, as a product
abbrev pub power : (base rounds : ℕ) → ℕ
power base zero = 1
power base (suc rounds) = base * power base rounds

number-digits_ten :
    (rounds v : ℕ) (upper : Bool) → v < power 10 rounds → number 10 (digits rounds v 10 upper) ≡ v
unfolding digits
number-digits_ten zero v upper h = omega arith
number-digits_ten (suc rounds) v upper h = elim (Bool-cases (v / 10 == 0)) [
  | inl last ↦ rw last (ground (arith, last, digit_value-digit upper (v % 10)))
  | inr more ↦ rw more (
      ground
        (arith, more, digit_value-digit upper (v % 10), number-digits_ten rounds (v / 10) upper))
]

number-digits_sixteen :
    (rounds v : ℕ) (upper : Bool) → v < power 16 rounds → number 16 (digits rounds v 16 upper) ≡ v
unfolding digits
number-digits_sixteen zero v upper h = omega arith
number-digits_sixteen (suc rounds) v upper h = elim (Bool-cases (v / 16 == 0)) [
  | inl last ↦ rw last (ground (arith, last, digit_value-digit upper (v % 16)))
  | inr more ↦ rw more (
      ground (
        arith,
        more,
        digit_value-digit upper (v % 16),
        number-digits_sixteen rounds (v / 16) upper,
      ))
]

-- In both bases the digits of a 32-bit number spell it, so the 12 places of `tmp` are enough.
pub number-digits :
    (v base : ℕ) (upper : Bool)
    → v < 2 ^ 32
    → (base ≡ 10) ⊎ (base ≡ 16)
    → number base (digits tmp_size v base upper) ≡ v
number-digits v base upper h (inl e) = rw e (number-digits_ten tmp_size v upper (omega arith))
number-digits v base upper h (inr e) = rw e (number-digits_sixteen tmp_size v upper (omega arith))

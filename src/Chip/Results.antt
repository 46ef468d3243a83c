-- ===== src/Chip/Results.antt =====
-- What a function returns, whatever the card answers: one rule for each way to build a function.
use jornada_gpib.Prelude.{subst, ◌≡◌, refl, Bool, true, false, if◌then◌else◌}
use jornada_gpib.Chip.Io.{World, Run, done, spin, M, and_then, ◌>>=◌, pure, out_of_rounds}
use jornada_gpib.Chip.Protocol.Rules.{Holds}

-- Where the function returns, `P` holds of the result.
pub record Yields {A : Type 0} (P : A → Type 0) (m : M A) : Type 0 where
  pub at : (w : World) → Holds (λ a _. P a) (m w)

Holds-then :
    {A B : Type 0} {P : A → Type 0} {Q : B → Type 0} (r : Run A) (f : A → M B)
    → Holds (λ a _. P a) r
    → ((a : A) → P a → Yields Q (f a))
    → Holds (λ b _. Q b) (and_then r f)
Holds-then (done a u) f h g = (g a h).at u
Holds-then spin f h g = tt

pub Yields-bind :
    {A B : Type 0} {P : A → Type 0} {Q : B → Type 0} (m : M A) (f : A → M B)
    → Yields P m
    → ((a : A) → P a → Yields Q (f a))
    → Yields Q (m >>= f)
Yields-bind m f h g = record { at = λ w. Holds-then (m w) f (h.at w) g }

Holds-any : {A : Type 0} (r : Run A) → Holds (λ _ _. Unit {0}) r
Holds-any (done a u) = tt
Holds-any spin = tt

-- Whatever the first part returns.
pub Yields-after :
    {A B : Type 0} {Q : B → Type 0} (m : M A) (f : A → M B)
    → ((a : A) → Yields Q (f a))
    → Yields Q (m >>= f)
Yields-after m f g = record {
  at = λ w. Holds-then {P = λ _. Unit {0}} (m w) f (Holds-any (m w)) (λ a h. g a);
}

pub Yields-pure : {A : Type 0} {P : A → Type 0} (a : A) → P a → Yields P (pure a)
unfolding pure
Yields-pure a p = record { at = λ w. p }

pub Yields-out_of_rounds : {A : Type 0} {P : A → Type 0} → Yields P out_of_rounds
unfolding out_of_rounds
Yields-out_of_rounds = record { at = λ w. tt }

pub Yields-if :
    {A : Type 0} {P : A → Type 0} (b : Bool) (m n : M A)
    → (b ≡ true → Yields P m)
    → (b ≡ false → Yields P n)
    → Yields P (if b then m else n)
Yields-if true m n f g = f refl
Yields-if false m n f g = g refl

pub Yields-done :
    {A : Type 0} {P : A → Type 0} {m : M A} {w w' : World} {a : A}
    → Yields P m
    → m w ≡ done a w'
    → P a
Yields-done {P = P} {w = w} h e = subst (Holds (λ a _. P a)) e (h.at w)

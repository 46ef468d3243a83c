-- ===== src/Controller/Emits.antt =====
-- What a run writes to the FIFO, in the manner of a program logic: one rule for each way to build a
-- function.
use jornada_gpib.Prelude.{
  ℕ, ◌≡◌, refl, ◌∙◌, sym, ap, List, [], ◌++◌, append-nil, append_assoc, Bool, true, false,
  if◌then◌else◌,
}
use jornada_gpib.Chip.Io.{World, Run, done, spin, M, and_then, ◌>>=◌, pure}
use jornada_gpib.Chip.Protocol.Rules.{Traced, Holds}
use jornada_gpib.Chip.Transfer.Output.{fifo_out}
use jornada_gpib.Chip.Transfer.Silent.{Traced-fifo_out}
use jornada_gpib.Chip.Protocol.Steps.{still}

-- `bs` is what went to the FIFO between the two worlds.
abbrev pub Added : List ℕ → World → World → Type 0
Added bs w w' = fifo_out w'.log ≡ fifo_out w.log ++ bs

-- Where the run returns, `Q` holds of the result and of the bytes written to the FIFO.
abbrev Wrote : {A : Type 0} → (A → List ℕ → Type 0) → World → Run A → Type 0
Wrote Q w r = Holds (λ a w'. (bs : List ℕ) × Added bs w w' × Q a bs) r

pub record Emits {A : Type 0} (w : World) (m : M A) (Q : A → List ℕ → Type 0) : Type 0 where
  pub out : Wrote Q w (m w)

weaken :
    {A : Type 0} (Q R : A → List ℕ → Type 0) (w : World) (r : Run A)
    → ((a : A) (bs : List ℕ) → Q a bs → R a bs)
    → Wrote Q w r
    → Wrote R w r
weaken Q R w (done a w') f (bs, h, q) = (bs, h, f a bs q)
weaken Q R w spin f h = tt

pub Emits-weaken :
    {A : Type 0} {Q R : A → List ℕ → Type 0} {w : World} {m : M A}
    → Emits w m Q
    → ((a : A) (bs : List ℕ) → Q a bs → R a bs)
    → Emits w m R
Emits-weaken {Q = Q} {R = R} {w = w} {m = m} h f = record { out = weaken Q R w (m w) f h.out }

silent :
    {A : Type 0} (w : World) (r : Run A)
    → Holds (λ _ w'. fifo_out w'.log ≡ fifo_out w.log) r
    → Wrote (λ _ bs. bs ≡ []) w r
silent w (done a w') h = ([], h ∙ sym (append-nil _), refl)
silent w spin h = tt

pub Emits-silent : {A : Type 0} {w : World} (m : M A) → Traced still m → Emits w m (λ _ bs. bs ≡ [])
Emits-silent {w = w} m t = record { out = silent w (m w) (Traced-fifo_out m w t) }

pub Emits-pure :
    {A : Type 0} {Q : A → List ℕ → Type 0} {w : World} (a : A) → Q a [] → Emits w (pure a) Q
unfolding pure
Emits-pure a q = record { out = ([], sym (append-nil _), q) }

after :
    {B : Type 0} (R : B → List ℕ → Type 0) (bs : List ℕ) (w u : World) (r : Run B)
    → Added bs w u
    → Wrote (λ b cs. R b (bs ++ cs)) u r
    → Wrote R w r
after R bs w u (done b w') h (cs, g, q) =
    (bs ++ cs, g ∙ ap (λ l. l ++ cs) h ∙ append_assoc _ bs cs, q)
after R bs w u spin h g = tt

bind :
    {A B : Type 0} (Q : A → List ℕ → Type 0) (R : B → List ℕ → Type 0) (w : World) (r : Run A)
    (f : A → M B)
    → Wrote Q w r
    → ((a : A) (bs : List ℕ) (u : World) → Q a bs → Emits u (f a) (λ b cs. R b (bs ++ cs)))
    → Wrote R w (and_then r f)
bind Q R w (done a u) f (bs, h, q) g = after R bs w u (f a u) h (g a bs u q).out
bind Q R w spin f h g = tt

pub Emits-bind :
    {A B : Type 0} {Q : A → List ℕ → Type 0} {R : B → List ℕ → Type 0} {w : World} {m : M A}
    {f : A → M B}
    → Emits w m Q
    → ((a : A) (bs : List ℕ) (u : World) → Q a bs → Emits u (f a) (λ b cs. R b (bs ++ cs)))
    → Emits w (m >>= f) R
Emits-bind {Q = Q} {R = R} {w = w} {m = m} {f = f} h g = record { out = bind Q R w (m w) f h.out g }

-- A function that writes nothing may come first.
pub Emits-after :
    {A B : Type 0} {R : B → List ℕ → Type 0} {w : World} {m : M A} {f : A → M B}
    → Traced still m
    → ((a : A) (u : World) → Emits u (f a) R)
    → Emits w (m >>= f) R
Emits-after {R = R} {m = m} {f = f} t g =
    Emits-bind {Q = λ _ bs. bs ≡ []} (Emits-silent m t) (λ a bs u e. rw e (g a u))

pub Emits-if :
    {A : Type 0} {R : A → List ℕ → Type 0} {w : World} (b : Bool) {m n : M A}
    → (b ≡ true → Emits w m R)
    → (b ≡ false → Emits w n R)
    → Emits w (if b then m else n) R
Emits-if true f g = f refl
Emits-if false f g = g refl

-- ===== src/Chip/Protocol/Rules.antt =====
-- A function is `Traced` when, from every world, it gets to where it returns by steps of the
-- protocol. One rule for each way to build a function.
use jornada_gpib.Prelude.{
  refl, ℕ, ◌%◌, ◌^◌, subst, u8, not, ◌==◌, ◌||◌, ◌≡◌, Bool, true, false, Option, none, some,
  if◌then◌else◌, arith,
}
use jornada_gpib.Chip.Io.{
  Io, Chip, World, Run, done, spin, M, and_then, ◌>>=◌, pure, out_of_rounds, unless_stopped, chip,
  modify, rd, wr, now_ms, delay_us, yield,
}
use jornada_gpib.Chip.Status.{Status, ok}
use jornada_gpib.Chip.Reg
use jornada_gpib.Chip.Access.{if_ok, auxmr, cmdr, set_auxra, set_auxrb, set_auxri, set_auxrg}
use jornada_gpib.Chip.Protocol.Steps.{
  feed, feeding, Mode, is_auxra, is_auxrb, is_auxri, is_auxrg, is_order, Keeps, SameAux, look, poke,
  rest, tick, pass, note, order, instruct, put_auxra, put_auxrb, put_auxri, put_auxrg, Steps, here,
  one, Steps-trans,
}

-- Where the run returns, `Q` holds of the result and of the world.
abbrev pub Holds : {A : Type 0} → (A → World → Type 0) → Run A → Type 0
Holds Q (done a w) = Q a w
Holds Q spin = Unit {0}

-- None of AUXMR, CMDR and the FIFO.
abbrev pub is_plain : ℕ → Bool
is_plain off = not (off == Reg.auxmr || off == Reg.cmdr || off == Reg.fifob)

pub record Traced (mode : Mode) {A : Type 0} (m : M A) : Type 0 where
  pub at : (w : World) → Holds (λ _. Steps mode w) (m w)

Holds-trans :
    {mode : Mode} {B : Type 0} {w u : World} (r : Run B)
    → Steps mode w u
    → Holds (λ _. Steps mode u) r
    → Holds (λ _. Steps mode w) r
Holds-trans (done b v) s h = Steps-trans s h
Holds-trans spin s h = tt

Holds-bind :
    {mode : Mode} {A B : Type 0} (f : A → M B) (w : World) (r : Run A)
    → Holds (λ _. Steps mode w) r
    → ((a : A) → Traced mode (f a))
    → Holds (λ _. Steps mode w) (and_then r f)
Holds-bind f w spin h t = tt
Holds-bind f w (done a u) h t = Holds-trans (f a u) h ((t a).at u)

module _ {mode : Mode} where
  pub Traced-bind :
      {A B : Type 0} (m : M A) (f : A → M B)
      → Traced mode m
      → ((a : A) → Traced mode (f a))
      → Traced mode (m >>= f)
  Traced-bind m f tm tf = record { at = λ w. Holds-bind f w (m w) (tm.at w) tf }

  pub Traced-if :
      {A : Type 0} (b : Bool) (m n : M A)
      → Traced mode m
      → Traced mode n
      → Traced mode (if b then m else n)
  Traced-if true m n tm tn = tm
  Traced-if false m n tm tn = tn

  pub Traced-unless_stopped :
      {A B : Type 0} (o : Option A) (leave : A → M B) (again : M B)
      → ((a : A) → Traced mode (leave a))
      → Traced mode again
      → Traced mode (unless_stopped o leave again)
  Traced-unless_stopped (some a) leave again tl ta = tl a
  Traced-unless_stopped none leave again tl ta = ta

  pub Traced-if_ok : (rc : Status) (m : M Status) → Traced mode m → Traced mode (if_ok rc m)
  unfolding if_ok pure
  Traced-if_ok ok m t = t
  Traced-if_ok rc m t = record { at = λ w. here }

  pub Traced-pure : {A : Type 0} (a : A) → Traced mode (pure a)
  unfolding pure
  Traced-pure a = record { at = λ w. here }

  pub Traced-out_of_rounds : {A : Type 0} → Traced mode (out_of_rounds {A = A})
  unfolding out_of_rounds
  Traced-out_of_rounds = record { at = λ w. tt }

  pub Traced-chip : Traced mode chip
  unfolding chip
  Traced-chip = record { at = λ w. here }

  pub Traced-modify : (f : Chip → Chip) → ((c : Chip) → SameAux c (f c)) → Traced mode (modify f)
  unfolding modify
  Traced-modify f same = record { at = λ w. one (note (f w.chip) w (same w.chip)) }

  pub Traced-delay_us : (us : ℕ) → Traced mode (delay_us us)
  unfolding delay_us
  Traced-delay_us us = record { at = λ w. one (rest us w) }

  pub Traced-yield : Traced mode yield
  unfolding yield
  Traced-yield = record { at = λ w. one (pass w) }

  pub Traced-wr : (off v : ℕ) → is_plain off ≡ true → Traced mode (wr off v)
  unfolding wr
  Traced-wr off v p = record {
    at = λ w. one (poke off (u8 v) w (ground arith) (ground arith) (ground arith));
  }

  pub Traced-cmdr : (v : ℕ) → Traced mode (cmdr v)
  unfolding cmdr
  Traced-cmdr v = record { at = λ w. one (instruct v w) }

  pub Traced-auxmr : (v : ℕ) → is_order v ≡ true → Traced mode (auxmr v)
  unfolding auxmr
  Traced-auxmr v p = record { at = λ w. one (order v w p) }

  pub Traced-set_auxra : (f : ℕ → ℕ) → Keeps is_auxra f → Traced mode (set_auxra f)
  unfolding set_auxra
  Traced-set_auxra f k = record { at = λ w. one (put_auxra f w k) }

  pub Traced-set_auxrb : (f : ℕ → ℕ) → Keeps is_auxrb f → Traced mode (set_auxrb f)
  unfolding set_auxrb
  Traced-set_auxrb f k = record { at = λ w. one (put_auxrb f w k) }

  pub Traced-set_auxri : (f : ℕ → ℕ) → Keeps is_auxri f → Traced mode (set_auxri f)
  unfolding set_auxri
  Traced-set_auxri f k = record { at = λ w. one (put_auxri f w k) }

  pub Traced-set_auxrg : (f : ℕ → ℕ) → Keeps is_auxrg f → Traced mode (set_auxrg f)
  unfolding set_auxrg
  Traced-set_auxrg f k = record { at = λ w. one (put_auxrg f w k) }

module _ ⦃io : Io⦄ {mode : Mode} where
  pub Traced-rd : (off : ℕ) → Traced mode (rd off)
  unfolding rd
  Traced-rd off = record { at = λ w. one (look off (u8 (io.read8 w.log off)) w) }

  pub Traced-now_ms : Traced mode now_ms
  unfolding now_ms
  Traced-now_ms = record { at = λ w. one (tick (io.now_ms w.log % 2 ^ 32) w) }

pub Traced-feed : (v : ℕ) → Traced feeding (wr Reg.fifob v)
unfolding wr
Traced-feed v = record { at = λ w. one (feed (u8 v) w refl) }

pub ruleset traced = (
  Traced-bind, Traced-if, Traced-unless_stopped, Traced-if_ok, Traced-pure, Traced-out_of_rounds,
  Traced-chip, Traced-delay_us, Traced-yield, Traced-cmdr, Traced-rd, Traced-now_ms, Traced-wr,
  Traced-auxmr,
)

module _ {mode : Mode} {A : Type 0} where
  pub Traced-Steps :
      {m : M A} {w : World} {a : A} {w' : World} → Traced mode m → m w ≡ done a w' → Steps mode w w'
  Traced-Steps {w} t e = subst (Holds (λ _. Steps mode w)) e (t.at w)

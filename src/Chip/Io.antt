-- ===== src/Chip/Io.antt =====
-- The chip driver's state, its access to the hardware, and the monad of its functions.
--
-- `tnt_io` (include/gpib/tnt4882.h) is a table of callbacks over an opaque `ctx`. The driver sees
-- of the card and of the clock only what `read8` and `now_ms` return, so `ctx` is the history of
-- the calls made through the table, and a card with its clock answers as a function of it.
use jornada_gpib.Prelude.{ℕ, ◌≡◌, refl, ◌%◌, ◌^◌, List, ◌∷◌, Option, none, some, ℤ, u8}

-- One call through `tnt_io`: a register read with its value, a register write, a delay, a clock
-- read with its value, a yield.
pub data Event : Type 0 where
  saw : ℕ → ℕ → Event
  wrote : ℕ → ℕ → Event
  paused : ℕ → Event
  ticked : ℕ → Event
  yielded : Event

-- The newest call first.
abbrev pub History : Type 0
History = List Event

-- What answers the calls: any card and any clock.
pub record Io : Type 0 where
  pub read8 : History → ℕ → ℕ
  pub now_ms : History → ℕ

-- `tnt_chip`, without the `io` pointer, which is the argument of each function here.
pub record Chip : Type 0 where
  pub pad : ℕ
  pub sad : ℤ
  pub auxra : ℕ
  pub auxrb : ℕ
  pub auxrg : ℕ
  pub auxri : ℕ
  pub isr1 : ℕ
  pub isr2 : ℕ
  pub eos : ℕ
  pub eos_flags : ℕ
  pub timeout_ms : ℕ
  pub t1_ns : ℕ
  pub csr : ℕ

pub record World : Type 0 where
  pub chip : Chip
  pub log : History

-- `spin`: the rounds that were granted to a polling loop are used up and it is still polling.
pub data Run (A : Type 0) : Type 0 where
  done : A → World → Run A
  spin : Run A

abbrev pub M : Type 0 → Type 0
M A = World → Run A

abbrev pub and_then : {A B : Type 0} → Run A → (A → M B) → Run B
and_then (done a w) f = f a w
and_then spin f = spin

infixl 8 ◌>>◌ ◌>>=◌
abbrev pub ◌>>=◌ : {A B : Type 0} → M A → (A → M B) → M B
◌>>=◌ first rest w = and_then (first w) rest

abbrev pub ◌>>◌ : {B : Type 0} → M (Unit {0}) → M B → M B
◌>>◌ first rest = first >>= λ _. rest

unfoldable pub pure : {A : Type 0} → A → M A
pure a w = done a w

unfoldable pub out_of_rounds : {A : Type 0} → M A
out_of_rounds w = spin

-- A run that returns went through its first part, and then through the rest.
pub and_then-eq-done :
    {A B : Type 0} (r : Run A) (f : A → M B) {b : B} {w : World}
    → and_then r f ≡ done b w
    → (a : A) × (u : World) × (r ≡ done a u) × (f a u ≡ done b w)
and_then-eq-done (done a u) f e = (a, u, refl, e)
and_then-eq-done spin f e = cc

-- `break` out of a loop with a code, or go on.
abbrev pub unless_stopped : {A B : Type 0} → Option A → (A → M B) → M B → M B
unless_stopped (some rc) leave again = leave rc
unless_stopped none leave again = again

-- The fields of the chip structure.
unfoldable pub chip : M Chip
chip w = done w.chip w

unfoldable pub modify : (Chip → Chip) → M (Unit {0})
modify f w = done tt (record w { chip = f w.chip })

-- The callbacks. `W` casts what it writes to a byte.
module _ ⦃io : Io⦄ where
  unfoldable pub rd : ℕ → M ℕ
  rd off w = let v = u8 (io.read8 w.log off) in done v (record w { log = saw off v ∷ w.log })

  unfoldable pub now_ms : M ℕ
  now_ms w = let t = io.now_ms w.log % 2 ^ 32 in done t (record w { log = ticked t ∷ w.log })

unfoldable pub wr : ℕ → ℕ → M (Unit {0})
wr off v w = done tt (record w { log = wrote off (u8 v) ∷ w.log })

unfoldable pub delay_us : ℕ → M (Unit {0})
delay_us us w = done tt (record w { log = paused us ∷ w.log })

unfoldable pub yield : M (Unit {0})
yield w = done tt (record w { log = yielded ∷ w.log })

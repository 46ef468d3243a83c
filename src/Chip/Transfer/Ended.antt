-- ===== src/Chip/Transfer/Ended.antt =====
-- The END status during `tnt_read`: ISR1 is cleared when it is read, so `tnt_chip` accumulates it.
pub mod Read
use jornada_gpib.Prelude.{
  ℕ, zero, suc, ◌<◌, ◌≡◌, refl, sym, subst, Bool, Bool-cases, inl, inr, true, false, not, ◌&&◌,
  ◌||◌, ◌==◌, ltb, if◌then◌else◌, has, clear, bit_or, u8, List, [], ◌∷◌, ◌++◌, length, arith,
  holds_below, holds_below-at,
}
use jornada_gpib.Chip.Io.{
  Io, saw, wrote, History, World, Run, done, spin, M, and_then, and_then-eq-done, ◌>>=◌, pure,
  out_of_rounds, chip, rd, yield,
}
use jornada_gpib.Chip.Status.{Status, ok, etimeout}
use jornada_gpib.Chip.Reg
use jornada_gpib.Chip.Bits.{hr_end, tnt_go, tnt_befn, tnt_max_transfer}
use jornada_gpib.Chip.Access.{poll_status}
use jornada_gpib.Chip.Deadline.{Deadline, deadline_start, deadline_expired}
use jornada_gpib.Chip.Protocol.Rules.{Holds}
use jornada_gpib.Chip.Transfer.{
  drain_round, drain_fifo, read, read_round, read_loop, late_end, start_in, finish_in, hold_off,
}

-- Since the newest GO command, a read of ISR1 showed END.
abbrev pub seen_end : History → Bool
seen_end [] = false
seen_end (saw off v ∷ h) = (off == Reg.isr1 && has v hr_end) || seen_end h
seen_end (wrote off v ∷ h) = not (off == Reg.cmdr && v == tnt_go) && seen_end h
seen_end (e ∷ h) = seen_end h

-- The accumulated ISR1 is a byte, and shows END only if the chip did; so does `b`.
abbrev pub Witnessed : Bool → World → Type 0
Witnessed b w =
    (w.chip.isr1 < 256)
    × (has w.chip.isr1 hr_end ≡ true → seen_end w.log ≡ true)
    × (b ≡ true → seen_end w.log ≡ true)

-- With `b` known to be true only if END was seen, the part ends with its flag known like that too.
pub record Observes (b : Bool) {A : Type 0} (flag : A → Bool) (m : M A) : Type 0 where
  pub at : (w : World) → Witnessed b w → Holds (λ a. Witnessed (b || flag a)) (m w)

abbrev pub nothing : {A : Type 0} → A → Bool
nothing a = false

abbrev pub or_byte : ℕ → ℕ → Bool
or_byte a b =
    ltb (bit_or a b) 256 && (not (has (bit_or a b) hr_end) || has a hr_end || has b hr_end)

pub or_bytes : (a b : ℕ) → a < 256 → b < 256 → or_byte a b ≡ true
or_bytes a b h k =
    unfold holds_below in
    holds_below-at (or_byte a) b k (holds_below-at (λ x. holds_below (or_byte x) 256) a h refl)

pub clear_byte :
    (a : ℕ) → a < 256 → (ltb (clear a hr_end) 256 && not (has (clear a hr_end) hr_end)) ≡ true
clear_byte a h =
    unfold holds_below in
    holds_below-at (λ x. ltb (clear x hr_end) 256 && not (has (clear x hr_end) hr_end)) a h refl

Witnessed-weaken :
    {B : Type 0} (b c : Bool) (g : B → Bool) (r : Run B)
    → Holds (λ x. Witnessed ((b || c) || g x)) r
    → Holds (λ x. Witnessed (b || g x)) r
Witnessed-weaken b c g spin h = tt
Witnessed-weaken b c g (done x v) h = (h.0, h.1, λ e. h.2 (ground (arith, e)))

Holds-observed :
    {A B : Type 0} (b : Bool) (f : A → Bool) (g : B → Bool) (r : Run A) (k : A → M B)
    → Holds (λ a. Witnessed (b || f a)) r
    → ((a : A) → Observes (b || f a) g (k a))
    → Holds (λ a. Witnessed (b || g a)) (and_then r k)
Holds-observed b f g spin k h o = tt
Holds-observed b f g (done a u) k h o = Witnessed-weaken b (f a) g (k a u) ((o a).at u h)

pub Observes-bind :
    {A B : Type 0} {b : Bool} {f : A → Bool} {g : B → Bool} {m : M A} {k : A → M B}
    → Observes b f m
    → ((a : A) → Observes (b || f a) g (k a))
    → Observes b g (m >>= k)
Observes-bind {b = b} {f} {g} {m} {k} h o = record {
  at = λ w i. Holds-observed b f g (m w) k (h.at w i) o;
}

or_false : (b : Bool) → (b || false) ≡ b
or_false true = refl
or_false false = refl

pub Observes-after :
    {A B : Type 0} {b : Bool} {g : B → Bool} {m : M A} {k : A → M B}
    → Observes b nothing m
    → ((a : A) → Observes b g (k a))
    → Observes b g (m >>= k)
Observes-after {b = b} {g} {k = k} h o =
    Observes-bind h (λ a. subst (λ c. Observes c g (k a)) (sym (or_false b)) (o a))

pub Observes-pure :
    {A : Type 0} {b : Bool} (flag : A → Bool) (a : A)
    → (flag a ≡ true → b ≡ true)
    → Observes b flag (pure a)
unfolding pure
Observes-pure {b = b} flag a h = record { at = λ w i. (i.0, i.1, λ e. i.2 (ground (arith, e, h))) }

pub Observes-silent :
    {A : Type 0} {b : Bool} (flag : A → Bool) (a : A) → flag a ≡ false → Observes b flag (pure a)
Observes-silent flag a h = Observes-pure flag a (λ e. cc)

pub Observes-known :
    {A : Type 0} {b : Bool} {flag : A → Bool} {m : M A}
    → b ≡ false
    → Observes false flag m
    → Observes b flag m
Observes-known {flag = flag} {m} e o = subst (λ c. Observes c flag m) (sym e) o

pub Observes-if :
    {A : Type 0} {b : Bool} {flag : A → Bool} (c : Bool) {m n : M A}
    → (c ≡ true → Observes b flag m)
    → (c ≡ false → Observes b flag n)
    → Observes b flag (if c then m else n)
Observes-if true f g = f refl
Observes-if false f g = g refl

module _ ⦃io : Io⦄ {b : Bool} where
  pub Observes-rd : (off : ℕ) → Observes b nothing (rd off)
  unfolding rd
  Observes-rd off = record { at = λ w i. ground arith }

  pub Observes-poll_status : Observes b nothing poll_status
  unfolding poll_status
  Observes-poll_status = record {
    at = λ w i.
        ground (arith, or_bytes w.chip.isr1 (u8 (io.read8 w.log Reg.isr1)) i.0 (omega arith));
  }

  pub Observes-chip : Observes b (λ c. has c.isr1 hr_end) chip
  unfolding chip
  Observes-chip = record { at = λ w i. ground arith }

  pub Observes-deadline_start : Observes b nothing deadline_start
  unfolding deadline_start
  Observes-deadline_start = record { at = λ w i. ground arith }

  pub Observes-deadline_expired : (d : Deadline) → Observes b nothing (deadline_expired d)
  unfolding deadline_expired
  Observes-deadline_expired d = record { at = λ w i. ground arith }

  pub Observes-yield : Observes b nothing yield
  unfolding yield
  Observes-yield = record { at = λ w i. ground arith }

  pub Observes-finish_in : (rc : Status) → Observes b nothing (finish_in rc)
  unfolding finish_in hold_off
  Observes-finish_in rc = record { at = λ w i. ground (arith, clear_byte w.chip.isr1 i.0) }

  pub Observes-late_end : (at_cap : Bool) → Observes b (λ late. late) (late_end at_cap)
  unfolding late_end
  Observes-late_end false = Observes-pure (λ late. late) false (λ e. cc)
  Observes-late_end true = Observes-after Observes-poll_status (λ _.
      Observes-bind Observes-chip
        (λ c. Observes-pure (λ late. late) (has c.isr1 hr_end) (λ e. ground (arith, e))))

  pub Observes-drain_fifo : (room : ℕ) (buf : List ℕ) → Observes b nothing (drain_fifo room buf)
  unfolding drain_fifo drain_round
  Observes-drain_fifo zero buf = Observes-silent nothing _ refl
  Observes-drain_fifo (suc room) buf = Observes-after (Observes-rd Reg.sts2) (λ v.
      Observes-if (has v tnt_befn)
        (λ _.
          Observes-after (Observes-rd Reg.fifob) (λ c. Observes-drain_fifo room (buf ++ c ∷ [])))
        (λ _. Observes-silent nothing (buf, suc room) refl))

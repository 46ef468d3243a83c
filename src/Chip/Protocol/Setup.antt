-- ===== src/Chip/Protocol/Setup.antt =====
-- The functions of Chip.Setup take only steps of the protocol; the self-test and the shutdown take
-- those that reset the chip, and the others do not.
use jornada_gpib.Prelude.{ℕ, ◌≡◌, refl, Bool, true, ℤ, pos, negsuc}
use jornada_gpib.Chip.Io.{Io, M, ◌>>◌, modify, wr, delay_us}
use jornada_gpib.Chip.Reg
use jornada_gpib.Chip.Access.{auxmr, set_auxra, set_auxrb, set_auxri, set_auxrg}
use jornada_gpib.Chip.Setup.{
  set_timeout, write_secondary, set_address, set_t1, set_eos, reset_sequence, probe, go_online,
  prepare, configure, init, shutdown, t1_auxrb, t1_auxri, eos_auxra,
}
use jornada_gpib.Chip.Protocol.Steps.{
  resetting, Mode, is_auxra, is_auxrb, is_auxri, is_auxrg, reset, one, Keeps,
}
use jornada_gpib.Chip.Protocol.Ranges.{Keeps-eos_auxra, Keeps-t1_auxrb, Keeps-t1_auxri}
use jornada_gpib.Chip.Protocol.Rules.{
  Traced, Traced-bind, Traced-modify, Traced-set_auxra, Traced-set_auxrb, Traced-set_auxri,
  Traced-set_auxrg,
}
use jornada_gpib.Chip.Protocol.Access.{access}

Keeps-const : (p : ℕ → Bool) (v : ℕ) → p v ≡ true → Keeps p (λ _. v)
Keeps-const p v h x _ = h

module _ {mode : Mode} where
  pub Traced-set_timeout : (ms : ℕ) → Traced mode (set_timeout ms)
  unfolding set_timeout
  Traced-set_timeout ms = Traced-modify _ (λ c. (refl, refl, refl, refl))

  Traced-secondary : (sad : ℤ) → Traced mode (write_secondary sad)
  unfolding write_secondary
  Traced-secondary (pos n) = search access depth 30
  Traced-secondary (negsuc n) = search access depth 30

  Traced-addresses :
      (pad : ℕ) (sad : ℤ) → Traced mode (modify λ c. record c { pad = pad; sad = sad })
  Traced-addresses pad sad = Traced-modify _ (λ c. (refl, refl, refl, refl))

  pub Traced-set_address : (pad : ℕ) (sad : ℤ) → Traced mode (set_address pad sad)
  unfolding set_address
  Traced-set_address pad sad = search (access, Traced-secondary, Traced-addresses) depth 30

  Traced-t1 : (ns : ℕ) → Traced mode (modify λ c. record c { t1_ns = ns })
  Traced-t1 ns = Traced-modify _ (λ c. (refl, refl, refl, refl))

  Traced-t1_auxrb : (ns : ℕ) → Traced mode (set_auxrb (t1_auxrb ns))
  Traced-t1_auxrb ns = Traced-set_auxrb _ (Keeps-t1_auxrb ns)

  Traced-t1_auxri : (ns : ℕ) → Traced mode (set_auxri (t1_auxri ns))
  Traced-t1_auxri ns = Traced-set_auxri _ (Keeps-t1_auxri ns)

  pub Traced-set_t1 : (ns : ℕ) → Traced mode (set_t1 ns)
  unfolding set_t1
  Traced-set_t1 ns = search (access, Traced-t1, Traced-t1_auxrb, Traced-t1_auxri) depth 30

  Traced-eos : (eos flags : ℕ) → Traced mode (modify λ c. record c { eos = eos; eos_flags = flags })
  Traced-eos eos flags = Traced-modify _ (λ c. (refl, refl, refl, refl))

  Traced-eos_auxra : (flags : ℕ) → Traced mode (set_auxra (eos_auxra flags))
  Traced-eos_auxra flags = Traced-set_auxra _ (Keeps-eos_auxra flags)

  pub Traced-set_eos : (eos flags : ℕ) → Traced mode (set_eos eos flags)
  unfolding set_eos
  Traced-set_eos eos flags = search (access, Traced-eos, Traced-eos_auxra) depth 30

Traced-auxmr_reset : (v : ℕ) → Traced resetting (auxmr v)
unfolding auxmr
Traced-auxmr_reset v = record { at = λ w. one (reset v w refl) }

-- The write to SWAPPED_AUXCR is one to AUXMR, after a delay.
Traced-swapped :
    (v : ℕ) {A : Type 0} (m : M A)
    → Traced resetting m
    → Traced resetting (delay_us 1 >> (wr Reg.swapped_auxcr v >> m))
unfolding auxmr
Traced-swapped v m t = Traced-bind (auxmr v) (λ _. m) (Traced-auxmr_reset v) (λ _. t)

module _ {mode : Mode} where
  Traced-put_a : (v : ℕ) → is_auxra v ≡ true → Traced mode (set_auxra λ _. v)
  Traced-put_a v h = Traced-set_auxra _ (Keeps-const is_auxra v h)

  Traced-put_b : (v : ℕ) → is_auxrb v ≡ true → Traced mode (set_auxrb λ _. v)
  Traced-put_b v h = Traced-set_auxrb _ (Keeps-const is_auxrb v h)

  Traced-put_i : (v : ℕ) → is_auxri v ≡ true → Traced mode (set_auxri λ _. v)
  Traced-put_i v h = Traced-set_auxri _ (Keeps-const is_auxri v h)

  Traced-put_g : (v : ℕ) → is_auxrg v ≡ true → Traced mode (set_auxrg λ _. v)
  Traced-put_g v h = Traced-set_auxrg _ (Keeps-const is_auxrg v h)

module _ ⦃io : Io⦄ {mode : Mode} where
  pub Traced-go_online : Traced mode go_online
  unfolding go_online
  Traced-go_online = search (access, Traced-set_t1) depth 40

  Traced-prepare : Traced mode prepare
  unfolding prepare
  Traced-prepare = search (access, Traced-put_a, Traced-put_b, Traced-put_i, Traced-put_g) depth 60

  pub Traced-configure : (pad : ℕ) → Traced mode (configure pad)
  unfolding configure
  Traced-configure pad =
      search (access, Traced-prepare, Traced-set_address, Traced-go_online) depth 60

module _ ⦃io : Io⦄ where
  Traced-forget : Traced resetting (modify λ c. record c { isr1 = 0; isr2 = 0 })
  Traced-forget = Traced-modify _ (λ c. (refl, refl, refl, refl))

  Traced-csr : (v : ℕ) → Traced resetting (modify λ c. record c { csr = v })
  Traced-csr v = Traced-modify _ (λ c. (refl, refl, refl, refl))

  pub Traced-reset_sequence : Traced resetting reset_sequence
  unfolding reset_sequence
  Traced-reset_sequence =
      search (Traced-swapped, Traced-auxmr_reset, Traced-forget, access) depth 60

  pub Traced-probe : Traced resetting probe
  unfolding probe
  Traced-probe = search (access, Traced-csr, Traced-reset_sequence) depth 40

  pub Traced-shutdown : Traced resetting shutdown
  unfolding shutdown
  Traced-shutdown = search (Traced-auxmr_reset, access) depth 40

  pub Traced-init : (pad : ℕ) → Traced resetting (init pad)
  unfolding init
  Traced-init pad = search (access, Traced-probe, Traced-configure) depth 40

pub ruleset setup =
    (Traced-set_timeout, Traced-set_address, Traced-set_t1, Traced-set_eos, Traced-configure)

-- ===== src/Chip/Protocol/Steps.antt =====
-- The steps of the chip driver. An AUXMR write comes with the delay before it and a CMDR write
-- with the delay after it; a write to an auxiliary register comes with the store to its copy.
use jornada_gpib.Prelude.{ℕ, ◌≡◌, ◌≢◌, Bool, true, ◌&&◌, ◌||◌, not, ◌∷◌, bit_or, leb, ltb, u8}
use jornada_gpib.Chip.Io.{Event, saw, wrote, paused, ticked, yielded, History, Chip, World}
use jornada_gpib.Chip.Reg
use jornada_gpib.Chip.Bits.{hr_rpp2}

-- The values that address AUXRA, AUXRB, AUXRI and AUXRG when written to AUXMR.
abbrev pub within : (lo hi v : ℕ) → Bool
within lo hi v = leb lo v && ltb v hi

abbrev pub is_auxra : ℕ → Bool
is_auxra v = within 0x80 0xa0 v

abbrev pub is_auxrb : ℕ → Bool
is_auxrb v = within 0xa0 0xc0 v

abbrev pub is_auxri : ℕ → Bool
is_auxri v = within 0xe0 0x100 v

abbrev pub is_auxrg : ℕ → Bool
is_auxrg v = within 0x40 0x50 v

-- All other values are auxiliary commands, or registers with no copy (PPR, AUXRE, the ICR).
abbrev pub is_order : ℕ → Bool
is_order v = leb v 0xff && not (is_auxra v || is_auxrb v || is_auxri v || is_auxrg v)

-- Every byte in a register's copy stays one of that register.
abbrev pub Keeps : (ℕ → Bool) → (ℕ → ℕ) → Type 0
Keeps p f = (x : ℕ) → p x ≡ true → p (f x) ≡ true

abbrev pub InRange : Chip → Type 0
InRange c =
    (is_auxra c.auxra ≡ true)
    × (is_auxrb c.auxrb ≡ true)
    × (is_auxri c.auxri ≡ true)
    × (is_auxrg c.auxrg ≡ true)

-- The copies of the auxiliary registers are the same.
abbrev pub SameAux : Chip → Chip → Type 0
SameAux c c' =
    (c'.auxra ≡ c.auxra) × (c'.auxrb ≡ c.auxrb) × (c'.auxri ≡ c.auxri) × (c'.auxrg ≡ c.auxrg)

abbrev pub logged : World → Event → World
logged w e = record w { log = e ∷ w.log }

abbrev pub aux_written : ℕ → History → History
aux_written v h = wrote Reg.auxmr (u8 v) ∷ paused 1 ∷ h

-- What a function may do beside the common steps: reset the chip, which clears the auxiliary
-- registers; write to the FIFO; neither.
pub data Mode : Type 0 where
  resetting feeding still : Mode

pub data Step (mode : Mode) : World → World → Type 0 where
  look : (off v : ℕ) (w : World) → Step mode w (logged w (saw off v))
  poke :
      (off v : ℕ) (w : World)
      → off ≢ Reg.auxmr
      → off ≢ Reg.cmdr
      → off ≢ Reg.fifob
      → Step mode w (logged w (wrote off v))
  feed : (v : ℕ) (w : World) → mode ≡ feeding → Step mode w (logged w (wrote Reg.fifob v))
  rest : (us : ℕ) (w : World) → Step mode w (logged w (paused us))
  tick : (t : ℕ) (w : World) → Step mode w (logged w (ticked t))
  pass : (w : World) → Step mode w (logged w yielded)
  note : (c : Chip) (w : World) → SameAux w.chip c → Step mode w (record w { chip = c })
  order :
      (v : ℕ) (w : World) → is_order v ≡ true → Step mode w (record w { log = aux_written v w.log })
  reset :
      (v : ℕ) (w : World) → mode ≡ resetting → Step mode w (record w { log = aux_written v w.log })
  instruct :
      (v : ℕ) (w : World)
      → Step mode w (record w { log = paused 1 ∷ wrote Reg.cmdr (u8 v) ∷ w.log })
  put_auxra :
      (f : ℕ → ℕ) (w : World)
      → Keeps is_auxra f
      → Step mode w (record {
        chip = record w.chip { auxra = f w.chip.auxra };
        log = aux_written (f w.chip.auxra) w.log;
      })
  put_auxrb :
      (f : ℕ → ℕ) (w : World)
      → Keeps is_auxrb f
      → Step mode w (record {
        chip = record w.chip { auxrb = f w.chip.auxrb };
        log = aux_written (f w.chip.auxrb) w.log;
      })
  put_auxri :
      (f : ℕ → ℕ) (w : World)
      → Keeps is_auxri f
      → Step mode w (record {
        chip = record w.chip { auxri = f w.chip.auxri };
        log = aux_written (f w.chip.auxri) w.log;
      })
  put_auxrg :
      (f : ℕ → ℕ) (w : World)
      → Keeps is_auxrg f
      → Step mode w (record {
        chip = record w.chip { auxrg = f w.chip.auxrg };
        log = aux_written (f w.chip.auxrg) w.log;
      })
  execute :
      (v : ℕ) (w : World)
      → Step mode w (record w {
        log =
            aux_written w.chip.auxrg
              (saw Reg.cptr v ∷ paused 2 ∷ aux_written (bit_or w.chip.auxrg hr_rpp2) w.log);
      })

pub data Steps (mode : Mode) (w : World) : World → Type 0 where
  here : Steps mode w w
  next : {u v : World} → Steps mode w u → Step mode u v → Steps mode w v

pub one : {mode : Mode} {u v : World} → Step mode u v → Steps mode u v
one s = next here s

pub Steps-trans : {mode : Mode} {u v w : World} → Steps mode u v → Steps mode v w → Steps mode u w
Steps-trans s here = s
Steps-trans s (next t x) = next (Steps-trans s t) x

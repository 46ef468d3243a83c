-- ===== src/Chip/Shadow.antt =====
-- The auxiliary registers cannot be read back, so `tnt_chip` keeps copies of them. The copies are
-- right when they are what was last written to the registers.
use jornada_gpib.Prelude.{
  ℕ, ◌≡◌, refl, Bool, ◌&&◌, ◌==◌, Option, none, some, List, [], ◌∷◌, arith, bit_or, if◌then◌else◌,
  holds_below,
}
use jornada_gpib.Chip.Io.{Io, wrote, History, World, done}
use jornada_gpib.Chip.Reg
use jornada_gpib.Chip.Bits.{hr_rpp2}
use jornada_gpib.Chip.Calls.{Call, run_all}
use jornada_gpib.Chip.Protocol.Steps.{
  feed, feeding, is_auxra, is_auxrb, is_auxri, is_auxrg, Keeps, InRange, Step, look, poke, rest,
  tick, pass, note, order, reset, instruct, put_auxra, put_auxrb, put_auxri, put_auxrg, execute,
  Steps, here, next,
}
use jornada_gpib.Chip.Protocol.Ranges.{Keeps-table}
use jornada_gpib.Chip.Protocol.Rules.{Traced-Steps}
use jornada_gpib.Chip.Protocol.Calls.{Traced-run_all}

-- The newest value written to AUXMR that `p` holds of.
abbrev pub latched : (ℕ → Bool) → History → Option ℕ
latched p [] = none
latched p (wrote off v ∷ h) = if off == Reg.auxmr && p v then some v else latched p h
latched p (e ∷ h) = latched p h

pub record IsCoherent (w : World) : Type 0 where
  pub in_range : InRange w.chip
  pub auxra : latched is_auxra w.log ≡ some w.chip.auxra
  pub auxrb : latched is_auxrb w.log ≡ some w.chip.auxrb
  pub auxri : latched is_auxri w.log ≡ some w.chip.auxri
  pub auxrg : latched is_auxrg w.log ≡ some w.chip.auxrg

Keeps-rpp2 : Keeps is_auxrg (λ v. bit_or v hr_rpp2)
unfolding holds_below
Keeps-rpp2 = Keeps-table is_auxrg (λ v. bit_or v hr_rpp2) (λ x h. ground arith) refl

Step-IsCoherent : {u v : World} → Step feeding u v → IsCoherent u → IsCoherent v
Step-IsCoherent (look off v w) h = ground arith
Step-IsCoherent (poke off v w p q r) h = ground arith
Step-IsCoherent (feed v w p) h = ground arith
Step-IsCoherent (rest us w) h = ground arith
Step-IsCoherent (tick t w) h = ground arith
Step-IsCoherent (pass w) h = ground arith
Step-IsCoherent (note c w same) h = ground arith
Step-IsCoherent (order v w p) h = ground arith
Step-IsCoherent (reset v w p) h = cc
Step-IsCoherent (instruct v w) h = ground arith
Step-IsCoherent (put_auxra f w k) h = ground (arith, k w.chip.auxra)
Step-IsCoherent (put_auxrb f w k) h = ground (arith, k w.chip.auxrb)
Step-IsCoherent (put_auxri f w k) h = ground (arith, k w.chip.auxri)
Step-IsCoherent (put_auxrg f w k) h = ground (arith, k w.chip.auxrg)
Step-IsCoherent (execute v w) h = ground (arith, Keeps-rpp2 w.chip.auxrg)

pub Steps-IsCoherent : {u v : World} → IsCoherent u → Steps feeding u v → IsCoherent v
Steps-IsCoherent h here = h
Steps-IsCoherent h (next s x) = Step-IsCoherent x (Steps-IsCoherent h s)

-- From a state where the copies in `tnt_chip` are what was last written to the auxiliary registers:
-- they stay that, each with its register's address bits, under any sequence of calls that returns,
-- whatever the card answers, if none of them resets the chip (`tnt_probe`, `tnt_init`,
-- `tnt_shutdown`) or binds it.
pub run_all-IsCoherent :
    ⦃io : Io⦄ (rounds : ℕ) (cs : List Call) {w w' : World}
    → IsCoherent w
    → run_all rounds cs w ≡ done tt w'
    → IsCoherent w'
run_all-IsCoherent rounds cs h e = Steps-IsCoherent h (Traced-Steps (Traced-run_all rounds cs) e)

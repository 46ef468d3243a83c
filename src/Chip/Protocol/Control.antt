-- ===== src/Chip/Protocol/Control.antt =====
-- The functions of Chip.Control take only steps of the protocol.
use jornada_gpib.Prelude.{ℕ, zero, suc, refl, Bool, true, false, if◌then◌else◌}
use jornada_gpib.Chip.Io.{Io, M}
use jornada_gpib.Chip.Status.{Status}
use jornada_gpib.Chip.Bits.{aux_sren, aux_cren, aux_tcs, aux_tca}
use jornada_gpib.Chip.Access.{auxmr}
use jornada_gpib.Chip.Deadline.{Deadline}
use jornada_gpib.Chip.Control.{
  interface_clear, remote_enable, spin_atn, spin_round, poll_round, poll_atn, wait_atn,
  take_control, go_to_standby, execute_poll, parallel_poll, snapshot,
}
use jornada_gpib.Chip.Protocol.Steps.{Mode, execute, one}
use jornada_gpib.Chip.Protocol.Rules.{Traced, Traced-auxmr}
use jornada_gpib.Chip.Protocol.Access.{access}

module _ ⦃io : Io⦄ {mode : Mode} where
  pub Traced-interface_clear : Traced mode interface_clear
  unfolding interface_clear
  Traced-interface_clear = search access depth 30

  Traced-ren : (on : Bool) → Traced mode (auxmr (if on then aux_sren else aux_cren))
  Traced-ren true = Traced-auxmr _ refl
  Traced-ren false = Traced-auxmr _ refl

  pub Traced-remote_enable : (on : Bool) → Traced mode (remote_enable on)
  unfolding remote_enable
  Traced-remote_enable on = search (access, Traced-ren) depth 30

  Traced-spin_round :
      (asserted : Bool) (again : M Bool)
      → Traced mode again
      → Traced mode (spin_round asserted again)
  unfolding spin_round
  Traced-spin_round asserted again t = search access depth 30

  Traced-spin_atn : (n : ℕ) (asserted : Bool) → Traced mode (spin_atn n asserted)
  unfolding spin_atn
  Traced-spin_atn zero asserted = search access
  Traced-spin_atn (suc n) asserted = Traced-spin_round asserted _ (Traced-spin_atn n asserted)

  Traced-poll_round :
      (asserted : Bool) (d : Deadline) (again : M Status)
      → Traced mode again
      → Traced mode (poll_round asserted d again)
  unfolding poll_round
  Traced-poll_round asserted d again t = search access depth 30

  Traced-poll_atn :
      (rounds : ℕ) (asserted : Bool) (d : Deadline) → Traced mode (poll_atn rounds asserted d)
  unfolding poll_atn
  Traced-poll_atn zero asserted d = search access
  Traced-poll_atn (suc rounds) asserted d =
      Traced-poll_round asserted d _ (Traced-poll_atn rounds asserted d)

  pub Traced-wait_atn : (rounds : ℕ) (asserted : Bool) → Traced mode (wait_atn rounds asserted)
  unfolding wait_atn
  Traced-wait_atn rounds asserted = search (access, Traced-spin_atn, Traced-poll_atn) depth 30

  Traced-tca : (sync : Bool) → Traced mode (auxmr (if sync then aux_tcs else aux_tca))
  Traced-tca true = Traced-auxmr _ refl
  Traced-tca false = Traced-auxmr _ refl

  pub Traced-take_control : (rounds : ℕ) (sync : Bool) → Traced mode (take_control rounds sync)
  unfolding take_control
  Traced-take_control rounds sync = search (access, Traced-tca, Traced-wait_atn) depth 30

  pub Traced-go_to_standby : (rounds : ℕ) → Traced mode (go_to_standby rounds)
  unfolding go_to_standby
  Traced-go_to_standby rounds = search (access, Traced-wait_atn) depth 30

  Traced-execute_poll : Traced mode execute_poll
  unfolding execute_poll
  Traced-execute_poll = record { at = λ w. one (execute _ w) }

  pub Traced-parallel_poll : Traced mode parallel_poll
  unfolding parallel_poll
  Traced-parallel_poll = search (access, Traced-execute_poll) depth 30

  pub Traced-snapshot : Traced mode snapshot
  unfolding snapshot
  Traced-snapshot = search access depth 40

pub ruleset control = (
  access, Traced-interface_clear, Traced-remote_enable, Traced-wait_atn, Traced-take_control,
  Traced-go_to_standby, Traced-parallel_poll, Traced-snapshot,
)

-- ===== src/Chip/Protocol/Calls.antt =====
-- Every call of the driver's interface takes only steps of the protocol.
use jornada_gpib.Prelude.{ℕ, List, [], ◌∷◌}
use jornada_gpib.Chip.Io.{Io, M}
use jornada_gpib.Chip.Access.{bus_lines, adsr}
use jornada_gpib.Chip.Calls.{
  Call, set_timeout_to, set_address_to, set_eos_to, set_t1_to, clear_interface, enable_remote,
  control, standby, send_command, send, send_raw, receive, poll_parallel, look_lines, look_adsr,
  look_cic, take_snapshot, ResetCall, self_test, initialise, close, discard, run, run_reset,
  run_all,
}
use jornada_gpib.Chip.Protocol.Rules.{Traced, Traced-bind, Traced-pure}
use jornada_gpib.Chip.Protocol.Access.{access, Traced-is_cic}
use jornada_gpib.Chip.Protocol.Control
use jornada_gpib.Chip.Protocol.Setup.{
  Traced-set_timeout, Traced-set_address, Traced-set_eos, Traced-set_t1, Traced-probe, Traced-init,
  Traced-shutdown,
}
use jornada_gpib.Chip.Protocol.Transfer.{
  Traced-transfer_out, Traced-command, Traced-write, Traced-read,
}
use jornada_gpib.Chip.Protocol.Steps.{resetting, feeding, Mode}

module _ {mode : Mode} where
  pub Traced-discard : {A : Type 0} {m : M A} → Traced mode m → Traced mode (discard m)
  unfolding discard
  Traced-discard {m} t = Traced-bind m _ t (λ a. Traced-pure tt)

module _ ⦃io : Io⦄ {mode : Mode} where
  pub Traced-bus_lines : Traced mode bus_lines
  unfolding bus_lines
  Traced-bus_lines = search access

  Traced-adsr : Traced mode adsr
  unfolding adsr
  Traced-adsr = search access

module _ ⦃io : Io⦄ where
  pub Traced-run : (rounds : ℕ) (c : Call) → Traced feeding (run rounds c)
  unfolding run
  Traced-run rounds (set_timeout_to ms) = Traced-set_timeout ms
  Traced-run rounds (set_address_to pad sad) = Traced-discard (Traced-set_address pad sad)
  Traced-run rounds (set_eos_to eos flags) = Traced-discard (Traced-set_eos eos flags)
  Traced-run rounds (set_t1_to ns) = Traced-discard (Traced-set_t1 ns)
  Traced-run rounds clear_interface = Traced-discard Control.Traced-interface_clear
  Traced-run rounds (enable_remote on) = Traced-discard (Control.Traced-remote_enable on)
  Traced-run rounds (control sync) = Traced-discard (Control.Traced-take_control rounds sync)
  Traced-run rounds standby = Traced-discard (Control.Traced-go_to_standby rounds)
  Traced-run rounds (send_command cmd) = Traced-discard (Traced-command rounds cmd)
  Traced-run rounds (send buf eoi) = Traced-discard (Traced-write rounds buf eoi)
  Traced-run rounds (send_raw buf flags) = Traced-discard (Traced-transfer_out rounds buf flags)
  Traced-run rounds (receive cap) = Traced-discard (Traced-read rounds cap)
  Traced-run rounds poll_parallel = Traced-discard Control.Traced-parallel_poll
  Traced-run rounds look_lines = Traced-discard Traced-bus_lines
  Traced-run rounds look_adsr = Traced-discard Traced-adsr
  Traced-run rounds look_cic = Traced-discard Traced-is_cic
  Traced-run rounds take_snapshot = Traced-discard Control.Traced-snapshot

  pub Traced-run_all : (rounds : ℕ) (cs : List Call) → Traced feeding (run_all rounds cs)
  unfolding run_all
  Traced-run_all rounds [] = Traced-pure tt
  Traced-run_all rounds (c ∷ cs) =
      Traced-bind _ _ (Traced-run rounds c) (λ a. Traced-run_all rounds cs)

module _ ⦃io : Io⦄ where
  pub Traced-run_reset : (rounds : ℕ) (c : ResetCall) → Traced resetting (run_reset rounds c)
  unfolding run_reset
  Traced-run_reset rounds self_test = Traced-discard Traced-probe
  Traced-run_reset rounds (initialise pad) = Traced-discard (Traced-init pad)
  Traced-run_reset rounds close = Traced-shutdown

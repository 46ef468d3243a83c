-- ===== src/Chip/Calls.antt =====
-- The chip driver's interface (the function list of include/gpib/tnt4882.h) as data: a client is a
-- list of calls, made one after the other. `rounds` is granted to each polling loop.
use jornada_gpib.Prelude.{ℕ, Bool, List, [], ◌∷◌, ℤ}
use jornada_gpib.Chip.Io.{Io, M, ◌>>=◌, ◌>>◌, pure}
use jornada_gpib.Chip.Access.{bus_lines, adsr, is_cic}
use jornada_gpib.Chip.Setup.{set_timeout, set_address, set_eos, set_t1, probe, init, shutdown}
use jornada_gpib.Chip.Control.{
  interface_clear, remote_enable, take_control, go_to_standby, parallel_poll, snapshot,
}
use jornada_gpib.Chip.Transfer.{transfer_out, command, write, read}

-- The calls on a chip that is online.
pub data Call : Type 0 where
  set_timeout_to : ℕ → Call
  set_address_to : ℕ → ℤ → Call
  set_eos_to : ℕ → ℕ → Call
  set_t1_to : ℕ → Call
  clear_interface : Call
  enable_remote : Bool → Call
  control : Bool → Call
  standby : Call
  send_command : List ℕ → Call
  send : List ℕ → Bool → Call
  send_raw : List ℕ → ℕ → Call
  receive : ℕ → Call
  poll_parallel : Call
  look_lines : Call
  look_adsr : Call
  look_cic : Call
  take_snapshot : Call

-- Those that reset the chip.
pub data ResetCall : Type 0 where
  self_test : ResetCall
  initialise : ℕ → ResetCall
  close : ResetCall

-- Any call but `tnt_bind`, which only fills in the structure.
pub data AnyCall : Type 0 where
  serve : Call → AnyCall
  restart : ResetCall → AnyCall

module _ {A : Type 0} where
  unfoldable pub discard : M A → M (Unit {0})
  unfolding pure
  discard m = do _ ← m; pure tt

module _ ⦃io : Io⦄ (rounds : ℕ) where
  unfoldable pub run : Call → M (Unit {0})
  unfolding discard set_timeout set_address set_eos set_t1 interface_clear remote_enable
      take_control go_to_standby command write transfer_out read parallel_poll bus_lines adsr is_cic
      snapshot
  run (set_timeout_to ms) = set_timeout ms
  run (set_address_to pad sad) = discard (set_address pad sad)
  run (set_eos_to eos flags) = discard (set_eos eos flags)
  run (set_t1_to ns) = discard (set_t1 ns)
  run clear_interface = discard interface_clear
  run (enable_remote on) = discard (remote_enable on)
  run (control synchronous) = discard (take_control rounds synchronous)
  run standby = discard (go_to_standby rounds)
  run (send_command cmd) = discard (command rounds cmd)
  run (send buf eoi) = discard (write rounds buf eoi)
  run (send_raw buf flags) = discard (transfer_out rounds buf flags)
  run (receive cap) = discard (read rounds cap)
  run poll_parallel = discard parallel_poll
  run look_lines = discard bus_lines
  run look_adsr = discard adsr
  run look_cic = discard is_cic
  run take_snapshot = discard snapshot

  unfoldable pub run_reset : ResetCall → M (Unit {0})
  unfolding discard probe init shutdown
  run_reset self_test = discard probe
  run_reset (initialise pad) = discard (init pad)
  run_reset close = shutdown

  unfoldable pub run_all : List Call → M (Unit {0})
  unfolding run pure
  run_all [] = pure tt
  run_all (c ∷ cs) = run c >> run_all cs

  unfoldable pub run_any : AnyCall → M (Unit {0})
  unfolding run run_reset
  run_any (serve c) = run c
  run_any (restart c) = run_reset c

  unfoldable pub run_each : List AnyCall → M (Unit {0})
  unfolding run_any pure
  run_each [] = pure tt
  run_each (c ∷ cs) = run_any c >> run_each cs

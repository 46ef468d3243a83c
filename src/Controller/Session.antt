-- ===== src/Controller/Session.antt =====
-- The interface of include/gpib/gpib488.h as one type, and any sequence of its operations: they take
-- only steps of the chip driver's protocol.
use jornada_gpib.Prelude.{ℕ, Bool, List, [], ◌∷◌, ℤ, ◌≡◌}
use jornada_gpib.Chip.Io.{Io, M, ◌>>◌, pure, World, done}
use jornada_gpib.Chip.Status.{Status}
use jornada_gpib.Chip.Calls.{discard}
use jornada_gpib.Chip.Protocol.Steps.{feeding}
use jornada_gpib.Chip.Protocol.Rules.{Traced, Traced-bind, Traced-pure, Traced-Steps}
use jornada_gpib.Chip.Protocol.Control
use jornada_gpib.Chip.Protocol.Control.{control, Traced-take_control, Traced-go_to_standby}
use jornada_gpib.Chip.Protocol.Transfer.{Traced-command, Traced-write, Traced-read}
use jornada_gpib.Chip.Protocol.Calls.{Traced-discard}
use jornada_gpib.Chip.Spacing.{IsSpaced, Steps-IsSpaced}
use jornada_gpib.Chip.Shadow.{IsCoherent, Steps-IsCoherent}
use jornada_gpib.Controller.Bytes.{gpib_llo}
use jornada_gpib.Controller.Ops
use jornada_gpib.Controller.Ops.{
  send_commands, address_device, regain, addressed_command, poll_byte, poll_device, end_poll,
  serial_poll, pass_control, srq_asserted,
}
use jornada_gpib.Controller.Commands.{
  DeviceCall, clear_device, trigger_device, local_device, lock_out, pass_to, run_device,
}

pub data Request : Type 0 where
  clear_bus : Request
  enable_remote : (on : Bool) → Request
  send_bytes : (cmd : List ℕ) → Request
  write_to : (pad sad : ℤ) (buf : List ℕ) (eoi : Bool) → Request
  read_from : (pad sad : ℤ) (cap : ℕ) → Request
  ask_device : (call : DeviceCall) → Request
  poll_status_of : (pad sad : ℤ) → Request
  look_lines : Request
  look_srq : Request

module _ ⦃io : Io⦄ (rounds : ℕ) where
  unfoldable pub run_request : Request → M (Unit {0})
  unfolding discard Ops.interface_clear Ops.remote_enable send_commands Ops.write Ops.read
      run_device serial_poll Ops.lines srq_asserted
  run_request clear_bus = discard (Ops.interface_clear rounds)
  run_request (enable_remote on) = discard (Ops.remote_enable on)
  run_request (send_bytes cmd) = discard (send_commands rounds cmd)
  run_request (write_to pad sad buf eoi) = discard (Ops.write rounds pad sad buf eoi)
  run_request (read_from pad sad cap) = discard (Ops.read rounds pad sad cap)
  run_request (ask_device call) = discard (run_device rounds call)
  run_request (poll_status_of pad sad) = discard (serial_poll rounds pad sad)
  run_request look_lines = discard Ops.lines
  run_request look_srq = discard srq_asserted

  unfoldable pub run_session : List Request → M (Unit {0})
  unfolding run_request pure
  run_session [] = pure tt
  run_session (r ∷ rs) = run_request r >> run_session rs

module _ ⦃io : Io⦄ (rounds : ℕ) where
  pub Traced-interface_clear : Traced feeding (Ops.interface_clear rounds)
  unfolding Ops.interface_clear
  Traced-interface_clear = search control depth 30

  pub Traced-send_commands : (cmd : List ℕ) → Traced feeding (send_commands rounds cmd)
  unfolding send_commands
  Traced-send_commands cmd = search (control, Traced-command) depth 30

  Traced-address_device :
      (pad sad : ℤ) (t : Bool) → Traced feeding (address_device rounds pad sad t)
  unfolding address_device
  Traced-address_device pad sad t = search (control, Traced-send_commands) depth 30

  Traced-regain : (rc : Status) → Traced feeding (regain rounds rc)
  unfolding regain
  Traced-regain rc = search control depth 30

  pub Traced-write_to :
      (pad sad : ℤ) (buf : List ℕ) (eoi : Bool) → Traced feeding (Ops.write rounds pad sad buf eoi)
  unfolding Ops.write
  Traced-write_to pad sad buf eoi =
      search (control, Traced-address_device, Traced-write, Traced-regain) depth 30

  pub Traced-read_from : (pad sad : ℤ) (cap : ℕ) → Traced feeding (Ops.read rounds pad sad cap)
  unfolding Ops.read
  Traced-read_from pad sad cap =
      search (control, Traced-address_device, Traced-read, Traced-regain) depth 30

  pub Traced-addressed_command :
      (pad sad : ℤ) (byte : ℕ) → Traced feeding (addressed_command rounds pad sad byte)
  unfolding addressed_command
  Traced-addressed_command pad sad byte = search (control, Traced-send_commands) depth 30

  pub Traced-run_device : (call : DeviceCall) → Traced feeding (run_device rounds call)
  unfolding run_device Ops.clear Ops.trigger Ops.local Ops.local_lockout pass_control
  Traced-run_device (clear_device pad sad) =
      search (control, Traced-send_commands, Traced-addressed_command) depth 30
  Traced-run_device (trigger_device pad sad) = Traced-addressed_command pad sad _
  Traced-run_device (local_device pad sad) = Traced-addressed_command pad sad _
  Traced-run_device lock_out = Traced-send_commands (gpib_llo ∷ [])
  Traced-run_device (pass_to pad) = search (control, Traced-send_commands) depth 30

  Traced-poll_byte : Traced feeding (poll_byte rounds)
  unfolding poll_byte
  Traced-poll_byte = search (control, Traced-read) depth 30

  Traced-poll_device : (cmd : List ℕ) → Traced feeding (poll_device rounds cmd)
  unfolding poll_device
  Traced-poll_device cmd = search (control, Traced-send_commands, Traced-poll_byte) depth 30

  Traced-end_poll : (rc : Status) → Traced feeding (end_poll rounds rc)
  unfolding end_poll
  Traced-end_poll rc = search (control, Traced-send_commands, Traced-regain) depth 30

  pub Traced-serial_poll : (pad sad : ℤ) → Traced feeding (serial_poll rounds pad sad)
  unfolding serial_poll
  Traced-serial_poll pad sad = search (control, Traced-poll_device, Traced-end_poll) depth 30

  Traced-lines : Traced feeding Ops.lines
  unfolding Ops.lines
  Traced-lines = search control depth 30

  Traced-srq_asserted : Traced feeding srq_asserted
  unfolding srq_asserted
  Traced-srq_asserted = search control depth 30

  pub Traced-remote_enable : (on : Bool) → Traced feeding (Ops.remote_enable on)
  unfolding Ops.remote_enable
  Traced-remote_enable on = Control.Traced-remote_enable on

  Traced-run_request : (r : Request) → Traced feeding (run_request rounds r)
  unfolding run_request
  Traced-run_request clear_bus = Traced-discard Traced-interface_clear
  Traced-run_request (enable_remote on) = Traced-discard (Traced-remote_enable on)
  Traced-run_request (send_bytes cmd) = Traced-discard (Traced-send_commands cmd)
  Traced-run_request (write_to pad sad buf eoi) = Traced-discard (Traced-write_to pad sad buf eoi)
  Traced-run_request (read_from pad sad cap) = Traced-discard (Traced-read_from pad sad cap)
  Traced-run_request (ask_device call) = Traced-discard (Traced-run_device call)
  Traced-run_request (poll_status_of pad sad) = Traced-discard (Traced-serial_poll pad sad)
  Traced-run_request look_lines = Traced-discard Traced-lines
  Traced-run_request look_srq = Traced-discard Traced-srq_asserted

  Traced-run_session : (rs : List Request) → Traced feeding (run_session rounds rs)
  unfolding run_session
  Traced-run_session [] = Traced-pure tt
  Traced-run_session (r ∷ rs) = Traced-bind _ _ (Traced-run_request r) (λ a. Traced-run_session rs)

-- Any sequence of the controller's operations that returns keeps the copies of the auxiliary
-- registers what was last written, and the delays at AUXMR and CMDR, as the chip's calls do.
run_session-IsCoherent :
    ⦃io : Io⦄ (rounds : ℕ) (rs : List Request) (w : World) {w' : World}
    → IsCoherent w
    → IsSpaced w
    → run_session rounds rs w ≡ done tt w'
    → IsCoherent w' × IsSpaced w'
run_session-IsCoherent rounds rs w h s e = (
  Steps-IsCoherent h (Traced-Steps (Traced-run_session rounds rs) e),
  Steps-IsSpaced s (Traced-Steps (Traced-run_session rounds rs) e),
)

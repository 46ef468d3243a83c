-- ===== src/Driver/Traced/Served.antt =====
-- The steps that `dispatch` of src/gpib/drv_ce.c takes on the chip.
use jornada_gpib.Prelude.{
  inr, inl, Bool-cases, ℕ, ◌≡◌, Bool, false, ◌||◌, ◌==◌, if◌then◌else◌, ℤ, arith,
}
use jornada_gpib.Wire
use jornada_gpib.Chip.Io.{Io, World, done}
use jornada_gpib.Chip.Control.{take_control, go_to_standby}
use jornada_gpib.Chip.Protocol.Steps.{feeding}
use jornada_gpib.Chip.Protocol.Rules.{Traced, Traced-if, Traced-pure, Traced-Steps}
use jornada_gpib.Chip.Protocol.Control.{control}
use jornada_gpib.Chip.Spacing.{IsSpaced, Steps-IsSpaced}
use jornada_gpib.Chip.Shadow.{IsCoherent, Steps-IsCoherent}
use jornada_gpib.Controller.Ops
use jornada_gpib.Controller.Ops.{
  send_commands, trigger, local, local_lockout, serial_poll, pass_control,
}
use jornada_gpib.Controller.Session.{
  Traced-send_commands, Traced-serial_poll, Traced-remote_enable, Traced-addressed_command,
}
use jornada_gpib.Driver.State.{Open, Ioctl, Answer}
use jornada_gpib.Driver.Dispatch.{other_ioctl, dispatch}
use jornada_gpib.Driver.Traced.{
  Traced-bare, Traced-keep, Traced-write, Traced-read, Traced-registers, Traced-lines,
  Traced-raw_out, Traced-set_config, Traced-set_device, Traced-ifc, Traced-switch, Traced-commands,
  Traced-address, Traced-lockout,
}

module _ ⦃io : Io⦄ (rounds : ℕ) where
  Traced-clear : (pad sad : ℤ) → Traced feeding (Ops.clear rounds pad sad)
  unfolding Ops.clear
  Traced-clear pad sad =
      search (control, Traced-send_commands rounds, Traced-addressed_command rounds) depth 20

  Traced-trigger : (pad sad : ℤ) → Traced feeding (trigger rounds pad sad)
  unfolding trigger
  Traced-trigger pad sad = Traced-addressed_command rounds pad sad _

  Traced-local : (pad sad : ℤ) → Traced feeding (local rounds pad sad)
  unfolding local
  Traced-local pad sad = Traced-addressed_command rounds pad sad _

  Traced-pass_control : (pad : ℤ) → Traced feeding (pass_control rounds pad)
  unfolding pass_control
  Traced-pass_control pad = search (control, Traced-send_commands rounds) depth 20

  Traced-atn :
      (on : Bool) → Traced feeding (if on then take_control rounds false else go_to_standby rounds)
  Traced-atn on = search (control, Traced-if) depth 10

  Traced-other_ioctl : (o : Open) (r : Ioctl) → Traced feeding (other_ioctl rounds o r)
  unfolding other_ioctl
  Traced-other_ioctl o r =
      search
        (
          Traced-if,
          Traced-pure,
          Traced-keep,
          Traced-bare,
          Traced-write,
          Traced-read,
          Traced-registers,
          Traced-lines,
          Traced-raw_out,
          Traced-set_config,
          Traced-set_device,
          Traced-ifc,
          Traced-switch,
          Traced-commands,
          Traced-address,
          Traced-lockout,
          Traced-clear,
          Traced-trigger,
          Traced-local,
          Traced-pass_control,
          Traced-serial_poll rounds,
          Traced-remote_enable rounds,
          Traced-atn,
        )
        depth 80

  Traced-dispatch :
      (o : Open) (r : Ioctl)
      → (r.code == Wire.ioctl_gpib_probe || r.code == Wire.ioctl_gpib_register) ≡ false
      → Traced feeding (dispatch rounds o r)
  unfolding dispatch
  Traced-dispatch o r h = elim (Bool-cases (r.code == Wire.ioctl_gpib_probe)) [
    | inl e ↦ absurd (ground (arith, h, e))
    | inr e ↦ elim (Bool-cases (r.code == Wire.ioctl_gpib_register)) [
      | inl f ↦ absurd (ground (arith, h, f))
      | inr f ↦ rw (e, f) (Traced-other_ioctl o r)
    ]
  ]

  -- Any IOCTL that returns, but the self-test and the access to a register, keeps the copies of the
  -- auxiliary registers what was last written, and the delays at AUXMR and CMDR, as the chip's calls
  -- do.
  dispatch-IsCoherent :
      (o : Open) (r : Ioctl) (w : World) {w' : World} {a : Answer × Open}
      → (r.code == Wire.ioctl_gpib_probe || r.code == Wire.ioctl_gpib_register) ≡ false
      → IsCoherent w
      → IsSpaced w
      → dispatch rounds o r w ≡ done a w'
      → IsCoherent w' × IsSpaced w'
  dispatch-IsCoherent o r w h c s e = (
    Steps-IsCoherent c (Traced-Steps (Traced-dispatch o r h) e),
    Steps-IsSpaced s (Traced-Steps (Traced-dispatch o r h) e),
  )

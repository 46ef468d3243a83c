-- ===== src/Driver/Traced.antt =====
-- The steps that the IOCTLs of src/gpib/drv_ce.c take on the chip, but for the self-test and the
-- access to a register.
pub mod Served
use jornada_gpib.Prelude.{
  inr, inl, Bool-cases, ℕ, ◌≡◌, Bool, false, ◌||◌, ◌==◌, if◌then◌else◌, List, Option, none, some, ℤ,
  arith,
}
use jornada_gpib.Wire
use jornada_gpib.Chip.Io.{Io, World, done, M}
use jornada_gpib.Chip.Status.{Status, ok}
use jornada_gpib.Chip.Control.{take_control, go_to_standby}
use jornada_gpib.Chip.Protocol.Steps.{feeding}
use jornada_gpib.Chip.Protocol.Rules.{Traced, Traced-if, Traced-bind, Traced-pure, Traced-Steps}
use jornada_gpib.Chip.Protocol.Access.{access, Traced-is_cic}
use jornada_gpib.Chip.Protocol.Setup.{
  Traced-set_timeout, Traced-set_address, Traced-set_eos, Traced-set_t1,
}
use jornada_gpib.Chip.Protocol.Control
use jornada_gpib.Chip.Protocol.Control.{
  control, Traced-take_control, Traced-go_to_standby, Traced-snapshot,
}
use jornada_gpib.Chip.Protocol.Transfer.{Traced-transfer_out}
use jornada_gpib.Chip.Spacing.{IsSpaced, Steps-IsSpaced}
use jornada_gpib.Chip.Shadow.{IsCoherent, Steps-IsCoherent}
use jornada_gpib.Controller.Ops
use jornada_gpib.Controller.Ops.{
  send_commands, trigger, local, local_lockout, serial_poll, pass_control,
}
use jornada_gpib.Controller.Session.{
  Traced-interface_clear, Traced-send_commands, Traced-write_to, Traced-read_from,
  Traced-serial_poll, Traced-remote_enable, Traced-addressed_command,
}
use jornada_gpib.Driver.State.{
  chip_status, Config, GpibDevice, Open, Ioctl, Answer, DriverStatus, with_input,
}
use jornada_gpib.Driver.Ready.{ensure_cic, if_ready, in_charge, bare, apply_config}
use jornada_gpib.Driver.Ioctls.{
  bus_read, read_data, write_data, ioctl_write, ioctl_read, ioctl_snapshot, ioctl_lines,
  raw_transfer, raw_out, ioctl_raw_out,
}
use jornada_gpib.Driver.Dispatch.{
  keep, ioctl_set_config, ioctl_set_device, finish_op, ioctl_ifc, ioctl_switch, ioctl_command,
  ioctl_address, ioctl_lockout, other_ioctl, dispatch,
}
use jornada_gpib.Chip.Access.{is_cic}

pub Traced-with_input :
    {A : Type 0} (input : Option (List ℕ)) (size : ℕ) (missing : M A) (found : List ℕ → M A)
    → Traced feeding missing
    → ((bytes : List ℕ) → Traced feeding (found bytes))
    → Traced feeding (with_input input size missing found)
Traced-with_input none size missing found h k = h
Traced-with_input (some bytes) size missing found h k = Traced-if _ _ _ h (k bytes)

pub Traced-bare : (m : M Status) → Traced feeding m → Traced feeding (bare m)
unfolding bare
Traced-bare m t = Traced-bind m _ t (λ a. Traced-pure _)

pub Traced-keep : (o : Open) (m : M Answer) → Traced feeding m → Traced feeding (keep o m)
unfolding keep
Traced-keep o m t = Traced-bind m _ t (λ a. Traced-pure _)

pub Traced-apply_config : (d : GpibDevice) (c : Config) → Traced feeding (apply_config d c)
unfolding apply_config
Traced-apply_config d c =
    search (control, Traced-set_timeout, Traced-set_t1, Traced-set_address, Traced-set_eos) depth 30

module _ ⦃io : Io⦄ (rounds : ℕ) where
  pub Traced-ensure_cic : (d : GpibDevice) → Traced feeding (ensure_cic rounds d)
  unfolding ensure_cic
  Traced-ensure_cic d = Traced-if _ _ _ (Traced-pure _) (
      Traced-bind is_cic _ Traced-is_cic (λ cic.
        Traced-if cic _ _ (Traced-pure (chip_status ok))
          (Traced-bind _ _ (Traced-interface_clear rounds) (λ rc. Traced-pure (chip_status rc)))))

  pub Traced-if_ready :
      {A : Type 0} (rc : DriverStatus) (a : A) (op : M (Status × A))
      → Traced feeding op
      → Traced feeding (if_ready rounds rc a op)
  unfolding if_ready
  Traced-if_ready rc a op t =
      Traced-if _ _ _ (Traced-pure _) (Traced-bind op _ t (λ r. Traced-pure _))

  pub Traced-in_charge :
      {A : Type 0} (d : GpibDevice) (a : A) (op : M (Status × A))
      → Traced feeding op
      → Traced feeding (in_charge rounds d a op)
  unfolding in_charge
  Traced-in_charge d a op t =
      Traced-bind _ _ (Traced-ensure_cic d) (λ rc. Traced-if_ready rc a op t)

  pub Traced-finish_op :
      (room : Option ℕ) (op : M (DriverStatus × ℕ))
      → Traced feeding op
      → Traced feeding (finish_op rounds room op)
  unfolding finish_op
  Traced-finish_op room op t = Traced-bind op _ t (λ r. Traced-pure _)

  pub Traced-write :
      (d : GpibDevice) (input : Option (List ℕ)) (room : Option ℕ)
      → Traced feeding (ioctl_write rounds d input room)
  unfolding ioctl_write write_data
  Traced-write d input room =
      search
        (
          control,
          Traced-with_input,
          Traced-in_charge,
          Traced-write_to rounds,
          Control.Traced-snapshot,
        )
        depth 30

  pub Traced-bus_read : (bytes : List ℕ) → Traced feeding (bus_read rounds bytes)
  unfolding bus_read
  Traced-bus_read bytes = search (control, Traced-read_from rounds) depth 20

  pub Traced-read :
      (d : GpibDevice) (input : Option (List ℕ)) (room : Option ℕ)
      → Traced feeding (ioctl_read rounds d input room)
  unfolding ioctl_read read_data
  Traced-read d input none = Traced-pure _
  Traced-read d input (some n) =
      search (control, Traced-with_input, Traced-in_charge, Traced-bus_read) depth 30

  pub Traced-registers :
      (d : GpibDevice) (room : Option ℕ) → Traced feeding (ioctl_snapshot rounds d room)
  unfolding ioctl_snapshot
  Traced-registers d room = search (control, Control.Traced-snapshot) depth 30

  pub Traced-lines : (d : GpibDevice) (room : Option ℕ) → Traced feeding (ioctl_lines rounds d room)
  unfolding ioctl_lines
  Traced-lines d room = search access depth 30

  pub Traced-raw_transfer :
      (buf : List ℕ) (flags : ℕ) → Traced feeding (raw_transfer rounds buf flags)
  unfolding raw_transfer
  Traced-raw_transfer buf flags =
      search (control, Control.Traced-snapshot, Traced-transfer_out rounds) depth 30

  pub Traced-raw_out :
      (d : GpibDevice) (input : Option (List ℕ)) (room : Option ℕ)
      → Traced feeding (ioctl_raw_out rounds d input room)
  unfolding ioctl_raw_out raw_out
  Traced-raw_out d input room =
      search (control, Traced-with_input, Traced-if_ready, Traced-raw_transfer) depth 30

  pub Traced-set_config :
      (o : Open) (input : Option (List ℕ)) → Traced feeding (ioctl_set_config rounds o input)
  unfolding ioctl_set_config
  Traced-set_config o input = search (control, Traced-with_input, Traced-apply_config) depth 30

  pub Traced-set_device :
      (o : Open) (input : Option (List ℕ)) → Traced feeding (ioctl_set_device rounds o input)
  unfolding ioctl_set_device
  Traced-set_device o input = search (control, Traced-with_input) depth 30

  pub Traced-ifc : (d : GpibDevice) (room : Option ℕ) → Traced feeding (ioctl_ifc rounds d room)
  unfolding ioctl_ifc
  Traced-ifc d room =
      search (Traced-finish_op, Traced-if_ready, Traced-bare, Traced-interface_clear rounds) depth
        20

  pub Traced-switch :
      (d : GpibDevice) (input : Option (List ℕ)) (room : Option ℕ) (op : Bool → M Status)
      → ((on : Bool) → Traced feeding (op on))
      → Traced feeding (ioctl_switch rounds d input room op)
  unfolding ioctl_switch
  Traced-switch d input room op t =
      search (control, Traced-with_input, Traced-finish_op, Traced-if_ready, Traced-bare) depth 20

  pub Traced-commands :
      (d : GpibDevice) (input : Option (List ℕ)) (room : Option ℕ)
      → Traced feeding (ioctl_command rounds d input room)
  unfolding ioctl_command
  Traced-commands d input room =
      search
        (
          control,
          Traced-with_input,
          Traced-finish_op,
          Traced-in_charge,
          Traced-bare,
          Traced-send_commands rounds,
        )
        depth 30

  pub Traced-address :
      (d : GpibDevice) (input : Option (List ℕ)) (room : Option ℕ) (op : ℤ → ℤ → M (Status × ℕ))
      → ((pad sad : ℤ) → Traced feeding (op pad sad))
      → Traced feeding (ioctl_address rounds d input room op)
  unfolding ioctl_address
  Traced-address d input room op t =
      search (control, Traced-with_input, Traced-finish_op, Traced-in_charge) depth 20

  pub Traced-lockout :
      (d : GpibDevice) (room : Option ℕ) → Traced feeding (ioctl_lockout rounds d room)
  unfolding ioctl_lockout local_lockout
  Traced-lockout d room =
      search (Traced-finish_op, Traced-in_charge, Traced-bare, Traced-send_commands rounds) depth 20

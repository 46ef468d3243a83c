-- ===== src/Driver/Dispatch.antt =====
-- `dispatch` of src/gpib/drv_ce.c, and the calls of the stream interface that use it.
use jornada_gpib.Prelude.{
  ℕ, Bool, false, not, ◌||◌, ◌==◌, ltb, if◌then◌else◌, List, length, Option, ℤ, is_neg, gtz,
  ge_minus_one,
}
use jornada_gpib.Chip.Io.{Io, M, ◌>>=◌, pure}
use jornada_gpib.Chip.Status.{Status}
use jornada_gpib.Chip.Control.{take_control, go_to_standby}
use jornada_gpib.Controller.Ops
use jornada_gpib.Controller.Ops.{
  send_commands, trigger, local, local_lockout, serial_poll, pass_control,
}
use jornada_gpib.Wire
use jornada_gpib.Wire.{word_at, int_at, size_address, size_config}
use jornada_gpib.Driver.State.{
  Config, GpibDevice, Open, Ioctl, Answer, refused, accepted, DriverStatus, is_ready, put_result,
  with_input, error_invalid_parameter,
}
use jornada_gpib.Driver.Ready.{bare, check_ready, if_ready, in_charge, apply_config}
use jornada_gpib.Driver.Ioctls.{
  ioctl_get_info, ioctl_write, ioctl_read, ioctl_probe, ioctl_register, ioctl_cis, ioctl_snapshot,
  ioctl_raw_out, ioctl_lines, max_xfer_inline,
}

abbrev pub config_of : List ℕ → Config
config_of bytes = record {
  timeout_ms = word_at bytes 0;
  t1_ns = word_at bytes 1;
  pad = int_at bytes 2;
  sad = int_at bytes 3;
  eos = word_at bytes 4;
  eos_flags = word_at bytes 5;
}

-- c.pad < 0 || c.pad > 30 || c.sad > 30 || c.sad < -1
abbrev pub bad_config : Config → Bool
bad_config c = is_neg c.pad || gtz c.pad 30 || gtz c.sad 30 || not (ge_minus_one c.sad)

-- The answer of a call that changes no field of the open context or the device.
unfoldable pub keep : Open → M Answer → M (Answer × Open)
unfolding pure
keep o m = do a ← m; pure (a, o)

module _ ⦃io : Io⦄ (rounds : ℕ) where
  -- IOCTL_GPIB_SET_CONFIG
  unfoldable pub ioctl_set_config : Open → Option (List ℕ) → M (Answer × Open)
  unfolding pure apply_config
  ioctl_set_config o input =
      with_input input size_config (pure (refused error_invalid_parameter, o)) λ bytes.
        if bad_config (config_of bytes)
        then pure (refused error_invalid_parameter, o)
        else do d ← apply_config o.dev (config_of bytes); pure (accepted, record o { dev = d })

  -- IOCTL_GPIB_SET_DEVICE
  unfoldable pub ioctl_set_device : Open → Option (List ℕ) → M (Answer × Open)
  unfolding pure
  ioctl_set_device o input =
      with_input input size_address (pure (refused error_invalid_parameter, o)) λ bytes.
        pure (accepted, record o { current_pad = int_at bytes 0; current_sad = int_at bytes 1 })

  -- With the result of an operation that returns a code and a count.
  unfoldable pub finish_op : Option ℕ → M (DriverStatus × ℕ) → M Answer
  unfolding pure put_result
  finish_op room op = do (rc, count) ← op; pure (put_result room rc count 0)

  -- IOCTL_GPIB_IFC
  unfoldable pub ioctl_ifc : GpibDevice → Option ℕ → M Answer
  unfolding finish_op if_ready check_ready bare Ops.interface_clear
  ioctl_ifc d room =
      finish_op room (if_ready rounds (check_ready d) 0 (bare (Ops.interface_clear rounds)))

  -- IOCTL_GPIB_REN, IOCTL_GPIB_ATN: the operation depends on a 32-bit flag.
  unfoldable pub ioctl_switch :
      GpibDevice → Option (List ℕ) → Option ℕ → (Bool → M Status) → M Answer
  unfolding pure finish_op if_ready check_ready bare
  ioctl_switch d input room op =
      with_input input 4 (pure (refused error_invalid_parameter)) λ bytes.
        finish_op room (if_ready rounds (check_ready d) 0 (bare (op (not (word_at bytes 0 == 0)))))

  -- IOCTL_GPIB_COMMAND; the count of the bytes that were sent is all or nothing.
  unfoldable pub ioctl_command : GpibDevice → Option (List ℕ) → Option ℕ → M Answer
  unfolding pure finish_op in_charge bare send_commands
  ioctl_command d input room = with_input input 1 (pure (refused error_invalid_parameter)) λ bytes.
      if ltb max_xfer_inline (length bytes) then pure (refused error_invalid_parameter) else do
        (rc, _) ← in_charge rounds d 0 (bare (send_commands rounds bytes))
        finish_op room (pure (rc, if is_ready rc then length bytes else 0))

  -- IOCTL_GPIB_CLEAR, _TRIGGER, _LOCAL, _PASS_CONTROL, _SERIAL_POLL: an operation on an address.
  unfoldable pub ioctl_address :
      GpibDevice → Option (List ℕ) → Option ℕ → (ℤ → ℤ → M (Status × ℕ)) → M Answer
  unfolding pure finish_op in_charge
  ioctl_address d input room op =
      with_input input size_address (pure (refused error_invalid_parameter))
        λ bytes. finish_op room (in_charge rounds d 0 (op (int_at bytes 0) (int_at bytes 1)))

  -- IOCTL_GPIB_LOCAL_LOCKOUT
  unfoldable pub ioctl_lockout : GpibDevice → Option ℕ → M Answer
  unfolding finish_op in_charge bare local_lockout
  ioctl_lockout d room = finish_op room (in_charge rounds d 0 (bare (local_lockout rounds)))

  -- Every case but the self-test and the access to a register.
  unfoldable pub other_ioctl : Open → Ioctl → M (Answer × Open)
  unfolding pure keep ioctl_set_config ioctl_set_device ioctl_ifc ioctl_switch ioctl_command
      ioctl_address ioctl_lockout
  other_ioctl o r =
      let d = o.dev in
      if r.code == Wire.ioctl_gpib_get_info
      then pure (ioctl_get_info d r.room, o)
      else if r.code == Wire.ioctl_gpib_set_config
      then ioctl_set_config o r.input
      else if r.code == Wire.ioctl_gpib_set_device
      then ioctl_set_device o r.input
      else if r.code == Wire.ioctl_gpib_ifc
      then keep o (ioctl_ifc d r.room)
      else if r.code == Wire.ioctl_gpib_ren
      then keep o (ioctl_switch d r.input r.room Ops.remote_enable)
      else if r.code == Wire.ioctl_gpib_lines
      then keep o (ioctl_lines rounds d r.room)
      else if r.code == Wire.ioctl_gpib_write
      then keep o (ioctl_write rounds d r.input r.room)
      else if r.code == Wire.ioctl_gpib_read
      then keep o (ioctl_read rounds d r.input r.room)
      else if r.code == Wire.ioctl_gpib_command
      then keep o (ioctl_command d r.input r.room)
      else if r.code == Wire.ioctl_gpib_clear
      then keep o (ioctl_address d r.input r.room λ pad sad. bare (Ops.clear rounds pad sad))
      else if r.code == Wire.ioctl_gpib_trigger
      then keep o (ioctl_address d r.input r.room λ pad sad. bare (trigger rounds pad sad))
      else if r.code == Wire.ioctl_gpib_local
      then keep o (ioctl_address d r.input r.room λ pad sad. bare (local rounds pad sad))
      else if r.code == Wire.ioctl_gpib_pass_control
      then keep o (ioctl_address d r.input r.room λ pad sad. bare (pass_control rounds pad))
      else if r.code == Wire.ioctl_gpib_local_lockout
      then keep o (ioctl_lockout d r.room)
      else if r.code == Wire.ioctl_gpib_serial_poll
      then keep o (ioctl_address d r.input r.room λ pad sad. serial_poll rounds pad sad)
      else if r.code == Wire.ioctl_gpib_cis
      then pure (ioctl_cis d r.room, o)
      else if r.code == Wire.ioctl_gpib_snapshot
      then keep o (ioctl_snapshot rounds d r.room)
      else if r.code == Wire.ioctl_gpib_raw_out
      then keep o (ioctl_raw_out rounds d r.input r.room)
      else if r.code == Wire.ioctl_gpib_atn
      then keep o (
          ioctl_switch d r.input r.room
            λ on. if on then take_control rounds false else go_to_standby rounds)
      else pure (refused error_invalid_parameter, o)

  unfoldable pub dispatch : Open → Ioctl → M (Answer × Open)
  unfolding keep ioctl_probe ioctl_register other_ioctl
  dispatch o r =
      if r.code == Wire.ioctl_gpib_probe
      then ioctl_probe rounds o r.room
      else if r.code == Wire.ioctl_gpib_register
      then keep o (ioctl_register rounds o.dev r.input r.room)
      else other_ioctl o r

-- ===== src/Driver/Ready.antt =====
-- What src/gpib/drv_ce.c does before an operation on the bus, and its start of the chip.
use jornada_gpib.Prelude.{ℕ, ◌%◌, ◌^◌, not, if◌then◌else◌, bits32}
use jornada_gpib.Chip.Io.{Io, M, ◌>>=◌, ◌>>◌, pure, rd}
use jornada_gpib.Chip.Status.{Status, ok, eio, is_ok}
use jornada_gpib.Chip.Reg
use jornada_gpib.Chip.Access.{is_cic}
use jornada_gpib.Chip.Setup.{bind, probe, init, set_timeout, set_t1, set_address, set_eos}
use jornada_gpib.Controller.Ops
use jornada_gpib.Driver.State.{Config, GpibDevice, DriverStatus, chip_status, no_card, is_ready}

unfoldable pub check_ready : GpibDevice → DriverStatus
check_ready d =
    if not d.card_present
    then no_card
    else if not d.chip_ok
    then chip_status eio
    else chip_status ok

module _ ⦃io : Io⦄ (rounds : ℕ) where
  unfoldable pub ensure_cic : GpibDevice → M DriverStatus
  unfolding pure check_ready is_cic Ops.interface_clear
  ensure_cic d =
      let rc = check_ready d in
      if not (is_ready rc) then pure rc else do
        cic ← is_cic
        if cic
            then pure (chip_status ok)
            else do rc' ← Ops.interface_clear rounds; pure (chip_status rc')

  -- rc = ...; if (rc == GPIB_ST_OK) rc = op; with `refused` as the results of an operation that is
  -- not reached.
  unfoldable pub if_ready : {A : Type 0} → DriverStatus → A → M (Status × A) → M (DriverStatus × A)
  unfolding pure
  if_ready rc refused op =
      if not (is_ready rc) then pure (rc, refused) else do (rc', a) ← op; pure (chip_status rc', a)

  -- After ensure_cic.
  unfoldable pub in_charge : {A : Type 0} → GpibDevice → A → M (Status × A) → M (DriverStatus × A)
  unfolding ensure_cic if_ready
  in_charge d refused op = do rc ← ensure_cic d; if_ready rc refused op

  -- The log lines read STS1 and ADSR.
  unfoldable pub chip_bringup : GpibDevice → M GpibDevice
  unfolding pure rd bind probe init set_timeout is_cic Ops.interface_clear
  chip_bringup d = do
    bind
    (_, seen) ← probe
    rc ← init (bits32 d.config.pad % 2 ^ 8)
    set_timeout d.config.timeout_ms
    let d' : GpibDevice = record d { probe = seen; chip_ok = is_ok rc }
    _ ← rd Reg.sts1
    if not (is_ok rc) then pure d' else do _ ← Ops.interface_clear rounds; _ ← is_cic; pure d'

-- An operation with a code only.
unfoldable pub bare : M Status → M (Status × ℕ)
unfolding pure
bare m = do rc ← m; pure (rc, 0)

unfoldable pub apply_config : GpibDevice → Config → M GpibDevice
unfolding pure set_timeout set_t1 set_address set_eos
apply_config d c =
    let d' : GpibDevice = record d { config = c } in
    if not d'.chip_ok then pure d' else do
      set_timeout c.timeout_ms
      _ ← set_t1 c.t1_ns
      _ ← set_address (bits32 c.pad % 2 ^ 8) c.sad
      _ ← set_eos (c.eos % 2 ^ 8) c.eos_flags
      pure d'

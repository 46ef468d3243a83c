-- ===== src/Controller/Ops.antt =====
-- The controller's operations over the chip driver. `rounds` is granted to each polling loop.
use jornada_gpib.Prelude.{
  ℕ, Bool, true, false, not, ◌&&◌, ◌==◌, if◌then◌else◌, List, [], ◌∷◌, length, get_or, has, ℤ,
  negsuc, is_neg,
}
use jornada_gpib.Chip.Io.{Io, M, ◌>>=◌, pure, chip}
use jornada_gpib.Chip.Status.{Status, eio, einval, is_ok}
use jornada_gpib.Chip.Bits.{tnt_bsr_srq}
use jornada_gpib.Chip.Access.{if_ok, bus_lines}
use jornada_gpib.Chip.Control
use jornada_gpib.Chip.Control.{take_control, go_to_standby}
use jornada_gpib.Chip.Transfer
use jornada_gpib.Chip.Transfer.{command}
use jornada_gpib.Controller.Bytes.{
  gpib_gtl, gpib_sdc, gpib_get, gpib_tct, gpib_llo, gpib_dcl, gpib_tad, valid_address,
  build_address, build_addressed, build_poll, poll_tail,
}

-- if (later != TNT_OK && rc == TNT_OK) rc = TNT_EIO;
abbrev pub keep_first : Status → Status → Status
keep_first rc later = if not (is_ok later) && is_ok rc then eio else rc

-- if (rc == TNT_OK && count != n) rc = TNT_EIO;
abbrev pub all_of : ℕ → ℕ → Status → Status
all_of count n rc = if is_ok rc && not (count == n) then eio else rc

module _ ⦃io : Io⦄ where
  unfoldable pub interface_clear : ℕ → M Status
  unfolding if_ok Control.interface_clear take_control
  interface_clear rounds = do rc ← Control.interface_clear; if_ok rc (take_control rounds false)

  unfoldable pub remote_enable : Bool → M Status
  unfolding Control.remote_enable
  remote_enable on = Control.remote_enable on

  unfoldable pub send_commands : ℕ → List ℕ → M Status
  unfolding pure command
  send_commands rounds cmd = do (rc, sent) ← command rounds cmd; pure (all_of sent (length cmd) rc)

  unfoldable pub address_device : ℕ → ℤ → ℤ → Bool → M Status
  unfolding pure chip send_commands build_address
  address_device rounds pad sad device_talks =
      if not (valid_address pad sad)
      then pure einval
      else do c ← chip; send_commands rounds (build_address c pad sad device_talks)

  -- Take control again, whatever happened, and keep the first error.
  unfoldable pub regain : ℕ → Status → M Status
  unfolding pure take_control
  regain rounds rc = do later ← take_control rounds false; pure (keep_first rc later)

  -- `*sent` is returned beside the code.
  unfoldable pub write : ℕ → ℤ → ℤ → List ℕ → Bool → M (Status × ℕ)
  unfolding pure address_device go_to_standby Transfer.write regain
  write rounds pad sad buf eoi = do
    rc ← address_device rounds pad sad false
    if not (is_ok rc) then pure (rc, 0) else do
      rc' ← go_to_standby rounds
      if not (is_ok rc') then pure (rc', 0) else do
        (done', sent) ← Transfer.write rounds buf eoi
        last ← regain rounds done'
        pure (last, sent)

  -- The bytes read and `*end` are returned beside the code.
  unfoldable pub read : ℕ → ℤ → ℤ → ℕ → M (Status × List ℕ × Bool)
  unfolding pure address_device go_to_standby Transfer.read regain
  read rounds pad sad cap = do
    rc ← address_device rounds pad sad true
    if not (is_ok rc) then pure (rc, [], false) else do
      rc' ← go_to_standby rounds
      if not (is_ok rc') then pure (rc', [], false) else do
        (done', buf, end) ← Transfer.read rounds cap
        last ← regain rounds done'
        pure (last, buf, end)

  unfoldable pub addressed_command : ℕ → ℤ → ℤ → ℕ → M Status
  unfolding pure send_commands build_addressed
  addressed_command rounds pad sad byte =
      if not (valid_address pad sad)
      then pure einval
      else send_commands rounds (build_addressed pad sad byte)

  unfoldable pub clear : ℕ → ℤ → ℤ → M Status
  unfolding send_commands addressed_command
  clear rounds pad sad =
      if is_neg pad
      then send_commands rounds (gpib_dcl ∷ [])
      else addressed_command rounds pad sad gpib_sdc

  unfoldable pub trigger : ℕ → ℤ → ℤ → M Status
  unfolding addressed_command
  trigger rounds pad sad = addressed_command rounds pad sad gpib_get

  unfoldable pub local : ℕ → ℤ → ℤ → M Status
  unfolding addressed_command
  local rounds pad sad = addressed_command rounds pad sad gpib_gtl

  unfoldable pub local_lockout : ℕ → M Status
  unfolding send_commands
  local_lockout rounds = send_commands rounds (gpib_llo ∷ [])

  -- The status byte: the code, and what is in `*status`.
  unfoldable pub poll_byte : ℕ → M (Status × ℕ)
  unfolding pure Transfer.read
  poll_byte rounds = do
    (rc, buf, end) ← Transfer.read rounds 1
    pure (all_of (length buf) 1 rc, get_or buf 0 0)

  unfoldable pub poll_device : ℕ → List ℕ → M (Status × ℕ)
  unfolding pure send_commands go_to_standby poll_byte
  poll_device rounds cmd = do
    rc ← send_commands rounds cmd
    if not (is_ok rc) then pure (rc, 0) else do
      rc' ← go_to_standby rounds
      if not (is_ok rc') then pure (rc', 0) else poll_byte rounds

  -- Back in control, serial polling is disabled and the talker unaddressed on every path.
  unfoldable pub end_poll : ℕ → Status → M Status
  unfolding pure regain send_commands
  end_poll rounds rc = do
    rc' ← regain rounds rc
    later ← send_commands rounds poll_tail
    pure (keep_first rc' later)

  unfoldable pub serial_poll : ℕ → ℤ → ℤ → M (Status × ℕ)
  unfolding pure chip build_poll poll_device end_poll
  serial_poll rounds pad sad = if not (valid_address pad sad) then pure (einval, 0) else do
    c ← chip
    (rc, status) ← poll_device rounds (build_poll c pad sad)
    rc' ← end_poll rounds rc
    pure (rc', status)

  unfoldable pub pass_control : ℕ → ℤ → M Status
  unfolding if_ok pure send_commands go_to_standby
  pass_control rounds pad = if not (valid_address pad (negsuc 0)) then pure einval else do
    rc ← send_commands rounds (gpib_tad pad ∷ gpib_tct ∷ [])
    if_ok rc (go_to_standby rounds)

  unfoldable pub lines : M ℕ
  unfolding bus_lines
  lines = bus_lines

  unfoldable pub srq_asserted : M Bool
  unfolding pure bus_lines
  srq_asserted = do v ← bus_lines; pure (has v tnt_bsr_srq)

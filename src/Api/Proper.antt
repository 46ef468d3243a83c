-- ===== src/Api/Proper.antt =====
-- The IOCTLs of src/gpibapi/ib.c against the checks of src/gpib/drv_ce.c: the sizes of the buffers.
pub mod Kept
use jornada_gpib.Prelude.{
  bits32, ge_minus_one, drop, Option-cases, gtz, is_neg, Bool-cases, ℕ, zero, suc, ◌+◌, ◌-◌, ◌^◌,
  ◌≡◌, refl, ◌⊎◌, inl, inr, Bool, true, false, not, ◌&&◌, ◌||◌, ◌==◌, ltb, leb, if◌then◌else◌, List,
  [], ◌∷◌, ◌++◌, length, take, Option, none, some, ℤ, pos, negsuc, arith,
}
use jornada_gpib.Wire
use jornada_gpib.Wire.{
  words, word_at, size_result, size_xfer, size_config, size_info, size_lines, size_address,
}
use jornada_gpib.Api.State.{
  initial, Device, Event, asked, opened, allocated, Os, Api, C, ◌>>=◌, ◌>>◌, give, api, fail, ok,
  device, put_device,
}
use jornada_gpib.Api.Requests.{
  ioctl, last_error, fail_edvr, simple_ioctl, apply_device_settings, alloc, config_for,
}
use jornada_gpib.Api.Calls.{
  is_zero, filled, first_free, addr_words, add_timo, open_driver, ibfind_board, ibconfig_board,
  ibsic, ibsre, iblines, claim, ibdev,
}
use jornada_gpib.Api.Transfers.{
  write_request, read_request, with_device, write_to, read_done, read_buffer, read_from, addressed,
  poll_device, configure, ibonl, ibtmo_ms, ibtmo, ibeot, ibeos, ibllo, ibclr, ibtrg, ibloc, ibpct,
  ibrd, ibwrt, ibrsp,
}
use jornada_gpib.Api.Session.{
  DeviceCall, online, eot_to, writes, reads, clears, triggers, to_local, passes, polls,
  timeout_code, timeout_to, eos_to, Call, finds_board, interface_clear, locks_out, looks,
  config_board, remote_enable, opens, on_device, run_device, run, run_all,
}
use jornada_gpib.Api.Codes.{ib_t1000s, ib_max_devices}

-- An input of at least `n` bytes, with what is asked of them.
abbrev pub has_input : Option (List ℕ) → ℕ → (List ℕ → Bool) → Bool
has_input none n p = false
has_input (some bytes) n p = leb n (length bytes) && p bytes

abbrev pub is_address_code : ℕ → Bool
is_address_code code =
    code == Wire.ioctl_gpib_clear
    || code == Wire.ioctl_gpib_trigger
    || code == Wire.ioctl_gpib_local
    || code == Wire.ioctl_gpib_pass_control
    || code == Wire.ioctl_gpib_serial_poll

-- The sizes that the driver asks for, a transfer's length included.
unfoldable pub proper : Event → Bool
proper opened = true
proper (allocated n) = true
proper (asked code input room) =
    if code == Wire.ioctl_gpib_get_info
    then leb size_info room
    else if code == Wire.ioctl_gpib_set_config
    then has_input input size_config (λ bytes. true)
    else if code == Wire.ioctl_gpib_lines
    then leb size_lines room
    else if code == Wire.ioctl_gpib_ren
    then leb size_result room && has_input input 4 (λ bytes. true)
    else if code == Wire.ioctl_gpib_write
    then leb size_result room
      && has_input input size_xfer (λ bytes. leb (word_at bytes 3) (length bytes - size_xfer))
    else if code == Wire.ioctl_gpib_read
    then leb size_result room
      && has_input input size_xfer (λ bytes. leb (word_at bytes 3) (room - size_result))
    else if is_address_code code
    then leb size_result room && has_input input size_address (λ bytes. true)
    else (code == Wire.ioctl_gpib_ifc || code == Wire.ioctl_gpib_local_lockout)
      && leb size_result room

unfoldable pub all_proper : List Event → Bool
unfolding proper
all_proper [] = true
all_proper (e ∷ es) = proper e && all_proper es

-- The call keeps a proper history proper.
abbrev pub Keeps : {A : Type 0} → C A → Type 0
Keeps m = (s : Api) → all_proper s.log ≡ true → all_proper (m s).1.log ≡ true

pub write_request-proper :
    (d : Device) (bytes : List ℕ)
    → proper (asked Wire.ioctl_gpib_write (some (write_request d bytes)) size_result) ≡ true
unfolding proper
write_request-proper d bytes = ground arith

pub read_request-proper :
    (d : Device) (cnt : ℕ)
    → proper (asked Wire.ioctl_gpib_read (some (read_request d cnt)) (size_result + cnt)) ≡ true
unfolding proper
read_request-proper d cnt = ground arith

module _ ⦃os : Os⦄ where
  pub Keeps-fail_edvr : Keeps fail_edvr
  unfolding fail_edvr last_error
  Keeps-fail_edvr s p = p

  pub Keeps-simple :
      (code : ℕ) (input : Option (List ℕ))
      → proper (asked code input size_result) ≡ true
      → Keeps (simple_ioctl code input)
  unfolding simple_ioctl last_error all_proper
  Keeps-simple code input h s p = ground (arith, h, p)

  pub config-proper :
      (d : Device) (info : List ℕ)
      → proper (asked Wire.ioctl_gpib_set_config (some (config_for d info)) 0) ≡ true
  unfolding proper
  config-proper d info = refl

  pub lines-proper : proper (asked Wire.ioctl_gpib_lines none size_lines) ≡ true
  unfolding proper
  lines-proper = refl

  pub info-proper : proper (asked Wire.ioctl_gpib_get_info none size_info) ≡ true
  unfolding proper
  info-proper = refl

  pub Keeps-ioctl :
      (code : ℕ) (input : Option (List ℕ)) (room : ℕ)
      → proper (asked code input room) ≡ true
      → Keeps (ioctl code input room)
  unfolding ioctl all_proper
  Keeps-ioctl code input room h s p = ground (arith, h, p)

  pub Keeps-apply : (d : Device) → Keeps (apply_device_settings d)
  unfolding apply_device_settings last_error
  Keeps-apply d s p =
      let (info, u) = ioctl Wire.ioctl_gpib_get_info none size_info s in
      let first = Keeps-ioctl Wire.ioctl_gpib_get_info none size_info info-proper s p in
      let second =
        Keeps-ioctl Wire.ioctl_gpib_set_config (some (config_for d info.output)) 0
          (config-proper d info.output) u first in
      ground (arith, first, second)

  -- What comes after the settings were applied.
  pub after_settings :
      {A : Type 0} (d : Device) (refused : ℕ → A) (k : C A)
      → Keeps k
      → Keeps (
          apply_device_settings d >>= λ r.
          api >>= λ u. if not (r == 0) then give (refused u.ibsta) else k)
  after_settings d refused k h s p = elim (Bool-cases ((apply_device_settings d s).0 == 0)) [
    | inl e ↦ rw e (h (apply_device_settings d s).1 (Keeps-apply d s p))
    | inr e ↦ rw e (Keeps-apply d s p)
  ]

  pub Keeps-write_to : (d : Device) (bytes : List ℕ) → Keeps (write_to d bytes)
  unfolding write_to last_error all_proper
  Keeps-write_to d bytes =
      after_settings d (λ sta. sta) _ (λ s p. ground (arith, p, write_request-proper d bytes))

  pub Keeps-read_done : (cnt : ℕ) (output : List ℕ) → Keeps (read_done cnt output)
  unfolding read_done
  Keeps-read_done cnt output s p = ground (arith, p)

  pub Keeps-read_buffer : (d : Device) (cnt : ℕ) → Keeps (read_buffer d cnt)
  unfolding read_buffer last_error all_proper
  Keeps-read_buffer d cnt s p =
      let room = size_result + cnt in
      let asked_state = record s {
        log = asked Wire.ioctl_gpib_read (some (read_request d cnt)) room ∷ allocated room ∷ s.log;
      } in
      let q : all_proper asked_state.log ≡ true = ground (arith, p, read_request-proper d cnt) in
      ground (
        arith,
        p,
        q,
        Keeps-read_done cnt (filled room (os.control asked_state.log).output) asked_state q,
      )

  pub Keeps-read_from : (d : Device) (cnt : ℕ) → Keeps (read_from d cnt)
  unfolding read_from
  Keeps-read_from d cnt = after_settings d (λ sta. (sta, [])) _ (Keeps-read_buffer d cnt)

  pub address-proper :
      (code : ℕ) (d : Device)
      → is_address_code code ≡ true
      → proper (asked code (some (addr_words d)) size_result) ≡ true
  unfolding proper
  address-proper code d h = ground (arith, h)

  pub Keeps-poll_device : (d : Device) → Keeps (poll_device d)
  unfolding poll_device last_error
  Keeps-poll_device d =
      after_settings d (λ sta. (sta, none)) _
        (λ s p.
          let q =
            Keeps-ioctl Wire.ioctl_gpib_serial_poll (some (addr_words d)) size_result
              (address-proper Wire.ioctl_gpib_serial_poll d refl) s p in
          ground (arith, q))

-- ===== src/Api/Requests.antt =====
-- The IOCTLs of src/gpibapi/ib.c. `last` is the error code that GetLastError gives after a failure.
use jornada_gpib.Prelude.{
  ℕ, bit_and, bit_or, Bool, false, not, ◌==◌, if◌then◌else◌, has, List, [], ◌∷◌, Option, none, some,
  ℤ, pos, int_of,
}
use jornada_gpib.Wire.{
  words, word_at, int_at, size_result, size_info, ioctl_gpib_get_info, ioctl_gpib_set_config,
}
use jornada_gpib.Api.Codes.{ib_edvr, ib_reos, ib_xeos, ib_bin, map_status}
use jornada_gpib.Api.State.{Device, asked, allocated, Reply, Os, C, ◌>>=◌, give, fail, ok}

abbrev pub eos_reos : ℕ
eos_reos = 1

abbrev pub eos_bin : ℕ
eos_bin = 2

abbrev pub eos_xeos : ℕ
eos_xeos = 4

abbrev pub flag_if : Bool → ℕ → ℕ
flag_if b flag = if b then flag else 0

-- The `eos_flags` for the packed `eos` of a device.
abbrev pub eos_flags_of : ℕ → ℕ
eos_flags_of eos =
    bit_or (bit_or (flag_if (has eos ib_reos) eos_reos) (flag_if (has eos ib_xeos) eos_xeos))
      (flag_if (has eos ib_bin) eos_bin)

-- The configuration with the settings of a device, from the bytes of a `gpib_info`.
abbrev pub config_for : Device → List ℕ → List ℕ
config_for d info = words (
    d.timeout_ms
    ∷ word_at info 16
    ∷ word_at info 17
    ∷ word_at info 18
    ∷ bit_and d.eos 0xff
    ∷ eos_flags_of d.eos
    ∷ [])

module _ ⦃os : Os⦄ where
  -- With no driver the call fails at once.
  unfoldable pub ioctl : (code : ℕ) → (input : Option (List ℕ)) → (room : ℕ) → C Reply
  ioctl code input room s =
      if not s.driver
      then (record { good = false; output = [] }, s)
      else let log' = asked code input room ∷ s.log in (os.control log', record s { log = log' })

  unfoldable pub last_error : C ℤ
  last_error s = (int_of (os.last_error s.log), s)

  -- return fail(IB_EDVR, (long)GetLastError());
  unfoldable pub fail_edvr : C ℕ
  unfolding last_error fail
  fail_edvr = do e ← last_error; fail ib_edvr e

  unfoldable pub simple_ioctl : ℕ → Option (List ℕ) → C ℕ
  unfolding ioctl fail_edvr fail ok
  simple_ioctl code input = do
    r ← ioctl code input size_result
    if not r.good
        then fail_edvr
        else if not (word_at r.output 0 == 0)
        then fail (map_status (int_at r.output 0)) (pos 0)
        else ok (int_at r.output 1) 0

  -- 0 where the settings were applied.
  unfoldable pub apply_device_settings : Device → C ℕ
  unfolding ioctl fail_edvr
  apply_device_settings d = do
    info ← ioctl ioctl_gpib_get_info none size_info
    if not info.good then fail_edvr else do
      r ← ioctl ioctl_gpib_set_config (some (config_for d info.output)) 0
      if not r.good then fail_edvr else give 0

  -- LocalAlloc
  unfoldable pub alloc : ℕ → C Bool
  alloc size s = let log' = allocated size ∷ s.log in (os.allocates log', record s { log = log' })

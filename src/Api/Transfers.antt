-- ===== src/Api/Transfers.antt =====
-- The calls of include/gpib/ib.h on a device.
use jornada_gpib.Prelude.{
  ◌^◌, ℕ, ◌+◌, ◌%◌, Bool, false, not, ◌||◌, ◌==◌, if◌then◌else◌, List, [], ◌∷◌, ◌++◌, length, take,
  drop, Option, none, some, ℤ, pos, negsuc, is_neg, gtz, bits32, int_of,
}
use jornada_gpib.Wire.{
  words, word_at, int_at, size_result, size_xfer, ioctl_gpib_write, ioctl_gpib_read,
  ioctl_gpib_clear, ioctl_gpib_trigger, ioctl_gpib_local, ioctl_gpib_local_lockout,
  ioctl_gpib_serial_poll, ioctl_gpib_pass_control,
}
use jornada_gpib.Api.Codes
use jornada_gpib.Api.Codes.{ib_edvr, ib_earg, ib_eabo, ib_timo, ib_end, ib_t1000s, map_status}
use jornada_gpib.Api.State.{Device, Os, C, ◌>>=◌, ◌>>◌, give, api, fail, ok, device, put_device}
use jornada_gpib.Api.Requests.{ioctl, fail_edvr, simple_ioctl, apply_device_settings, alloc}
use jornada_gpib.Api.Calls.{gpib_xf_eoi, filled, at_most, addr_words, add_timo}

-- The header and the data of a write.
abbrev pub write_request : Device → List ℕ → List ℕ
write_request d bytes =
    words (bits32 d.pad ∷ bits32 d.sad ∷ (if d.eot then gpib_xf_eoi else 0) ∷ length bytes ∷ [])
    ++ bytes

-- The header of a read of up to `cnt` bytes.
abbrev pub read_request : Device → ℕ → List ℕ
read_request d cnt = words (bits32 d.pad ∷ bits32 d.sad ∷ 0 ∷ cnt ∷ [])

-- d == NULL is none.
abbrev pub with_device : {A : Type 0} → Option (ℕ × Device) → C A → (ℕ → Device → C A) → C A
with_device none missing found = missing
with_device (some (ud, d)) missing found = found ud d

module _ ⦃os : Os⦄ where
  -- From the settings on.
  unfoldable pub write_to : Device → List ℕ → C ℕ
  unfolding apply_device_settings alloc ioctl fail_edvr fail ok
  write_to d bytes = do
    refused ← apply_device_settings d
    s ← api
    if not (refused == 0) then give s.ibsta else do
      x ← alloc (size_xfer + length bytes)
      if not x then fail ib_edvr (pos 0) else do
        r ← ioctl ioctl_gpib_write (some (write_request d bytes)) size_result
        if not r.good
            then fail_edvr
            else if not (word_at r.output 0 == 0)
            then fail (map_status (int_at r.output 0)) (int_at r.output 1)
            else ok (int_at r.output 1) 0

  -- `buf` is none for NULL.
  unfoldable pub ibwrt : ℤ → Option (List ℕ) → ℤ → C ℕ
  unfolding device fail write_to
  ibwrt ud buf cnt = do
    found ← device ud
    with_device found (fail ib_earg (pos 0)) λ n d. elim buf [
      | none ↦ fail ib_earg (pos 0)
      | some bytes ↦ elim cnt [
        | negsuc k ↦ fail ib_earg (pos 0)
        | pos k ↦ write_to d (take k bytes)
      ]
    ]

  -- After the IOCTL: the bytes that memcpy puts into `buf` are returned beside the code. Bytes past
  -- the end of `output` would be read as 0.
  unfoldable pub read_done : ℕ → List ℕ → C (ℕ × List ℕ)
  unfolding fail ok
  read_done cnt output =
      let count = at_most (word_at output 1) cnt in
      let bytes = filled count (drop size_result output) in
      if not (word_at output 0 == 0)
      then (do
        let err = map_status (int_at output 0)
        sta ← fail err (int_of count)
        sta' ← add_timo err sta
        give (sta', bytes))
      else (do
        sta ← ok (int_of count) (if not (word_at output 2 == 0) then ib_end else 0)
        give (sta, bytes))

  -- From the allocation on.
  unfoldable pub read_buffer : Device → ℕ → C (ℕ × List ℕ)
  unfolding alloc ioctl fail_edvr fail
  read_buffer d cnt = do
    r ← alloc (size_result + cnt)
    if not r then (do sta ← fail ib_edvr (pos 0); give (sta, [])) else do
      reply ← ioctl ioctl_gpib_read (some (read_request d cnt)) (size_result + cnt)
      if not reply.good
          then (do sta ← fail_edvr; give (sta, []))
          else read_done cnt (filled (size_result + cnt) reply.output)

  unfoldable pub read_from : Device → ℕ → C (ℕ × List ℕ)
  read_from d cnt = do
    refused ← apply_device_settings d
    s ← api
    if not (refused == 0) then give (s.ibsta, []) else read_buffer d cnt

  -- `buf` tells whether it is not NULL.
  unfoldable pub ibrd : ℤ → Bool → ℤ → C (ℕ × List ℕ)
  unfolding device fail read_from
  ibrd ud buf cnt = do
    found ← device ud
    let refuse : C (ℕ × List ℕ) = (do sta ← fail ib_earg (pos 0); give (sta, []))
    with_device found refuse
        λ n d. elim cnt [ negsuc k ↦ refuse | pos k ↦ if not buf then refuse else read_from d k ]

  unfoldable pub addressed : ℤ → ℕ → C ℕ
  unfolding device fail simple_ioctl
  addressed ud code = do
    found ← device ud
    with_device found (fail ib_earg (pos 0)) λ n d. simple_ioctl code (some (addr_words d))

  unfoldable pub ibclr : ℤ → C ℕ
  unfolding addressed
  ibclr ud = addressed ud ioctl_gpib_clear

  unfoldable pub ibtrg : ℤ → C ℕ
  unfolding addressed
  ibtrg ud = addressed ud ioctl_gpib_trigger

  unfoldable pub ibloc : ℤ → C ℕ
  unfolding addressed
  ibloc ud = addressed ud ioctl_gpib_local

  unfoldable pub ibpct : ℤ → C ℕ
  unfolding addressed
  ibpct ud = addressed ud ioctl_gpib_pass_control

  unfoldable pub ibllo : C ℕ
  unfolding simple_ioctl
  ibllo = simple_ioctl ioctl_gpib_local_lockout none

  unfoldable pub poll_device : Device → C (ℕ × Option ℕ)
  unfolding apply_device_settings ioctl fail_edvr fail ok
  poll_device d = do
    refused ← apply_device_settings d
    s ← api
    if not (refused == 0) then give (s.ibsta, none) else do
      r ← ioctl ioctl_gpib_serial_poll (some (addr_words d)) size_result
      if not r.good
          then (do sta ← fail_edvr; give (sta, none))
          else if not (word_at r.output 0 == 0)
          then (do sta ← fail (map_status (int_at r.output 0)) (pos 0); give (sta, none))
          else (do sta ← ok (pos 0) 0; give (sta, some (word_at r.output 1 % 2 ^ 8)))

  -- `spr` tells whether it is not NULL; `*spr` is returned beside the code, where it is written.
  unfoldable pub ibrsp : ℤ → Bool → C (ℕ × Option ℕ)
  unfolding device fail poll_device
  ibrsp ud spr = do
    found ← device ud
    let refuse : C (ℕ × Option ℕ) = (do sta ← fail ib_earg (pos 0); give (sta, none))
    with_device found refuse λ n d. if not spr then refuse else poll_device d

-- A change of an open device's settings.
unfoldable pub configure : ℤ → (Device → Device) → C ℕ
unfolding device fail ok
configure ud f = do
  found ← device ud
  with_device found (fail ib_earg (pos 0)) λ n d. (do put_device n (f d); ok (pos 0) 0)

unfoldable pub ibonl : ℤ → Bool → C ℕ
unfolding configure
ibonl ud v = configure ud λ d. if v then d else record d { in_use = false }

unfoldable pub ibtmo_ms : ℤ → ℕ → C ℕ
unfolding configure
ibtmo_ms ud ms = configure ud λ d. record d { timeout_ms = ms }

unfoldable pub ibtmo : ℤ → ℤ → C ℕ
unfolding configure fail Codes.timeout_ms
ibtmo ud v =
    if is_neg v || gtz v ib_t1000s
    then fail ib_earg (pos 0)
    else configure ud λ d. record d { timeout_ms = Codes.timeout_ms v }

unfoldable pub ibeot : ℤ → Bool → C ℕ
unfolding configure
ibeot ud v = configure ud λ d. record d { eot = v }

unfoldable pub ibeos : ℤ → ℕ → C ℕ
unfolding configure
ibeos ud v = configure ud λ d. record d { eos = v }

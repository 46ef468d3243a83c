-- ===== src/Api/Reports.antt =====
-- NI style status: what `ibsta`, `iberr`, `ibcnt` and `ibcntl` are after a call.
use jornada_gpib.Prelude.{
  ◌+◌, take, ℕ, ◌≡◌, ◌⊎◌, inl, inr, ◌==◌, ◌||◌, not, Bool, true, false, if◌then◌else◌, List, [],
  ◌∷◌, Option, none, some, ℤ, pos, negsuc, arith,
}
use jornada_gpib.Api.State.{allocated, asked, api, Device, Os, Api, C, ◌>>=◌, give, fail, device}
use jornada_gpib.Api.Requests.{fail_edvr, simple_ioctl, apply_device_settings}
use jornada_gpib.Api.Session.{DeviceCall, Call, writes, reads, polls, on_device, run_device, run}
use jornada_gpib.Api.Calls.{filled}
use jornada_gpib.Api.Transfers.{
  read_request, read_buffer, with_device, ibwrt, ibrd, ibrsp, write_to, read_from, read_done,
  poll_device,
}
use jornada_gpib.Wire.{size_result, ioctl_gpib_read}

-- The codes that the library reports with ERR: EDVR, ECIC, ENOL, EARG, ESAC, EABO, ENEB, EBUS, ETAB.
abbrev pub is_error_code : ℕ → Bool
is_error_code n =
    (n == 0)
    || (n == 1)
    || (n == 2)
    || (n == 4)
    || (n == 5)
    || (n == 6)
    || (n == 7)
    || (n == 14)
    || (n == 20)

-- Completed without an error, perhaps with CIC or END: no error code. With an error: one of its
-- codes; with TIMO too: EABO.
pub record IsReported (s : Api) : Type 0 where
  pub counts : s.ibcnt ≡ s.ibcntl
  pub status :
      (((s.ibsta ≡ 0x100) ⊎ (s.ibsta ≡ 0x120) ⊎ (s.ibsta ≡ 0x2100)) × (s.iberr ≡ 0))
      ⊎ ((s.ibsta ≡ 0x8100) × (is_error_code s.iberr ≡ true))
      ⊎ ((s.ibsta ≡ 0xc100) × (s.iberr ≡ 6))

-- A call that returns `ibsta`, and leaves it and the rest well reported.
abbrev pub Reports : C ℕ → Type 0
Reports m = (s : Api) → ((m s).0 ≡ (m s).1.ibsta) × IsReported (m s).1

module _ ⦃os : Os⦄ where
  fail_edvr-Reports : Reports fail_edvr
  unfolding fail_edvr
  fail_edvr-Reports s = ground arith

  simple_ioctl-Reports : (code : ℕ) (input : Option (List ℕ)) → Reports (simple_ioctl code input)
  unfolding simple_ioctl
  simple_ioctl-Reports code input s = ground arith

  -- Either the settings were applied, or the failure was reported.
  apply-IsReported :
      (d : Device) (s : Api)
      → ((apply_device_settings d s).0 ≡ 0)
        ⊎ (((apply_device_settings d s).0 == 0 ≡ false) × IsReported (apply_device_settings d s).1)
  unfolding apply_device_settings
  apply-IsReported d s = ground arith

  after_settings :
      {A : Type 0} (d : Device) (refused : ℕ → A) (k : C A) (s : Api)
      → ((u : Api) → IsReported (k u).1)
      → IsReported
          ((apply_device_settings d >>= λ r.
              api >>= λ u. if not (r == 0) then give (refused u.ibsta) else k)
            s).1
  after_settings d refused k s h = elim (apply-IsReported d s) [
    | inl e ↦ rw e (h (apply_device_settings d s).1)
    | inr (e, r) ↦ rw e r
  ]

  read_done-IsReported :
      (cnt : ℕ) (output : List ℕ) (s : Api) → IsReported (read_done cnt output s).1
  unfolding read_done
  read_done-IsReported cnt output s = ground arith

  write_to-IsReported : (d : Device) (bytes : List ℕ) (s : Api) → IsReported (write_to d bytes s).1
  unfolding write_to
  write_to-IsReported d bytes s = ground arith

  read_buffer-IsReported : (d : Device) (cnt : ℕ) (s : Api) → IsReported (read_buffer d cnt s).1
  unfolding read_buffer
  read_buffer-IsReported d cnt s =
      let asked_state = record s {
        log =
            asked ioctl_gpib_read (some (read_request d cnt)) (size_result + cnt)
            ∷ allocated (size_result + cnt)
            ∷ s.log;
      } in
      ground (
        arith,
        read_done-IsReported cnt (filled (size_result + cnt) (os.control asked_state.log).output)
            asked_state,
      )

  read_from-IsReported : (d : Device) (cnt : ℕ) (s : Api) → IsReported (read_from d cnt s).1
  unfolding read_from
  read_from-IsReported d cnt s =
      after_settings d (λ sta. (sta, [])) (read_buffer d cnt) s (read_buffer-IsReported d cnt)

  poll_device-IsReported : (d : Device) (s : Api) → IsReported (poll_device d s).1
  unfolding poll_device
  poll_device-IsReported d s = ground arith

  on_open :
      {A : Type 0} (o : Option (ℕ × Device)) (missing : C A) (found : ℕ → Device → C A) (s : Api)
      → IsReported (missing s).1
      → ((n : ℕ) (d : Device) (u : Api) → IsReported (found n d u).1)
      → IsReported (with_device o missing found s).1
  on_open none missing found s h k = h
  on_open (some (n, d)) missing found s h k = k n d s

  ibrd-IsReported : (ud : ℤ) (buf : Bool) (cnt : ℤ) (s : Api) → IsReported (ibrd ud buf cnt s).1
  unfolding ibrd fail
  ibrd-IsReported ud buf (negsuc k) s =
      on_open (device ud s).0 _ _ (device ud s).1 (ground arith) (λ n d u. ground arith)
  ibrd-IsReported ud false (pos k) s =
      on_open (device ud s).0 _ _ (device ud s).1 (ground arith) (λ n d u. ground arith)
  ibrd-IsReported ud true (pos k) s =
      on_open (device ud s).0 _ _ (device ud s).1 (ground arith)
        (λ n d u. read_from-IsReported d k u)

  ibwrt-IsReported :
      (ud : ℤ) (buf : Option (List ℕ)) (cnt : ℤ) (s : Api) → IsReported (ibwrt ud buf cnt s).1
  unfolding ibwrt fail
  ibwrt-IsReported ud none cnt s =
      on_open (device ud s).0 _ _ (device ud s).1 (ground arith) (λ n d u. ground arith)
  ibwrt-IsReported ud (some bytes) (negsuc k) s =
      on_open (device ud s).0 _ _ (device ud s).1 (ground arith) (λ n d u. ground arith)
  ibwrt-IsReported ud (some bytes) (pos k) s =
      on_open (device ud s).0 _ _ (device ud s).1 (ground arith)
        (λ n d u. write_to-IsReported d (take k bytes) u)

  ibrsp-IsReported : (ud : ℤ) (spr : Bool) (s : Api) → IsReported (ibrsp ud spr s).1
  unfolding ibrsp fail
  ibrsp-IsReported ud false s =
      on_open (device ud s).0 _ _ (device ud s).1 (ground arith) (λ n d u. ground arith)
  ibrsp-IsReported ud true s =
      on_open (device ud s).0 _ _ (device ud s).1 (ground arith)
        (λ n d u. poll_device-IsReported d u)

  run_device-IsReported : (ud : ℤ) (c : DeviceCall) (s : Api) → IsReported (run_device ud c s).1
  unfolding run_device
  run_device-IsReported ud (reads buf cnt) s = ibrd-IsReported ud buf cnt s
  run_device-IsReported ud (writes buf cnt) s = ibwrt-IsReported ud buf cnt s
  run_device-IsReported ud (polls spr) s = ibrsp-IsReported ud spr s
  run_device-IsReported ud c s = ground arith

  -- After every call, whatever the system answers: `ibcnt` is `ibcntl`; `ibsta` is CMPL, perhaps with
  -- CIC or END, and then `iberr` is 0; or CMPL with ERR, and then `iberr` is one of the library's
  -- codes; or these with TIMO, and then it is EABO.
  pub run-IsReported : (c : Call) (s : Api) → IsReported (run c s).1
  unfolding run
  run-IsReported (on_device ud call) s = run_device-IsReported ud call s
  run-IsReported c s = ground arith

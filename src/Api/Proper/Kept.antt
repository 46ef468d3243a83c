-- ===== src/Api/Proper/Kept.antt =====
-- The calls of src/gpibapi/ib.c and the sizes of the buffers of their IOCTLs.
use jornada_gpib.Prelude.{
  bits32, ge_minus_one, drop, Option-cases, gtz, is_neg, Bool-cases, ℕ, ◌≡◌, refl, inl, inr, Bool,
  true, false, not, ◌||◌, ◌==◌, leb, if◌then◌else◌, List, [], ◌∷◌, take, Option, none, some, ℤ, pos,
  negsuc, arith,
}
use jornada_gpib.Wire
use jornada_gpib.Wire.{
  words, word_at, size_result, size_xfer, size_config, size_info, size_lines, size_address,
}
use jornada_gpib.Api.State.{initial, Device, asked, opened, Os, C, ◌>>=◌, fail, ok, device}
use jornada_gpib.Api.Requests.{last_error}
use jornada_gpib.Api.Calls.{
  is_zero, first_free, ibfind_board, ibconfig_board, ibsic, ibsre, iblines, claim, ibdev,
}
use jornada_gpib.Api.Transfers.{
  with_device, addressed, configure, ibonl, ibtmo_ms, ibtmo, ibeot, ibeos, ibllo, ibclr, ibtrg,
  ibloc, ibpct, ibrd, ibwrt, ibrsp,
}
use jornada_gpib.Api.Session.{
  DeviceCall, online, eot_to, writes, reads, clears, triggers, to_local, passes, polls,
  timeout_code, timeout_to, eos_to, Call, finds_board, interface_clear, locks_out, looks,
  config_board, remote_enable, opens, on_device, run_device, run, run_all,
}
use jornada_gpib.Api.Codes.{ib_t1000s, ib_max_devices}
use jornada_gpib.Api.Proper.{
  is_address_code, proper, all_proper, Keeps, Keeps-simple, lines-proper, Keeps-ioctl,
  Keeps-write_to, Keeps-read_from, address-proper, Keeps-poll_device,
}

module _ ⦃os : Os⦄ where
  on_open :
      {A : Type 0} (o : Option (ℕ × Device)) (missing : C A) (found : ℕ → Device → C A)
      → Keeps missing
      → ((n : ℕ) (d : Device) → Keeps (found n d))
      → Keeps (with_device o missing found)
  on_open none missing found h k = h
  on_open (some (n, d)) missing found h k = k n d

  on_device_at :
      {A : Type 0} (ud : ℤ) (missing : C A) (found : ℕ → Device → C A)
      → Keeps missing
      → ((n : ℕ) (d : Device) → Keeps (found n d))
      → Keeps (device ud >>= λ o. with_device o missing found)
  unfolding device
  on_device_at (negsuc n) missing found h k s p = h s p
  on_device_at (pos n) missing found h k s p = elim (Bool-cases (n == 0 || leb ib_max_devices n)) [
    | inl e ↦ rw e (h s p)
    | inr e ↦ rw e (on_open _ missing found h k s p)
  ]

  Keeps-addressed : (ud : ℤ) (code : ℕ) → is_address_code code ≡ true → Keeps (addressed ud code)
  unfolding addressed fail
  Keeps-addressed ud code h =
      on_device_at ud _ _ (λ s p. p) (λ n d. Keeps-simple code _ (address-proper code d h))

  Keeps-configure : (ud : ℤ) (f : Device → Device) → Keeps (configure ud f)
  unfolding configure fail ok
  Keeps-configure ud f = on_device_at ud _ _ (λ s p. p) (λ n d s p. p)

  Keeps-ibwrt : (ud : ℤ) (buf : Option (List ℕ)) (cnt : ℤ) → Keeps (ibwrt ud buf cnt)
  unfolding ibwrt fail
  Keeps-ibwrt ud none cnt = on_device_at ud _ _ (λ s p. p) (λ n d s p. p)
  Keeps-ibwrt ud (some bytes) (negsuc k) = on_device_at ud _ _ (λ s p. p) (λ n d s p. p)
  Keeps-ibwrt ud (some bytes) (pos k) =
      on_device_at ud _ _ (λ s p. p) (λ n d. Keeps-write_to d (take k bytes))

  Keeps-ibrd : (ud : ℤ) (buf : Bool) (cnt : ℤ) → Keeps (ibrd ud buf cnt)
  unfolding ibrd fail
  Keeps-ibrd ud buf (negsuc k) = on_device_at ud _ _ (λ s p. p) (λ n d s p. p)
  Keeps-ibrd ud false (pos k) = on_device_at ud _ _ (λ s p. p) (λ n d s p. p)
  Keeps-ibrd ud true (pos k) = on_device_at ud _ _ (λ s p. p) (λ n d. Keeps-read_from d k)

  Keeps-ibrsp : (ud : ℤ) (spr : Bool) → Keeps (ibrsp ud spr)
  unfolding ibrsp fail
  Keeps-ibrsp ud false = on_device_at ud _ _ (λ s p. p) (λ n d s p. p)
  Keeps-ibrsp ud true = on_device_at ud _ _ (λ s p. p) (λ n d. Keeps-poll_device d)

  Keeps-run_device : (ud : ℤ) (c : DeviceCall) → Keeps (run_device ud c)
  unfolding run_device ibonl ibeot ibclr ibtrg ibloc ibpct ibtmo_ms ibeos ibtmo fail
  Keeps-run_device ud (online v) s p = Keeps-configure ud _ s p
  Keeps-run_device ud (eot_to v) s p = Keeps-configure ud _ s p
  Keeps-run_device ud (writes buf cnt) s p = Keeps-ibwrt ud buf cnt s p
  Keeps-run_device ud (reads buf cnt) s p = Keeps-ibrd ud buf cnt s p
  Keeps-run_device ud clears s p = Keeps-addressed ud Wire.ioctl_gpib_clear refl s p
  Keeps-run_device ud triggers s p = Keeps-addressed ud Wire.ioctl_gpib_trigger refl s p
  Keeps-run_device ud to_local s p = Keeps-addressed ud Wire.ioctl_gpib_local refl s p
  Keeps-run_device ud passes s p = Keeps-addressed ud Wire.ioctl_gpib_pass_control refl s p
  Keeps-run_device ud (polls spr) s p = Keeps-ibrsp ud spr s p
  Keeps-run_device ud (timeout_code v) s p = elim (Bool-cases (is_neg v || gtz v ib_t1000s)) [
    | inl e ↦ rw e p
    | inr e ↦ rw e (Keeps-configure ud _ s p)
  ]
  Keeps-run_device ud (timeout_to v) s p = Keeps-configure ud _ s p
  Keeps-run_device ud (eos_to v) s p = Keeps-configure ud _ s p

  Keeps-ibfind_board : Keeps ibfind_board
  unfolding ibfind_board last_error all_proper
  Keeps-ibfind_board s p = ground (arith, p)

  Keeps-claim : (pad sad tmo : ℤ) (eot : Bool) (eos : ℕ) → Keeps (claim pad sad tmo eot eos)
  unfolding claim fail ok
  Keeps-claim pad sad tmo eot eos s p = elim (Option-cases (first_free 1 (drop 1 s.devices))) [
    | inl e ↦ rw e p
    | inr (n, e) ↦ rw e p
  ]

  Keeps-ibdev :
      (board pad sad tmo : ℤ) (eot : Bool) (eos : ℕ) → Keeps (ibdev board pad sad tmo eot eos)
  unfolding ibdev fail ibfind_board last_error all_proper
  Keeps-ibdev board pad sad tmo eot eos s p =
      elim (Bool-cases
        (not (is_zero board) || is_neg pad || gtz pad 30 || gtz sad 30 || not (ge_minus_one sad))) [
          | inl bad ↦ rw bad p
          | inr good ↦ elim (Bool-cases s.driver) [
            | inl there ↦
                rw (good, there) (Keeps-claim pad sad tmo eot eos (record s { driver = true }) p)
            | inr missing ↦ elim (Bool-cases (os.opens (opened ∷ s.log))) [
              | inl found ↦
                  rw (good, missing, found)
                    (Keeps-claim pad sad tmo eot eos
                      (record s {
                        driver = true;
                        log = opened ∷ s.log;
                        ibsta = 0x100;
                        iberr = 0;
                        ibcnt = pos 0;
                        ibcntl = pos 0;
                      })
                      p)
              | inr lost ↦ rw (good, missing, lost) p
            ]
          ]
        ]

  Keeps-looks : Keeps iblines
  unfolding iblines last_error
  Keeps-looks s p =
      let q = Keeps-ioctl Wire.ioctl_gpib_lines none size_lines lines-proper s p in
      ground (arith, q)

  Keeps-config_board : (pad sad : ℤ) (ms t1 : ℕ) → Keeps (ibconfig_board pad sad ms t1)
  unfolding ibconfig_board last_error proper
  Keeps-config_board pad sad ms t1 s p =
      let q =
        Keeps-ioctl Wire.ioctl_gpib_set_config
          (some (words (ms ∷ t1 ∷ bits32 pad ∷ bits32 sad ∷ 0 ∷ 0 ∷ []))) 0 refl s p in
      ground (arith, q)

  switch-proper :
      (v : Bool)
      → proper (asked Wire.ioctl_gpib_ren (some (words ((if v then 1 else 0) ∷ []))) size_result)
        ≡ true
  unfolding proper
  switch-proper v = refl

  single-proper :
      (code : ℕ)
      → (code == Wire.ioctl_gpib_ifc || code == Wire.ioctl_gpib_local_lockout) ≡ true
      → proper (asked code none size_result) ≡ true
  unfolding proper
  single-proper code h = ground (arith, h)

  Keeps-run : (c : Call) → Keeps (run c)
  unfolding run ibsic ibllo ibsre
  Keeps-run finds_board s p = Keeps-ibfind_board s p
  Keeps-run interface_clear s p =
      Keeps-simple Wire.ioctl_gpib_ifc none (single-proper Wire.ioctl_gpib_ifc refl) s p
  Keeps-run locks_out s p =
      Keeps-simple Wire.ioctl_gpib_local_lockout none
        (single-proper Wire.ioctl_gpib_local_lockout refl) s p
  Keeps-run looks s p = Keeps-looks s p
  Keeps-run (config_board pad sad ms t1) s p = Keeps-config_board pad sad ms t1 s p
  Keeps-run (remote_enable v) s p = Keeps-simple Wire.ioctl_gpib_ren _ (switch-proper v) s p
  Keeps-run (opens board pad sad tmo eot eos) s p = Keeps-ibdev board pad sad tmo eot eos s p
  Keeps-run (on_device ud call) s p = Keeps-run_device ud call s p

  Keeps-run_all : (cs : List Call) → Keeps (run_all cs)
  unfolding run_all
  Keeps-run_all [] s p = p
  Keeps-run_all (c ∷ cs) s p = Keeps-run_all cs (run c s).1 (Keeps-run c s p)

  -- Whatever calls a program makes and whatever the system answers, the buffers of every IOCTL of
  -- the library are as large as the driver asks for, and the length of a transfer is within them.
  pub run_all-proper : (cs : List Call) → all_proper (run_all cs initial).1.log ≡ true
  unfolding all_proper
  run_all-proper cs = Keeps-run_all cs initial refl

-- ===== src/Api/Calls.antt =====
-- The calls of include/gpib/ib.h.
use jornada_gpib.Prelude.{
  ℕ, suc, bit_and, bit_or, Bool, true, false, not, ◌||◌, ◌==◌, ltb, if◌then◌else◌, has, List, [],
  ◌∷◌, ◌++◌, take, drop, replicate, Option, none, some, ℤ, pos, negsuc, is_neg, gtz, ge_minus_one,
  bits32,
}
use jornada_gpib.Wire.{
  words, word_at, size_lines, ioctl_gpib_set_config, ioctl_gpib_ifc, ioctl_gpib_ren,
  ioctl_gpib_lines,
}
use jornada_gpib.Api.Codes
use jornada_gpib.Api.Codes.{
  ib_edvr, ib_eneb, ib_earg, ib_eabo, ib_etab, ib_timo, ib_end, ib_cic, ib_t1000s, ib_max_devices,
  map_status,
}
use jornada_gpib.Api.State.{Device, opened, Os, C, ◌>>=◌, ◌>>◌, give, api, fail, ok, put_device}
use jornada_gpib.Api.Requests.{last_error, ioctl, fail_edvr, simple_ioctl}

abbrev pub gpib_xf_eoi : ℕ
gpib_xf_eoi = 1

-- The first free entry of the table at or after `n`.
abbrev pub first_free : ℕ → List Device → Option ℕ
first_free n [] = none
first_free n (d ∷ ds) = let rest = first_free (suc n) ds in if not d.in_use then some n else rest

-- The bytes of an output buffer of `n` zeroed bytes.
abbrev pub filled : ℕ → List ℕ → List ℕ
filled n bytes = take n (bytes ++ replicate n 0)

-- if (r->count > (UINT32)cnt) r->count = (UINT32)cnt;
abbrev pub at_most : ℕ → ℕ → ℕ
at_most n limit = if ltb limit n then limit else n

-- x == 0
abbrev pub is_zero : ℤ → Bool
is_zero (pos n) = n == 0
is_zero (negsuc n) = false

abbrev pub addr_words : Device → List ℕ
addr_words d = words (bits32 d.pad ∷ bits32 d.sad ∷ [])

-- ibsta |= IB_TIMO, and the value of ibsta.
abbrev pub add_timo : ℕ → ℕ → C ℕ
add_timo err sta s =
    if err == ib_eabo
    then (bit_or s.ibsta ib_timo, record s { ibsta = bit_or s.ibsta ib_timo })
    else (sta, s)

module _ ⦃os : Os⦄ where
  -- CreateFileW
  unfoldable pub open_driver : C Bool
  open_driver s =
      let log' = opened ∷ s.log in (os.opens log', record s { driver = os.opens log'; log = log' })

  unfoldable pub ibfind_board : C ℤ
  unfolding open_driver fail ok
  ibfind_board = do
    s ← api
    if s.driver then (do ok (pos 0) 0; give (pos 0)) else do
      good ← open_driver
      if not good
          then (do e ← last_error; fail ib_eneb e; give (negsuc 0))
          else (do ok (pos 0) 0; give (pos 0))

  unfoldable pub ibconfig_board : ℤ → ℤ → ℕ → ℕ → C ℕ
  unfolding ioctl fail_edvr ok
  ibconfig_board pad sad timeout_ms t1_ns = do
    r ←
        ioctl ioctl_gpib_set_config
          (some (words (timeout_ms ∷ t1_ns ∷ bits32 pad ∷ bits32 sad ∷ 0 ∷ 0 ∷ []))) 0
    if not r.good then fail_edvr else ok (pos 0) 0

  unfoldable pub ibsic : C ℕ
  unfolding simple_ioctl
  ibsic = simple_ioctl ioctl_gpib_ifc none

  unfoldable pub ibsre : Bool → C ℕ
  unfolding simple_ioctl
  ibsre v = simple_ioctl ioctl_gpib_ren (some (words ((if v then 1 else 0) ∷ [])))

  -- `*lines` is returned beside the code, where it is written.
  unfoldable pub iblines : C (ℕ × Option ℕ)
  unfolding ioctl fail_edvr ok
  iblines = do
    r ← ioctl ioctl_gpib_lines none size_lines
    if not r.good then (do sta ← fail_edvr; give (sta, none)) else do
      sta ← ok (pos 0) (if has (word_at r.output 1) 0x80 then ib_cic else 0)
      give (sta, some (bit_and (word_at r.output 0) 0xff))

  -- From the loop over the table on.
  unfoldable pub claim : ℤ → ℤ → ℤ → Bool → ℕ → C ℤ
  unfolding fail ok Codes.timeout_ms
  claim pad sad tmo eot eos = do
    s ← api
    elim (first_free 1 (drop 1 s.devices)) [
      | none ↦ do fail ib_etab (pos 0); give (negsuc 0)
      | some ud ↦ do
        put_device ud (record {
          in_use = true;
          pad = pad;
          sad = sad;
          timeout_ms = Codes.timeout_ms tmo;
          eot = eot;
          eos = eos;
        })
        ok (pos 0) 0
        give (pos ud)
    ]

  unfoldable pub ibdev : ℤ → ℤ → ℤ → ℤ → Bool → ℕ → C ℤ
  unfolding fail ibfind_board claim
  ibdev board pad sad tmo eot eos =
      if not (is_zero board) || is_neg pad || gtz pad 30 || gtz sad 30 || not (ge_minus_one sad)
      then (do fail ib_earg (pos 0); give (negsuc 0))
      else do
        s ← api
        if s.driver then claim pad sad tmo eot eos else do
          found ← ibfind_board
          if is_neg found then give (negsuc 0) else claim pad sad tmo eot eos

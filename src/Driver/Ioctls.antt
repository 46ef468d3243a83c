-- ===== src/Driver/Ioctls.antt =====
-- The IOCTLs of src/gpib/drv_ce.c that have a function of their own. What is logged is left out, but
-- for the registers that are read for it.
use jornada_gpib.Prelude.{
  ℕ, ◌-◌, Bool, false, not, ◌||◌, ◌==◌, ltb, leb, if◌then◌else◌, has, List, [], ◌∷◌, ◌++◌, length,
  take, drop, replicate, Option, none, some, bits32,
}
use jornada_gpib.Wire.{
  words, word_at, int_at, size_result, size_xfer, size_info, size_probe, size_register_op,
  size_regs, size_raw_out, size_raw_result, size_lines,
}
use jornada_gpib.Chip.Io.{Io, M, ◌>>=◌, ◌>>◌, pure, rd, wr}
use jornada_gpib.Chip.Status.{Status}
use jornada_gpib.Chip.Reg
use jornada_gpib.Chip.Setup.{ProbeResult}
use jornada_gpib.Chip.Control.{Regs, snapshot}
use jornada_gpib.Chip.Transfer.{transfer_out}
use jornada_gpib.Controller.Ops
use jornada_gpib.Driver.State.{
  Open, Config, Cis, GpibDevice, Answer, refused, answered, is_ready, status_code, lacks_room,
  put_result, result_words, with_input, error_invalid_parameter, error_insufficient_buffer,
}
use jornada_gpib.Driver.Ready.{check_ready, if_ready, in_charge, chip_bringup}

abbrev pub max_xfer_inline : ℕ
max_xfer_inline = 65536

abbrev pub gpib_window_bytes : ℕ
gpib_window_bytes = 32

abbrev pub gpib_cis_raw_max : ℕ
gpib_cis_raw_max = 1024

abbrev pub size_cis : ℕ
size_cis = 1180

abbrev pub word_of : Bool → ℕ
word_of b = if b then 1 else 0

abbrev pub probe_fields : ProbeResult → List ℕ
probe_fields p = word_of p.ok ∷ p.csr ∷ p.sts1 ∷ p.sts2 ∷ p.isr3 ∷ p.adsr ∷ p.isr0 ∷ []

abbrev pub config_fields : Config → List ℕ
config_fields c = c.timeout_ms ∷ c.t1_ns ∷ bits32 c.pad ∷ bits32 c.sad ∷ c.eos ∷ c.eos_flags ∷ []

abbrev pub info_fields : GpibDevice → List ℕ
info_fields d =
    1
    ∷ word_of d.card_present
    ∷ d.sock
    ∷ d.io_base
    ∷ d.io_length
    ∷ d.config_index
    ∷ d.granularity
    ∷ d.window_16bit
    ∷ (probe_fields d.probe ++ config_fields d.config)

abbrev pub regs_fields : Regs → List ℕ
regs_fields r =
    r.isr0 ∷ r.isr1 ∷ r.isr2 ∷ r.isr3 ∷ r.sts1 ∷ r.sts2 ∷ r.adsr ∷ r.bsr ∷ r.sasr ∷ r.cnt0 ∷ r.cnt1
    ∷ []

-- The bytes of a field of `n` bytes, which was zeroed before.
abbrev pub field_bytes : ℕ → List ℕ → List ℕ
field_bytes n bytes = take n (bytes ++ replicate n 0)

-- c->raw_len < GPIB_CIS_RAW_MAX ? c->raw_len : GPIB_CIS_RAW_MAX
abbrev pub raw_len_of : Cis → ℕ
raw_len_of c = if ltb c.raw_len gpib_cis_raw_max then c.raw_len else gpib_cis_raw_max

abbrev pub cis_bytes : GpibDevice → List ℕ
cis_bytes d =
    words (
      d.cis.tuples
      ∷ raw_len_of d.cis
      ∷ d.cis.manufacturer_id
      ∷ d.cis.card_id
      ∷ d.cis.function_type
      ∷ d.window_8bit_ok
      ∷ d.window_16bit_ok
      ∷ [])
    ++ (field_bytes 128 d.cis.pnpid
        ++ field_bytes gpib_cis_raw_max (take (raw_len_of d.cis) d.cis.raw))

unfoldable pub ioctl_get_info : GpibDevice → Option ℕ → Answer
ioctl_get_info d room =
    if lacks_room room size_info
    then refused error_insufficient_buffer
    else answered (words (info_fields d))

unfoldable pub ioctl_cis : GpibDevice → Option ℕ → Answer
ioctl_cis d room =
    if lacks_room room size_cis then refused error_insufficient_buffer else answered (cis_bytes d)

module _ ⦃io : Io⦄ (rounds : ℕ) where
  -- On failure the registers are read for the log.
  unfoldable pub write_data : GpibDevice → List ℕ → Option ℕ → M Answer
  unfolding pure in_charge snapshot Ops.write put_result
  write_data d bytes room = do
    (rc, sent) ← in_charge rounds d 0 (
        Ops.write rounds (int_at bytes 0) (int_at bytes 1)
          (take (word_at bytes 3) (drop size_xfer bytes)) (has (word_at bytes 2) 1))
    if is_ready rc
        then pure (put_result room rc sent 0)
        else do _ ← snapshot; pure (put_result room rc sent 0)

  unfoldable pub ioctl_write : GpibDevice → Option (List ℕ) → Option ℕ → M Answer
  unfolding pure write_data
  ioctl_write d input room =
      with_input input size_xfer (pure (refused error_invalid_parameter)) λ bytes.
        if ltb (length bytes - size_xfer) (word_at bytes 3) || ltb max_xfer_inline (word_at bytes 3)
        then pure (refused error_invalid_parameter)
        else write_data d bytes room

  unfoldable pub bus_read : List ℕ → M (Status × (List ℕ × Bool))
  unfolding pure Ops.read
  bus_read bytes = do
    (rc, buf, end) ← Ops.read rounds (int_at bytes 0) (int_at bytes 1) (word_at bytes 3)
    pure (rc, (buf, end))

  unfoldable pub read_data : GpibDevice → List ℕ → M Answer
  unfolding pure in_charge bus_read
  read_data d bytes = do
    (rc, got) ← in_charge rounds d ([], false) (bus_read bytes)
    pure (answered (result_words rc (length got.0) (word_of got.1) ++ got.0))

  unfoldable pub ioctl_read : GpibDevice → Option (List ℕ) → Option ℕ → M Answer
  unfolding pure read_data
  ioctl_read d input none = pure (refused error_invalid_parameter)
  ioctl_read d input (some n) =
      with_input input size_xfer (pure (refused error_invalid_parameter)) λ bytes.
        if ltb n size_result
          || ltb (n - size_result) (word_at bytes 3)
          || ltb max_xfer_inline (word_at bytes 3)
        then pure (refused error_invalid_parameter)
        else read_data d bytes

  unfoldable pub ioctl_probe : Open → Option ℕ → M (Answer × Open)
  unfolding pure chip_bringup
  ioctl_probe o room =
      if lacks_room room size_probe
      then pure (refused error_insufficient_buffer, o)
      else if not o.dev.card_present
      then pure (refused error_invalid_parameter, o)
      else do
        d ← chip_bringup rounds o.dev
        pure (answered (words (probe_fields d.probe)), record o { dev = d })

  unfoldable pub access_register : List ℕ → M Answer
  unfolding pure rd wr
  access_register bytes =
      let op = word_at bytes 0 in
      let offset = word_at bytes 1 in
      let value = word_at bytes 2 in
      if op == 1
      then (do wr offset value; pure (answered (words (op ∷ offset ∷ value ∷ []))))
      else (do v ← rd offset; pure (answered (words (op ∷ offset ∷ v ∷ []))))

  unfoldable pub ioctl_register : GpibDevice → Option (List ℕ) → Option ℕ → M Answer
  unfolding pure access_register
  ioctl_register d input room =
      with_input input size_register_op (pure (refused error_invalid_parameter)) λ bytes.
        if lacks_room room size_register_op
          || not d.card_present
          || leb gpib_window_bytes (word_at bytes 1)
        then pure (refused error_invalid_parameter)
        else access_register bytes

  unfoldable pub ioctl_snapshot : GpibDevice → Option ℕ → M Answer
  unfolding pure snapshot
  ioctl_snapshot d room =
      if lacks_room room size_regs || not d.card_present
      then pure (refused error_invalid_parameter)
      else do r ← snapshot; pure (answered (words (regs_fields r)))

  unfoldable pub ioctl_lines : GpibDevice → Option ℕ → M Answer
  unfolding pure rd
  ioctl_lines d room =
      if lacks_room room size_lines || not d.card_present
      then pure (refused error_invalid_parameter)
      else do
        bsr ← rd Reg.bsr
        adsr ← rd Reg.adsr
        sts1 ← rd Reg.sts1
        sts2 ← rd Reg.sts2
        pure (answered (words (bsr ∷ adsr ∷ sts1 ∷ sts2 ∷ [])))

  -- The transfer, with the registers before and after it.
  unfoldable pub raw_transfer : List ℕ → ℕ → M (Status × (ℕ × List ℕ))
  unfolding pure snapshot transfer_out
  raw_transfer buf flags = do
    before ← snapshot
    (rc, sent) ← transfer_out rounds buf flags
    after ← snapshot
    pure (rc, (sent, regs_fields before ++ regs_fields after))

  unfoldable pub raw_out : GpibDevice → List ℕ → M Answer
  unfolding pure if_ready check_ready raw_transfer
  raw_out d bytes = do
    (rc, r) ←
        if_ready rounds (check_ready d) (0, replicate 22 0)
          (raw_transfer (take (word_at bytes 1) (drop size_raw_out bytes)) (word_at bytes 0))
    pure (answered (words (bits32 (status_code rc) ∷ r.0 ∷ r.1)))

  unfoldable pub ioctl_raw_out : GpibDevice → Option (List ℕ) → Option ℕ → M Answer
  unfolding pure raw_out
  ioctl_raw_out d input room =
      with_input input size_raw_out (pure (refused error_invalid_parameter)) λ bytes.
        if lacks_room room size_raw_result
          || ltb (length bytes - size_raw_out) (word_at bytes 1)
          || ltb max_xfer_inline (word_at bytes 1)
        then pure (refused error_invalid_parameter)
        else raw_out d bytes

-- ===== src/Driver/State.antt =====
-- The state of src/gpib/drv_ce.c, and the answers to IOCTLs. The chip structure, and the registers
-- behind it, are those of the chip driver's world.
use jornada_gpib.Prelude.{
  ℕ, Bool, true, false, ltb, if◌then◌else◌, List, [], ◌∷◌, length, Option, none, some, ℤ, pos,
  negsuc, bits32,
}
use jornada_gpib.Chip.Status.{
  Status, ok, etimeout, enolistener, enotcic, eio, einval, enotsc, is_ok,
}
use jornada_gpib.Chip.Setup.{ProbeResult}
use jornada_gpib.Wire.{words, size_result}

-- `gpib_config`
pub record Config : Type 0 where
  pub timeout_ms : ℕ
  pub t1_ns : ℕ
  pub pad : ℤ
  pub sad : ℤ
  pub eos : ℕ
  pub eos_flags : ℕ

-- `cis_capture`, as it was filled when the card was loaded.
pub record Cis : Type 0 where
  pub raw : List ℕ
  pub raw_len : ℕ
  pub tuples : ℕ
  pub pnpid : List ℕ
  pub manufacturer_id : ℕ
  pub card_id : ℕ
  pub function_type : ℕ

-- The fields of `gpib_device` that the IOCTLs use.
pub record GpibDevice : Type 0 where
  pub sock : ℕ
  pub granularity : ℕ
  pub io_base : ℕ
  pub io_length : ℕ
  pub config_index : ℕ
  pub window_16bit : ℕ
  pub card_present : Bool
  pub chip_ok : Bool
  pub window_8bit_ok : ℕ
  pub window_16bit_ok : ℕ
  pub cis : Cis
  pub probe : ProbeResult
  pub config : Config

-- `gpib_open`, with its device.
pub record Open : Type 0 where
  pub dev : GpibDevice
  pub current_pad : ℤ
  pub current_sad : ℤ

-- The arguments of an IOCTL: a buffer that is NULL is none, `room` is the size of the output buffer.
pub record Ioctl : Type 0 where
  pub code : ℕ
  pub input : Option (List ℕ)
  pub room : Option ℕ

-- What an IOCTL gives back: TRUE or FALSE, the code of SetLastError where that is called, the bytes
-- that are stored in the output buffer from its start, and the number for `*actual`.
pub record Answer : Type 0 where
  pub good : Bool
  pub error : ℕ
  pub output : List ℕ
  pub actual : Option ℕ

abbrev pub error_invalid_parameter : ℕ
error_invalid_parameter = 87

abbrev pub error_insufficient_buffer : ℕ
error_insufficient_buffer = 122

-- return FALSE
abbrev pub refused : ℕ → Answer
refused e = record { good = false; error = e; output = []; actual = none }

-- return TRUE, with these bytes
abbrev pub answered : List ℕ → Answer
answered bytes = record { good = true; error = 0; output = bytes; actual = some (length bytes) }

-- return TRUE, with no output
abbrev pub accepted : Answer
accepted = record { good = true; error = 0; output = []; actual = none }

-- GPIB_ST_*: a code of the chip driver, or GPIB_ST_NOCARD.
pub data DriverStatus : Type 0 where
  chip_status : (rc : Status) → DriverStatus
  no_card : DriverStatus

abbrev pub is_ready : DriverStatus → Bool
is_ready (chip_status rc) = is_ok rc
is_ready no_card = false

-- The number of a status.
abbrev pub status_code : DriverStatus → ℤ
status_code (chip_status ok) = pos 0
status_code (chip_status etimeout) = negsuc 0
status_code (chip_status enolistener) = negsuc 1
status_code (chip_status enotcic) = negsuc 2
status_code (chip_status eio) = negsuc 3
status_code (chip_status einval) = negsuc 4
status_code (chip_status enotsc) = negsuc 5
status_code no_card = negsuc 6

-- out == NULL || outlen < size
abbrev pub lacks_room : Option ℕ → ℕ → Bool
lacks_room none size = true
lacks_room (some n) size = ltb n size

abbrev pub result_words : DriverStatus → (count end : ℕ) → List ℕ
result_words status count end = words (bits32 (status_code status) ∷ count ∷ end ∷ [])

unfoldable pub put_result : Option ℕ → DriverStatus → (count end : ℕ) → Answer
put_result room status count end =
    if lacks_room room size_result
    then refused error_insufficient_buffer
    else answered (result_words status count end)

-- in == NULL || inlen < size, and else the rest with the bytes of the input.
abbrev pub with_input : {A : Type 0} → Option (List ℕ) → (size : ℕ) → A → (List ℕ → A) → A
with_input none size missing found = missing
with_input (some bytes) size missing found =
    if ltb (length bytes) size then missing else found bytes

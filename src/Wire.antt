-- ===== src/Wire.antt =====
-- The structures of include/gpib/gpib_ioctl.h as the bytes of a buffer: 32-bit words, the low byte
-- first. What is read past the end of a buffer reads as 0; the code does not use it.
use jornada_gpib.Prelude.{
  ℕ, zero, suc, ◌+◌, ◌*◌, ◌/◌, ◌%◌, ◌^◌, ◌<◌, ◌≡◌, List, [], ◌∷◌, ◌++◌, length, get_or, drop, ℤ,
  int_of, arith,
}

abbrev pub word_bytes : ℕ → List ℕ
word_bytes v = (v % 256) ∷ (v / 2 ^ 8 % 256) ∷ (v / 2 ^ 16 % 256) ∷ (v / 2 ^ 24 % 256) ∷ []

-- The bytes of a structure of 32-bit fields.
abbrev pub words : List ℕ → List ℕ
words [] = []
words (v ∷ vs) = word_bytes v ++ words vs

-- The `k`th word.
abbrev pub word_at : List ℕ → ℕ → ℕ
word_at bytes zero =
    get_or bytes 0 0
    + get_or bytes 1 0 * 2 ^ 8
    + get_or bytes 2 0 * 2 ^ 16
    + get_or bytes 3 0 * 2 ^ 24
word_at bytes (suc k) = word_at (drop 4 bytes) k

-- The `k`th word, as an `INT32`.
abbrev pub int_at : List ℕ → ℕ → ℤ
int_at bytes k = int_of (word_at bytes k)

-- A word is read back from its bytes.
pub word_at-words :
    (vs rest : List ℕ) (k : ℕ)
    → k < length vs
    → get_or vs k 0 < 2 ^ 32
    → word_at (words vs ++ rest) k ≡ get_or vs k 0
word_at-words [] rest k h b = absurd (omega arith)
word_at-words (v ∷ vs) rest zero h b = omega arith
word_at-words (v ∷ vs) rest (suc k) h b = word_at-words vs rest k (omega arith) b

-- The sizes of the structures.
abbrev pub size_address : ℕ
size_address = 8

abbrev pub size_result : ℕ
size_result = 12

abbrev pub size_xfer : ℕ
size_xfer = 16

abbrev pub size_config : ℕ
size_config = 24

abbrev pub size_lines : ℕ
size_lines = 16

abbrev pub size_probe : ℕ
size_probe = 28

abbrev pub size_info : ℕ
size_info = 84

abbrev pub size_register_op : ℕ
size_register_op = 12

abbrev pub size_regs : ℕ
size_regs = 44

abbrev pub size_raw_out : ℕ
size_raw_out = 8

abbrev pub size_raw_result : ℕ
size_raw_result = 96

-- The codes.
abbrev pub gpib_ctl : ℕ → ℕ
gpib_ctl n = (0x22 * 2 ^ 16) + ((0x800 + n) * 2 ^ 2)

abbrev pub ioctl_gpib_get_info : ℕ
ioctl_gpib_get_info = gpib_ctl 0

abbrev pub ioctl_gpib_set_config : ℕ
ioctl_gpib_set_config = gpib_ctl 1

abbrev pub ioctl_gpib_ifc : ℕ
ioctl_gpib_ifc = gpib_ctl 2

abbrev pub ioctl_gpib_ren : ℕ
ioctl_gpib_ren = gpib_ctl 3

abbrev pub ioctl_gpib_lines : ℕ
ioctl_gpib_lines = gpib_ctl 4

abbrev pub ioctl_gpib_write : ℕ
ioctl_gpib_write = gpib_ctl 5

abbrev pub ioctl_gpib_read : ℕ
ioctl_gpib_read = gpib_ctl 6

abbrev pub ioctl_gpib_command : ℕ
ioctl_gpib_command = gpib_ctl 7

abbrev pub ioctl_gpib_clear : ℕ
ioctl_gpib_clear = gpib_ctl 8

abbrev pub ioctl_gpib_trigger : ℕ
ioctl_gpib_trigger = gpib_ctl 9

abbrev pub ioctl_gpib_local : ℕ
ioctl_gpib_local = gpib_ctl 10

abbrev pub ioctl_gpib_local_lockout : ℕ
ioctl_gpib_local_lockout = gpib_ctl 11

abbrev pub ioctl_gpib_serial_poll : ℕ
ioctl_gpib_serial_poll = gpib_ctl 12

abbrev pub ioctl_gpib_pass_control : ℕ
ioctl_gpib_pass_control = gpib_ctl 13

abbrev pub ioctl_gpib_probe : ℕ
ioctl_gpib_probe = gpib_ctl 14

abbrev pub ioctl_gpib_register : ℕ
ioctl_gpib_register = gpib_ctl 15

abbrev pub ioctl_gpib_set_device : ℕ
ioctl_gpib_set_device = gpib_ctl 16

abbrev pub ioctl_gpib_cis : ℕ
ioctl_gpib_cis = gpib_ctl 17

abbrev pub ioctl_gpib_snapshot : ℕ
ioctl_gpib_snapshot = gpib_ctl 18

abbrev pub ioctl_gpib_raw_out : ℕ
ioctl_gpib_raw_out = gpib_ctl 19

abbrev pub ioctl_gpib_atn : ℕ
ioctl_gpib_atn = gpib_ctl 20

-- ===== src/Api/Codes.antt =====
-- The constants of include/gpib/ib.h, and the tables of src/gpibapi/ib.c.
use jornada_gpib.Prelude.{
  zero, suc, ltb, ◌==◌, suc, [], if◌then◌else◌, negsuc, pos, ◌∷◌, List, get_or, ℤ, ℕ,
}

abbrev pub ib_err : ℕ
ib_err = 0x8000

abbrev pub ib_timo : ℕ
ib_timo = 0x4000

abbrev pub ib_end : ℕ
ib_end = 0x2000

abbrev pub ib_srqi : ℕ
ib_srqi = 0x1000

abbrev pub ib_cmpl : ℕ
ib_cmpl = 0x0100

abbrev pub ib_cic : ℕ
ib_cic = 0x0020

abbrev pub ib_atn : ℕ
ib_atn = 0x0010

abbrev pub ib_tacs : ℕ
ib_tacs = 0x0008

abbrev pub ib_lacs : ℕ
ib_lacs = 0x0004

abbrev pub ib_edvr : ℕ
ib_edvr = 0

abbrev pub ib_ecic : ℕ
ib_ecic = 1

abbrev pub ib_enol : ℕ
ib_enol = 2

abbrev pub ib_eadr : ℕ
ib_eadr = 3

abbrev pub ib_earg : ℕ
ib_earg = 4

abbrev pub ib_esac : ℕ
ib_esac = 5

abbrev pub ib_eabo : ℕ
ib_eabo = 6

abbrev pub ib_eneb : ℕ
ib_eneb = 7

abbrev pub ib_eoip : ℕ
ib_eoip = 10

abbrev pub ib_ebus : ℕ
ib_ebus = 14

abbrev pub ib_etab : ℕ
ib_etab = 20

abbrev pub ib_tnone : ℕ
ib_tnone = 0

abbrev pub ib_t10us : ℕ
ib_t10us = 1

abbrev pub ib_t30us : ℕ
ib_t30us = 2

abbrev pub ib_t100us : ℕ
ib_t100us = 3

abbrev pub ib_t300us : ℕ
ib_t300us = 4

abbrev pub ib_t1ms : ℕ
ib_t1ms = 5

abbrev pub ib_t3ms : ℕ
ib_t3ms = 6

abbrev pub ib_t10ms : ℕ
ib_t10ms = 7

abbrev pub ib_t30ms : ℕ
ib_t30ms = 8

abbrev pub ib_t100ms : ℕ
ib_t100ms = 9

abbrev pub ib_t300ms : ℕ
ib_t300ms = 10

abbrev pub ib_t1s : ℕ
ib_t1s = 11

abbrev pub ib_t3s : ℕ
ib_t3s = 12

abbrev pub ib_t10s : ℕ
ib_t10s = 13

abbrev pub ib_t30s : ℕ
ib_t30s = 14

abbrev pub ib_t100s : ℕ
ib_t100s = 15

abbrev pub ib_t300s : ℕ
ib_t300s = 16

abbrev pub ib_t1000s : ℕ
ib_t1000s = 17

abbrev pub ib_reos : ℕ
ib_reos = 0x0400

abbrev pub ib_xeos : ℕ
ib_xeos = 0x0800

abbrev pub ib_bin : ℕ
ib_bin = 0x1000

abbrev pub ib_max_devices : ℕ
ib_max_devices = 16

abbrev pub ib_no_sad : ℤ
ib_no_sad = negsuc 0

abbrev pub timeout_table_ms : List ℕ
timeout_table_ms =
    0 ∷ 1 ∷ 1 ∷ 1 ∷ 1 ∷ 1 ∷ 3 ∷ 10 ∷ 30 ∷ 100 ∷ 300 ∷ 1000 ∷ 3000 ∷ 10000 ∷ 30000 ∷ 100000 ∷ 300000
    ∷ 1000000 ∷ []

abbrev pub timeout_at : ℕ → ℕ
timeout_at tmo = get_or timeout_table_ms tmo 0

unfoldable pub timeout_ms : ℤ → ℕ
timeout_ms (pos tmo) = if ltb ib_t1000s tmo then 10000 else timeout_at tmo
timeout_ms (negsuc n) = 10000

-- GPIB_ST_*, as the numbers they are
abbrev pub map_status : ℤ → ℕ
map_status (pos zero) = 0
map_status (pos (suc n)) = ib_ebus
map_status (negsuc n) =
    if n == 0
    then ib_eabo
    else if n == 1
    then ib_enol
    else if n == 2
    then ib_ecic
    else if n == 5
    then ib_esac
    else if n == 4
    then ib_earg
    else if n == 6
    then ib_eneb
    else ib_ebus

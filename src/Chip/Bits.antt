-- ===== src/Chip/Bits.antt =====
-- Bits, commands and limits of the TNT4882C (the #define lines of include/gpib/tnt4882.h and of
-- src/gpib/tnt4882.c).
use jornada_gpib.Prelude.{ℕ}

abbrev pub hr_err : ℕ
hr_err = 0x04

abbrev pub hr_end : ℕ
hr_end = 0x10

abbrev pub hr_natn : ℕ
hr_natn = 0x40

abbrev pub hr_cic : ℕ
hr_cic = 0x80

abbrev pub hr_adm0 : ℕ
hr_adm0 = 0x01

abbrev pub hr_adm1 : ℕ
hr_adm1 = 0x02

abbrev pub hr_trm0 : ℕ
hr_trm0 = 0x10

abbrev pub hr_trm1 : ℕ
hr_trm1 = 0x20

abbrev pub hr_dl : ℕ
hr_dl = 0x20

abbrev pub hr_dt : ℕ
hr_dt = 0x40

abbrev pub hr_ars : ℕ
hr_ars = 0x80

abbrev pub aux_pon : ℕ
aux_pon = 0x00

abbrev pub aux_cr : ℕ
aux_cr = 0x02

abbrev pub aux_fh : ℕ
aux_fh = 0x03

abbrev pub aux_gts : ℕ
aux_gts = 0x10

abbrev pub aux_tca : ℕ
aux_tca = 0x11

abbrev pub aux_tcs : ℕ
aux_tcs = 0x12

abbrev pub aux_cifc : ℕ
aux_cifc = 0x16

abbrev pub aux_cren : ℕ
aux_cren = 0x17

abbrev pub aux_sifc : ℕ
aux_sifc = 0x1e

abbrev pub aux_sren : ℕ
aux_sren = 0x1f

abbrev pub aux_hldi : ℕ
aux_hldi = 0x51

abbrev pub aux_7210 : ℕ
aux_7210 = 0x99

abbrev pub aux_auxrg : ℕ
aux_auxrg = 0x40

abbrev pub aux_ppr : ℕ
aux_ppr = 0x60

abbrev pub aux_auxra : ℕ
aux_auxra = 0x80

abbrev pub aux_auxrb : ℕ
aux_auxrb = 0xa0

abbrev pub aux_auxre : ℕ
aux_auxre = 0xc0

abbrev pub aux_auxri : ℕ
aux_auxri = 0xe0

abbrev pub hr_hlda : ℕ
hr_hlda = 0x01

abbrev pub hr_hlde : ℕ
hr_hlde = 0x02

abbrev pub hr_reos : ℕ
hr_reos = 0x04

abbrev pub hr_xeos : ℕ
hr_xeos = 0x08

abbrev pub hr_bin : ℕ
hr_bin = 0x10

abbrev pub hr_tri : ℕ
hr_tri = 0x04

abbrev pub hr_rpp2 : ℕ
hr_rpp2 = 0x04

abbrev pub hr_ustd : ℕ
hr_ustd = 0x08

abbrev pub hr_ppu : ℕ
hr_ppu = 0x10

abbrev pub tnt_command : ℕ
tnt_command = 0x80

abbrev pub tnt_in : ℕ
tnt_in = 0x20

abbrev pub tnt_ccen : ℕ
tnt_ccen = 0x08

abbrev pub tnt_clrsc : ℕ
tnt_clrsc = 0x02

abbrev pub tnt_setsc : ℕ
tnt_setsc = 0x03

abbrev pub tnt_go : ℕ
tnt_go = 0x04

abbrev pub tnt_stop : ℕ
tnt_stop = 0x08

abbrev pub tnt_reset_fifo : ℕ
tnt_reset_fifo = 0x10

abbrev pub tnt_soft_reset : ℕ
tnt_soft_reset = 0x22

abbrev pub tnt_one_chip : ℕ
tnt_one_chip = 0x01

abbrev pub tnt_nodma : ℕ
tnt_nodma = 0x10

abbrev pub tnt_imr0_always : ℕ
tnt_imr0_always = 0x80

abbrev pub tnt_s_done : ℕ
tnt_s_done = 0x80

abbrev pub tnt_s_sc : ℕ
tnt_s_sc = 0x40

abbrev pub tnt_bffn : ℕ
tnt_bffn = 0x02

abbrev pub tnt_befn : ℕ
tnt_befn = 0x01

abbrev pub tnt_anhs1 : ℕ
tnt_anhs1 = 0x20

abbrev pub tnt_aehs : ℕ
tnt_aehs = 0x40

abbrev pub tnt_mstd : ℕ
tnt_mstd = 0x20

abbrev pub tnt_bsr_srq : ℕ
tnt_bsr_srq = 0x04

abbrev pub tnt_reset_sts1 : ℕ
tnt_reset_sts1 = 0x8b

abbrev pub tnt_reset_sts2 : ℕ
tnt_reset_sts2 = 0x9a

abbrev pub tnt_reset_isr3 : ℕ
tnt_reset_isr3 = 0x19

abbrev pub tnt_reset_adsr : ℕ
tnt_reset_adsr = 0x40

abbrev pub tnt_default_timeout_ms : ℕ
tnt_default_timeout_ms = 10000

abbrev pub tnt_max_transfer : ℕ
tnt_max_transfer = 0x00ffffff

abbrev pub tnt_xf_eoi : ℕ
tnt_xf_eoi = 0x01

abbrev pub tnt_xf_command : ℕ
tnt_xf_command = 0x02

abbrev pub tnt_eos_reos : ℕ
tnt_eos_reos = 0x01

abbrev pub tnt_eos_bin : ℕ
tnt_eos_bin = 0x02

abbrev pub tnt_eos_xeos : ℕ
tnt_eos_xeos = 0x04

abbrev pub address_mask : ℕ
address_mask = 0x1f

abbrev pub tca_spin_us : ℕ
tca_spin_us = 100

abbrev pub ifc_pulse_us : ℕ
ifc_pulse_us = 200

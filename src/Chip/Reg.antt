-- ===== src/Chip/Reg.antt =====
-- Register offsets in the card's I/O window (enum tnt_reg of include/gpib/tnt4882.h).
use jornada_gpib.Prelude.{ℕ}

abbrev pub isr1 : ℕ
isr1 = 0x02

abbrev pub isr2 : ℕ
isr2 = 0x04

abbrev pub imr1 : ℕ
imr1 = 0x02

abbrev pub imr2 : ℕ
imr2 = 0x04

abbrev pub spmr : ℕ
spmr = 0x06

abbrev pub admr : ℕ
admr = 0x08

abbrev pub adsr : ℕ
adsr = 0x08

abbrev pub auxmr : ℕ
auxmr = 0x0a

abbrev pub cptr : ℕ
cptr = 0x0a

abbrev pub adr : ℕ
adr = 0x0c

abbrev pub eosr : ℕ
eosr = 0x0e

abbrev pub accwr : ℕ
accwr = 0x05

abbrev pub auxcr : ℕ
auxcr = 0x06

abbrev pub cnt2 : ℕ
cnt2 = 0x09

abbrev pub swapped_auxcr : ℕ
swapped_auxcr = 0x0a

abbrev pub cnt3 : ℕ
cnt3 = 0x0b

abbrev pub hssel : ℕ
hssel = 0x0d

abbrev pub cfg : ℕ
cfg = 0x10

abbrev pub sts1 : ℕ
sts1 = 0x10

abbrev pub imr3 : ℕ
imr3 = 0x12

abbrev pub cnt0 : ℕ
cnt0 = 0x14

abbrev pub cnt1 : ℕ
cnt1 = 0x16

abbrev pub keyreg : ℕ
keyreg = 0x17

abbrev pub csr : ℕ
csr = 0x17

abbrev pub fifob : ℕ
fifob = 0x18

abbrev pub isr3 : ℕ
isr3 = 0x1a

abbrev pub sasr : ℕ
sasr = 0x1b

abbrev pub cmdr : ℕ
cmdr = 0x1c

abbrev pub sts2 : ℕ
sts2 = 0x1c

abbrev pub imr0 : ℕ
imr0 = 0x1d

abbrev pub isr0 : ℕ
isr0 = 0x1d

abbrev pub bsr : ℕ
bsr = 0x1f

-- ===== src/Api/Errors.antt =====
-- The calls of src/gpibapi/ib.c on a descriptor that is not open, and the bounds of a read.
use jornada_gpib.Api.Transfers.{
  ibonl, ibeot, ibclr, ibtrg, ibloc, ibpct, ibtmo, ibtmo_ms, ibeos, ibrd, ibwrt, ibrsp,
}
use jornada_gpib.Prelude.{ℕ, ◌≤◌, ◌<◌, ◌≡◌, false, get_elem?, some, ℤ, pos}
use jornada_gpib.Api.State.{Api, Device}
use jornada_gpib.Api.Transfers.{
  ibeos, ibtmo_ms, ibtmo, ibpct, ibloc, ibtrg, ibclr, ibeot, ibonl, ibrsp, ibwrt, ibrd,
}

-- The state after EARG: the driver and the table as they were, and no call to the system.
abbrev pub bad_argument : Api → Api
bad_argument s = record s { ibsta = 0x8100; iberr = 4; ibcnt = pos 0; ibcntl = pos 0 }

-- `ud` is not a descriptor from 1 to 15, or its entry of the table is not in use.
pub record IsClosed (ud : ℤ) (s : Api) : Type 0 where
  pub unused :
      (n : ℕ) (d : Device)
      → ud ≡ pos n
      → 1 ≤ n
      → n < 16
      → get_elem? s.devices n ≡ some d
      → d.in_use ≡ false

-- ===== src/Chip/Status.antt =====
-- The return codes of include/gpib/tnt4882.h, from TNT_OK down to TNT_ENOTSC.
use jornada_gpib.Prelude.{Bool, true, false}

pub data Status : Type 0 where
  ok etimeout enolistener enotcic eio einval enotsc : Status

-- rc == TNT_OK
abbrev pub is_ok : Status → Bool
is_ok ok = true
is_ok s = false

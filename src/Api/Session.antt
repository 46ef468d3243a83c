-- ===== src/Api/Session.antt =====
-- The interface of include/gpib/ib.h as one type.
use jornada_gpib.Prelude.{ℕ, Bool, List, [], ◌∷◌, Option, ℤ}
use jornada_gpib.Api.State.{Os, C, ◌>>◌, give}
use jornada_gpib.Api.Calls.{ibconfig_board, ibsic, ibsre, iblines, ibfind_board, ibdev}
use jornada_gpib.Api.Transfers.{
  ibwrt, ibrd, ibclr, ibtrg, ibloc, ibpct, ibllo, ibrsp, ibonl, ibtmo_ms, ibtmo, ibeot, ibeos,
}

-- The calls on a descriptor.
pub data DeviceCall : Type 0 where
  online eot_to : (v : Bool) → DeviceCall
  writes : (buf : Option (List ℕ)) (cnt : ℤ) → DeviceCall
  reads : (buf : Bool) (cnt : ℤ) → DeviceCall
  clears triggers to_local passes : DeviceCall
  polls : (spr : Bool) → DeviceCall
  timeout_code : (v : ℤ) → DeviceCall
  timeout_to eos_to : (v : ℕ) → DeviceCall

-- All calls.
pub data Call : Type 0 where
  finds_board interface_clear locks_out looks : Call
  config_board : (pad sad : ℤ) (timeout_ms t1_ns : ℕ) → Call
  remote_enable : (v : Bool) → Call
  opens : (board pad sad tmo : ℤ) (eot : Bool) (eos : ℕ) → Call
  on_device : (ud : ℤ) (call : DeviceCall) → Call

abbrev pub drop_result : {A : Type 0} → C A → C (Unit {0})
drop_result m = do m; give tt

module _ ⦃os : Os⦄ where
  unfoldable pub run_device : ℤ → DeviceCall → C (Unit {0})
  unfolding ibonl ibeot ibclr ibtrg ibloc ibpct ibtmo ibtmo_ms ibeos
  run_device ud (online v) = drop_result (ibonl ud v)
  run_device ud (eot_to v) = drop_result (ibeot ud v)
  run_device ud (writes buf cnt) = drop_result (ibwrt ud buf cnt)
  run_device ud (reads buf cnt) = drop_result (ibrd ud buf cnt)
  run_device ud clears = drop_result (ibclr ud)
  run_device ud triggers = drop_result (ibtrg ud)
  run_device ud to_local = drop_result (ibloc ud)
  run_device ud passes = drop_result (ibpct ud)
  run_device ud (polls spr) = drop_result (ibrsp ud spr)
  run_device ud (timeout_code v) = drop_result (ibtmo ud v)
  run_device ud (timeout_to v) = drop_result (ibtmo_ms ud v)
  run_device ud (eos_to v) = drop_result (ibeos ud v)

  unfoldable pub run : Call → C (Unit {0})
  unfolding ibfind_board ibsic ibllo iblines ibconfig_board ibsre ibdev run_device
  run finds_board = drop_result ibfind_board
  run interface_clear = drop_result ibsic
  run locks_out = drop_result ibllo
  run looks = drop_result iblines
  run (config_board pad sad timeout_ms t1_ns) =
      drop_result (ibconfig_board pad sad timeout_ms t1_ns)
  run (remote_enable v) = drop_result (ibsre v)
  run (opens board pad sad tmo eot eos) = drop_result (ibdev board pad sad tmo eot eos)
  run (on_device ud call) = run_device ud call

  unfoldable pub run_all : List Call → C (Unit {0})
  unfolding run
  run_all [] = give tt
  run_all (c ∷ cs) = do run c; run_all cs

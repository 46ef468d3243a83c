-- ===== src/Controller/Commands.antt =====
-- The operations of gpib488.h that send a device command, as one type, and what each sends.
use jornada_gpib.Prelude.{refl, not, append-nil, ◌++◌, pos, u8, map, [], ◌∷◌, negsuc, ℤ, List, ℕ}
use jornada_gpib.Controller.Ops
use jornada_gpib.Chip.Io.{M, World, Io}
use jornada_gpib.Controller.Ops.{pass_control}
use jornada_gpib.Controller.Bytes.{
  valid_address, gpib_llo, gpib_gtl, gpib_get, gpib_tct, gpib_sdc, gpib_tad, build_addressed,
  gpib_dcl,
}
use jornada_gpib.Chip.Access.{if_ok}
use jornada_gpib.Controller.Emits.{
  Emits-bind, Emits-if, Emits-pure, Emits-silent, Emits-silent, Emits-weaken, Emits,
}
use jornada_gpib.Controller.Delivers.{Delivers-nothing, Delivers-all, Delivers}
use jornada_gpib.Chip.Status.{ok, Status}
use jornada_gpib.Controller.Messages.{addressed_command-Delivers}
use jornada_gpib.Chip.Control.{go_to_standby}
use jornada_gpib.Controller.Traffic.{einval-fails, send_commands-Delivers}
use jornada_gpib.Chip.Protocol.Control.{Traced-go_to_standby}

pub data DeviceCall : Type 0 where
  clear_device trigger_device local_device : (pad sad : ℤ) → DeviceCall
  lock_out : DeviceCall
  pass_to : (pad : ℤ) → DeviceCall

module _ ⦃io : Io⦄ where
  unfoldable pub run_device : ℕ → DeviceCall → M Status
  unfolding Ops.clear Ops.trigger Ops.local Ops.local_lockout pass_control
  run_device rounds (clear_device pad sad) = Ops.clear rounds pad sad
  run_device rounds (trigger_device pad sad) = Ops.trigger rounds pad sad
  run_device rounds (local_device pad sad) = Ops.local rounds pad sad
  run_device rounds lock_out = Ops.local_lockout rounds
  run_device rounds (pass_to pad) = pass_control rounds pad

-- The command bytes that each is meant to send: SDC, GET or GTL to the device, DCL to all if there
-- is no address, LLO to all, TCT to the talker.
abbrev pub message : DeviceCall → List ℕ
message (clear_device (negsuc n) sad) = gpib_dcl ∷ []
message (clear_device (pos p) sad) = build_addressed (pos p) sad gpib_sdc
message (trigger_device pad sad) = build_addressed pad sad gpib_get
message (local_device pad sad) = build_addressed pad sad gpib_gtl
message lock_out = gpib_llo ∷ []
message (pass_to pad) = gpib_tad pad ∷ gpib_tct ∷ []

module _ ⦃io : Io⦄ where
  pass_control-Delivers :
      (rounds : ℕ) (pad : ℤ) (w : World)
      → Emits w (pass_control rounds pad) (Delivers (map u8 (gpib_tad pad ∷ gpib_tct ∷ [])))
  unfolding pass_control if_ok
  pass_control-Delivers rounds pad w =
      Emits-if (not (valid_address pad (negsuc 0)))
        (λ _. Emits-pure _ (Delivers-nothing _ _ einval-fails))
        (λ _.
          Emits-bind {f = λ rc. if_ok rc (go_to_standby rounds)}
            (send_commands-Delivers rounds (gpib_tad pad ∷ gpib_tct ∷ []) w)
            (λ rc bs u d. last rc bs u d))
    where
      last :
          (rc : Status) (bs : List ℕ) (u : World)
          → Delivers (map u8 (gpib_tad pad ∷ gpib_tct ∷ [])) rc bs
          → Emits u
              (if_ok rc (go_to_standby rounds))
              (λ rc' cs. Delivers (map u8 (gpib_tad pad ∷ gpib_tct ∷ [])) rc' (bs ++ cs))
      last ok bs u d =
          Emits-weaken (Emits-silent (go_to_standby rounds) (Traced-go_to_standby rounds))
            (λ rc' cs e. rw (e, append-nil bs) (Delivers-all _ bs rc' (d.whole refl)))
      last rc bs u d = Emits-pure rc (rw (append-nil bs) d)

  -- The command bytes that a device operation gives to the chip are a prefix of its message,
  -- whatever happens, and OK means all of it.
  pub run_device-Delivers :
      (rounds : ℕ) (call : DeviceCall) (w : World)
      → Emits w (run_device rounds call) (Delivers (map u8 (message call)))
  unfolding run_device Ops.clear Ops.trigger Ops.local Ops.local_lockout
  run_device-Delivers rounds (clear_device (pos p) sad) w =
      addressed_command-Delivers rounds (pos p) sad gpib_sdc w
  run_device-Delivers rounds (clear_device (negsuc n) sad) w =
      send_commands-Delivers rounds (gpib_dcl ∷ []) w
  run_device-Delivers rounds (trigger_device pad sad) w =
      addressed_command-Delivers rounds pad sad gpib_get w
  run_device-Delivers rounds (local_device pad sad) w =
      addressed_command-Delivers rounds pad sad gpib_gtl w
  run_device-Delivers rounds lock_out w = send_commands-Delivers rounds (gpib_llo ∷ []) w
  run_device-Delivers rounds (pass_to pad) w = pass_control-Delivers rounds pad w

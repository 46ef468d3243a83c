-- ===== src/Controller/Tests.antt =====
-- The controller's theorems at runs with the card of Chip.Tests.
use jornada_gpib.Prelude.{
  ◌++◌, u8, map, arith, refl, ◌∷◌, ◌≡◌, false, true, negsuc, List, pos, some, Option, [], none, ℕ,
}
use jornada_gpib.Controller.Ops
use jornada_gpib.Chip.Io.{World, spin, done, Run, Chip}
use jornada_gpib.Chip.Tests.{after, card, ready}
use jornada_gpib.Controller.Bus.{nobody, obey_all, Bus}
use jornada_gpib.Controller.Emits.{Emits}
use jornada_gpib.Controller.Addressing.{
  build_addressed-listeners, build_address-Connects, build_poll-Connects, Connects,
}
use jornada_gpib.Controller.Ops.{serial_poll}
use jornada_gpib.Controller.Bytes.{
  gpib_tad, gpib_lad, poll_tail, build_poll, build_addressed, build_address,
}
use jornada_gpib.Chip.Setup.{bound}
use jornada_gpib.Controller.Commands.{run_device-Delivers, message, trigger_device, run_device}
use jornada_gpib.Chip.Status.{ok, Status}
use jornada_gpib.Controller.Delivers.{Delivers}
use jornada_gpib.Controller.Poll.{serial_poll-Polled, Polled}
use jornada_gpib.Chip.Transfer.Output.{fifo_out}
use jornada_gpib.Controller.Messages.{write-Delivers, read-Delivers}
use jornada_gpib.Controller.Session.{
  poll_status_of, ask_device, write_to, clear_bus, Request, run_session,
}
use jornada_gpib.Chip.Spacing.{IsSpaced}

abbrev nobody_addressed : Bus
nobody_addressed = record { listeners = []; talker = none; pending = nobody }

abbrev alone : Chip
alone = record bound { pad = 0 }

build_address-Connects_example :
    Connects
      (0, none)
      (5, some 2)
      (obey_all (build_address alone (pos 5) (pos 2) false) nobody_addressed)
build_address-Connects_example =
    build_address-Connects alone (pos 5) (pos 2) false nobody_addressed refl refl

build_addressed-listeners_example :
    (obey_all (build_addressed (pos 5) (pos 2) 4) nobody_addressed).listeners ≡ (5, some 2) ∷ []
build_addressed-listeners_example =
    build_addressed-listeners (pos 5) (pos 2) 4 nobody_addressed refl (ground arith)

build_poll-Connects_example :
    Connects (9, none) (0, none) (obey_all (build_poll alone (pos 9) (negsuc 0)) nobody_addressed)
build_poll-Connects_example =
    build_poll-Connects alone (pos 9) (negsuc 0) nobody_addressed refl (ground arith)

write-Delivers_example :
    Emits ready (Ops.write ⦃io = card⦄ 9 (pos 5) (negsuc 0) (65 ∷ 66 ∷ []) true) (λ r.
      Delivers (map u8 (build_address ready.chip (pos 5) (negsuc 0) false) ++ 65 ∷ 66 ∷ []) r.0)
write-Delivers_example = write-Delivers ⦃io = card⦄ 9 (pos 5) (negsuc 0) (65 ∷ 66 ∷ []) true ready

read-Delivers_example :
    Emits ready
      (Ops.read ⦃io = card⦄ 9 (pos 5) (negsuc 0) 2)
      (λ r. Delivers (map u8 (build_address ready.chip (pos 5) (negsuc 0) true)) r.0)
read-Delivers_example = read-Delivers ⦃io = card⦄ 9 (pos 5) (negsuc 0) 2 ready

serial_poll-Polled_example :
    Emits ready
      (serial_poll ⦃io = card⦄ 9 (pos 5) (negsuc 0))
      (λ r. Polled (map u8 (build_poll ready.chip (pos 5) (negsuc 0))) poll_tail r.0)
serial_poll-Polled_example = serial_poll-Polled ⦃io = card⦄ 9 (pos 5) (negsuc 0) ready

run_device-Delivers_example :
    Emits ready
      (run_device ⦃io = card⦄ 9 (trigger_device (pos 5) (negsuc 0)))
      (Delivers (map u8 (message (trigger_device (pos 5) (negsuc 0)))))
run_device-Delivers_example =
    run_device-Delivers ⦃io = card⦄ 9 (trigger_device (pos 5) (negsuc 0)) ready

-- The code with which a run returns, and the bytes in the FIFO.
abbrev result : Run Status → Option (Status × List ℕ)
result (done rc w) = some (rc, fifo_out w.log)
result spin = none

-- A trigger comes back with OK, so its three bytes were all sent.
trigger_ok :
    result (run_device ⦃io = card⦄ 9 (trigger_device (pos 5) (negsuc 0)) ready)
    ≡ some (ok, 0x3f ∷ 0x25 ∷ 0x08 ∷ [])
unfolding ready run_device gpib_lad
trigger_ok = refl

abbrev session : List Request
session =
    clear_bus
    ∷ write_to (pos 5) (negsuc 0) (65 ∷ 66 ∷ []) true
    ∷ ask_device (trigger_device (pos 5) (negsuc 0))
    ∷ poll_status_of (pos 5) (negsuc 0)
    ∷ []

session_end : World
unfolding ready run_session
session_end = after (run_session ⦃io = card⦄ 9 session ready)

session_runs : run_session ⦃io = card⦄ 9 session ready ≡ done tt session_end
unfolding ready run_session session_end
session_runs = refl

pub ready-IsSpaced : IsSpaced ready
unfolding ready
ready-IsSpaced = (refl, refl)

-- All that the session is to send was sent: the write, the trigger and the poll with its end.
session_bytes :
    fifo_out session_end.log
    ≡ 0x3f ∷ 0x25 ∷ 0x47 ∷ 65 ∷ 66 ∷ 0x3f ∷ 0x25 ∷ 0x08 ∷ 0x3f ∷ 0x27 ∷ 0x18 ∷ 0x45 ∷ 0x19 ∷ 0x5f
      ∷ []
unfolding ready run_session session_end gpib_lad gpib_tad
session_bytes = refl

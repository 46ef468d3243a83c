-- ===== src/Chip/Tests.antt =====
-- A small card, what the driver does with it, and the chip driver's theorems at such runs.
use jornada_gpib.Prelude.{
  suc, ltb, not, arith, ◌+◌, ℕ, ◌≡◌, refl, Bool, true, false, ◌&&◌, ◌||◌, ◌==◌, if◌then◌else◌, List,
  [], ◌∷◌, ◌++◌, map, length,
}
use jornada_gpib.Chip.Io.{yielded, saw, Io, wrote, History, World, Run, done, spin}
use jornada_gpib.Chip.Status.{ok}
use jornada_gpib.Chip.Reg
use jornada_gpib.Chip.Bits.{
  hr_end, aux_tca, aux_gts, tnt_setsc, tnt_reset_sts1, tnt_reset_sts2, tnt_reset_isr3,
  tnt_reset_adsr,
}
use jornada_gpib.Chip.Setup.{bound, init}
use jornada_gpib.Chip.Transfer.{transfer_out, read}
use jornada_gpib.Chip.Transfer.Received.{IsReceived, read-IsReceived}
use jornada_gpib.Chip.Calls.{
  Call, set_eos_to, set_t1_to, send_command, receive, poll_parallel, run_all, AnyCall, serve,
  restart, initialise, self_test, close, run_each,
}
use jornada_gpib.Chip.Spacing.{IsSpaced, run_each-IsSpaced}
use jornada_gpib.Chip.Shadow.{IsCoherent, run_all-IsCoherent}
use jornada_gpib.Chip.Init.{IsOnline, init-IsOnline}
use jornada_gpib.Chip.Transfer.Sent.{Sent, transfer_out-Sent}
use jornada_gpib.Chip.Deadline.{deadline_expired, deadline_start, Deadline}
use jornada_gpib.Chip.Deadline.Elapsed.{deadline_expired-elapsed}

abbrev is_online : History → Bool
is_online [] = false
is_online (wrote off v ∷ h) = (off == Reg.cmdr && v == tnt_setsc) || is_online h
is_online (e ∷ h) = is_online h

-- The newest of the commands about ATN is to release it.
abbrev in_standby : History → Bool
in_standby [] = false
in_standby (wrote off v ∷ h) =
    (off == Reg.auxmr && v == aux_gts) || (not (off == Reg.auxmr && v == aux_tca) && in_standby h)
in_standby (e ∷ h) = in_standby h

-- A card that shows the reset signature until it is made system controller; from then on it is in
-- charge, asserts and releases ATN as it is told, its FIFO never blocks, and every transfer is done
-- at once.
abbrev answer : Bool → ℕ → ℕ
answer true off =
    if off == Reg.sts1
    then 0xc0
    else if off == Reg.sts2
    then 0x9b
    else if off == Reg.adsr
    then 0x80
    else 0x41
answer false off =
    if off == Reg.sts1
    then tnt_reset_sts1
    else if off == Reg.sts2
    then tnt_reset_sts2
    else if off == Reg.isr3
    then tnt_reset_isr3
    else if off == Reg.adsr
    then tnt_reset_adsr
    else 0

abbrev pub card : Io
card = record {
  read8 = λ h off. if in_standby h && off == Reg.adsr then 0xc0 else answer (is_online h) off;
  now_ms = λ h. length h;
}

-- How many bytes were read from the FIFO.
abbrev fifo_reads : History → ℕ
fifo_reads [] = 0
fifo_reads (saw off v ∷ h) = if off == Reg.fifob then suc (fifo_reads h) else fifo_reads h
fifo_reads (e ∷ h) = fifo_reads h

abbrev start : World
start = record { chip = bound; log = [] }

abbrev pub after : {A : Type 0} → Run A → World
after (done a w) = w
after spin = start

abbrev script : List Call
script =
    set_eos_to 10 5
    ∷ set_t1_to 350
    ∷ send_command (0x3f ∷ 0x21 ∷ [])
    ∷ poll_parallel
    ∷ receive 2
    ∷ []

-- The world after `tnt_init`.
unfoldable pub ready : World
unfolding init
ready = after (init ⦃io = card⦄ 7 start)

ready_ok : init ⦃io = card⦄ 7 start ≡ done ok ready
unfolding init ready
ready_ok = refl

pub ready-IsOnline : IsOnline 7 ready
ready-IsOnline = init-IsOnline ⦃io = card⦄ 7 start ready_ok

init-IsOnline_example : IsOnline 7 ready
init-IsOnline_example = init-IsOnline ⦃io = card⦄ 7 start ready_ok

script_end : World
unfolding ready run_all
script_end = after (run_all ⦃io = card⦄ 9 script ready)

script_runs : run_all ⦃io = card⦄ 9 script ready ≡ done tt script_end
unfolding ready run_all script_end
script_runs = refl

-- The start of the chip, the script, the self-test and the shutdown.
abbrev whole : List AnyCall
whole = restart (initialise 7) ∷ map serve script ++ restart self_test ∷ restart close ∷ []

whole_end : World
unfolding run_each
whole_end = after (run_each ⦃io = card⦄ 9 whole start)

run_each-IsSpaced_example : IsSpaced whole_end
unfolding whole_end
run_each-IsSpaced_example = run_each-IsSpaced ⦃io = card⦄ 9 whole start (refl, refl) refl

run_all-IsCoherent_example : IsCoherent script_end
run_all-IsCoherent_example =
    run_all-IsCoherent ⦃io = card⦄ 9 script ready-IsOnline.coherent script_runs

-- A transfer of three bytes with EOI, and the world after it.
sent_world : World
unfolding ready transfer_out
sent_world = after (transfer_out ⦃io = card⦄ 9 (65 ∷ 66 ∷ 67 ∷ []) 1 ready)

transfer_out-Sent_example : Sent (65 ∷ 66 ∷ 67 ∷ []) ready ok 3 sent_world
unfolding sent_world
transfer_out-Sent_example = transfer_out-Sent ⦃io = card⦄ 9 (65 ∷ 66 ∷ 67 ∷ []) 1 ready refl

-- The same card near the wrap of the clock.
abbrev late_card : Io
late_card = record {
  read8 = λ h off. answer (is_online h) off;
  now_ms = λ h. 4294967290 + length h;
}

abbrev hurried : World
hurried = record { chip = record bound { timeout_ms = 5 }; log = [] }

abbrev later : World
later = record {
  chip = hurried.chip;
  log = yielded ∷ yielded ∷ yielded ∷ yielded ∷ yielded ∷ yielded ∷ yielded ∷ [];
}

deadline_expired-elapsed_example :
    (d : Deadline) × (w' : World) × (u' : World) × (deadline_start ⦃io = late_card⦄ hurried
      ≡ done d w')
    × (deadline_expired ⦃io = late_card⦄ d later ≡ done true u')
deadline_expired-elapsed_example =
    deadline_expired-elapsed ⦃io = late_card⦄ hurried later 7 (omega arith) (omega arith) refl

-- Two bytes are ready since `ready`, and then ISR1 shows END.
abbrev ending : Io
ending = record {
  read8 = λ h off.
      if off == Reg.sts2
      then (if ltb (fifo_reads h) 2 then 0x9b else 0)
      else if off == Reg.isr1
      then (if ltb (fifo_reads h) 2 then 0 else hr_end)
      else 0x41;
  now_ms = λ h. length h;
}

ended_world : World
unfolding ready read
ended_world = after (read ⦃io = ending⦄ 9 4 ready)

read-IsReceived_example : IsReceived 4 (ok, 0x41 ∷ 0x41 ∷ [], true) ended_world
unfolding ready ended_world
read-IsReceived_example = read-IsReceived ⦃io = ending⦄ 9 4 ready (omega arith) refl

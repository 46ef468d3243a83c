-- ===== src/Chip/Spacing.antt =====
-- The delays of `auxmr` and `cmdr`, over the history of the calls through `tnt_io`. The comment on
-- them also asks for time between a write to AUXMR and one to CMDR right after it; there is none.
use jornada_gpib.Prelude.{
  ℕ, ◌≡◌, Bool, true, false, not, ◌&&◌, ◌||◌, ◌==◌, leb, List, [], ◌∷◌, arith,
}
use jornada_gpib.Chip.Io.{Io, Event, wrote, paused, History, World, done, and_then-eq-done, pure}
use jornada_gpib.Chip.Reg
use jornada_gpib.Chip.Calls.{AnyCall, serve, restart, run_any, run_each}
use jornada_gpib.Chip.Protocol.Steps.{
  feed, feeding, Mode, Step, look, poke, rest, tick, pass, note, order, reset, instruct, put_auxra,
  put_auxrb, put_auxri, put_auxrg, execute, Steps, here, next,
}
use jornada_gpib.Chip.Protocol.Rules.{Traced-Steps}
use jornada_gpib.Chip.Protocol.Calls.{Traced-run, Traced-run_reset}

-- The newest event is a write to CMDR.
abbrev pub is_unsettled : History → Bool
is_unsettled (wrote off v ∷ h) = off == Reg.cmdr
is_unsettled h = false

-- The newest event is a delay of a microsecond or more.
abbrev pub is_rested : History → Bool
is_rested (paused us ∷ h) = leb 1 us
is_rested h = false

abbrev pub allowed : Event → History → Bool
allowed (wrote off v) h = (not (off == Reg.auxmr) || is_rested h) && not (is_unsettled h)
allowed (paused us) h = leb 1 us || not (is_unsettled h)
allowed e h = not (is_unsettled h)

abbrev pub spaced : History → Bool
spaced [] = true
spaced (e ∷ h) = allowed e h && spaced h

-- Every write to AUXMR comes right after a delay, and right after every write to CMDR comes one.
abbrev pub IsSpaced : World → Type 0
IsSpaced w = (spaced w.log ≡ true) × (is_unsettled w.log ≡ false)

Step-IsSpaced : {mode : Mode} {u v : World} → Step mode u v → IsSpaced u → IsSpaced v
Step-IsSpaced (look off v w) h = ground arith
Step-IsSpaced (poke off v w p q r) h = ground arith
Step-IsSpaced (feed v w p) h = ground arith
Step-IsSpaced (rest us w) h = ground arith
Step-IsSpaced (tick t w) h = ground arith
Step-IsSpaced (pass w) h = ground arith
Step-IsSpaced (note c w same) h = h
Step-IsSpaced (order v w p) h = ground arith
Step-IsSpaced (reset v w p) h = ground arith
Step-IsSpaced (instruct v w) h = ground arith
Step-IsSpaced (put_auxra f w k) h = ground arith
Step-IsSpaced (put_auxrb f w k) h = ground arith
Step-IsSpaced (put_auxri f w k) h = ground arith
Step-IsSpaced (put_auxrg f w k) h = ground arith
Step-IsSpaced (execute v w) h = ground arith

pub Steps-IsSpaced : {mode : Mode} {u v : World} → IsSpaced u → Steps mode u v → IsSpaced v
Steps-IsSpaced h here = h
Steps-IsSpaced h (next s x) = Step-IsSpaced x (Steps-IsSpaced h s)

module _ ⦃io : Io⦄ (rounds : ℕ) where
  run_any-IsSpaced :
      (c : AnyCall) (w : World) {w' : World}
      → IsSpaced w
      → run_any rounds c w ≡ done tt w'
      → IsSpaced w'
  unfolding run_any
  run_any-IsSpaced (serve c) w h e =
      Steps-IsSpaced {mode = feeding} h (Traced-Steps (Traced-run rounds c) e)
  run_any-IsSpaced (restart c) w h e = Steps-IsSpaced h (Traced-Steps (Traced-run_reset rounds c) e)

  -- A client may make any calls of the interface in any order, those that reset the chip among them
  -- and only `tnt_bind` left out. Whatever the card answers and however the polling loops end: if
  -- all calls return, then each write to AUXMR came right after a delay, and each write to CMDR was
  -- followed by one, as they were before. (A write to CMDR may come right after one to AUXMR.)
  pub run_each-IsSpaced :
      (cs : List AnyCall) (w : World) {w' : World}
      → IsSpaced w
      → run_each rounds cs w ≡ done tt w'
      → IsSpaced w'
  unfolding run_each pure
  run_each-IsSpaced [] w h e = ground (arith, e)
  run_each-IsSpaced (c ∷ cs) w h e =
      let (a, u, first, later) =
        and_then-eq-done (run_any rounds c w) (λ _. run_each rounds cs) e in
      run_each-IsSpaced cs u (run_any-IsSpaced c w h first) later

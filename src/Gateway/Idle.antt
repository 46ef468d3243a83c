-- ===== src/Gateway/Idle.antt =====
-- A client of src/gpibsrv/gpibsrv.c that sends nothing.
use jornada_gpib.Prelude.{
  ℕ, suc, ◌+◌, ◌<◌, ◌≡◌, refl, ◌∙◌, ◌||◌, ◌&&◌, not, Bool, true, false, ◌==◌, leb, if◌then◌else◌,
  List, [], ◌∷◌, ◌++◌, length, map, arith, Bool-cases, inl, inr,
}
use jornada_gpib.Api.State.{Os}
use jornada_gpib.Gateway.State.{G, idle_limit, Net, Server, done, give, gateway}
use jornada_gpib.Gateway.Serve.{wsaetimedout, wsaewouldblock, Lexer, Incoming, failed, client_loop}

-- Each of the errors is that the wait is over.
abbrev pub all_timeouts : List ℕ → Bool
all_timeouts [] = true
all_timeouts (e ∷ es) = (e == wsaetimedout || e == wsaewouldblock) && all_timeouts es

-- One round of the loop, where it does not end for another reason.
quiet_round :
    (timeout stop full : Bool) (m : G (Unit {0})) (s : Server)
    → timeout ≡ true
    → stop ≡ false
    → (if not timeout then give tt else if stop then give tt else if full then give tt else m) s
      ≡ (if full then done tt s else m s)
unfolding give
quiet_round true false true m s e f = refl
quiet_round true false false m s e f = refl
quiet_round true true full m s e f = cc
quiet_round false stop full m s e f = cc

-- The limit is not reached yet, or it is, now and later.
below : (n : ℕ) → n < idle_limit → leb idle_limit n ≡ false
below n h = ground arith

beyond : (n m : ℕ) → leb idle_limit n ≡ true → leb idle_limit (n + m) ≡ true
beyond n m e = ground arith

module _ (rounds : ℕ) ⦃os : Os⦄ ⦃net : Net⦄ where
  pub client_loop-idle :
      (l : Lexer) (idle_ticks : ℕ) (errs : List ℕ) (later : List Incoming) (s : Server)
      → idle_ticks < idle_limit
      → all_timeouts errs ≡ true
      → s.gw.stop ≡ false
      → client_loop rounds l idle_ticks (map failed errs ++ later) s ≡ (
          if leb idle_limit (idle_ticks + length errs)
          then done tt s
          else client_loop rounds l (idle_ticks + length errs) later s)
  unfolding client_loop gateway give
  client_loop-idle l idle_ticks [] later s few timeouts runs =
      let same : idle_ticks + 0 ≡ idle_ticks = omega arith in rw (same, below idle_ticks few) refl
  client_loop-idle l idle_ticks (e ∷ es) later s few timeouts runs =
      let next : idle_ticks + suc (length es) ≡ suc idle_ticks + length es = omega arith in
      quiet_round (e == wsaetimedout || e == wsaewouldblock) s.gw.stop
        (leb idle_limit (suc idle_ticks)) _ s (ground (arith, timeouts)) runs
      ∙ elim (Bool-cases (leb idle_limit (suc idle_ticks))) [
        | inl full ↦ rw (full, next, beyond (suc idle_ticks) (length es) full) refl
        | inr more ↦
            rw (more, next)
              (client_loop-idle l (suc idle_ticks) es later s (ground (arith, more))
                (ground (arith, timeouts)) runs)
      ]

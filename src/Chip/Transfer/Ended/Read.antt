-- ===== src/Chip/Transfer/Ended/Read.antt =====
-- A read that reports END has seen it: the loop of `tnt_read`, and what is around it.
use jornada_gpib.Prelude.{
  ℕ, zero, suc, ◌<◌, ◌≡◌, refl, subst, Bool, Bool-cases, inl, inr, true, false, not, ◌||◌, ◌==◌,
  ltb, if◌then◌else◌, has, List, [], length, arith,
}
use jornada_gpib.Chip.Io.{Io, World, done, M, and_then-eq-done, ◌>>=◌, pure, out_of_rounds}
use jornada_gpib.Chip.Status.{Status, ok, etimeout}
use jornada_gpib.Chip.Bits.{hr_end, tnt_max_transfer}
use jornada_gpib.Chip.Deadline.{Deadline, deadline_start}
use jornada_gpib.Chip.Protocol.Rules.{Holds}
use jornada_gpib.Chip.Transfer.{read, read_round, read_loop, late_end, start_in, finish_in}
use jornada_gpib.Chip.Transfer.Ended.{
  seen_end, Witnessed, Observes, or_bytes, clear_byte, Observes-bind, Observes-after, Observes-pure,
  Observes-silent, Observes-known, Observes-if, Observes-poll_status, Observes-chip,
  Observes-deadline_start, Observes-deadline_expired, Observes-yield, Observes-finish_in,
  Observes-late_end, Observes-drain_fifo,
}

-- Whether END is reported.
abbrev reported : Status × List ℕ × Bool → Bool
reported r = r.2

module _ ⦃io : Io⦄ where
  Observes-read_round :
      (room : ℕ) (buf : List ℕ) (d : Deadline)
      (again : ℕ → List ℕ → Deadline → M (Status × List ℕ × Bool))
      → ((left : ℕ) (b : List ℕ) (e : Deadline) → Observes false reported (again left b e))
      → Observes false reported (read_round room buf d again)
  unfolding read_round
  Observes-read_round room buf d again more = Observes-after (Observes-drain_fifo room buf) (λ r.
      Observes-if (not (r.1 == room))
        (λ _. Observes-after Observes-deadline_start (λ d'. more r.1 r.0 d'))
        (λ _. Observes-after Observes-poll_status (λ _. Observes-bind Observes-chip (λ c.
          Observes-if (has c.isr1 hr_end)
            (λ seen.
              Observes-after (Observes-drain_fifo r.1 r.0)
                (λ last. Observes-pure reported (ok, last.0, true) (λ _. seen)))
            (λ unseen. Observes-known unseen (
              Observes-after (Observes-deadline_expired d) (λ late.
                Observes-if late (λ _. Observes-silent reported (etimeout, r.0, false) refl)
                  (λ _. Observes-after Observes-yield (λ _. more r.1 r.0 d)))))))))

  Observes-read_loop :
      (rounds room : ℕ) (buf : List ℕ) (d : Deadline)
      → Observes false reported (read_loop rounds room buf d)
  unfolding read_loop out_of_rounds
  Observes-read_loop zero room buf d = record { at = λ w i. tt }
  Observes-read_loop (suc rounds) zero buf d = Observes-silent reported _ refl
  Observes-read_loop (suc rounds) (suc room) buf d =
      Observes-read_round (suc room) buf d _ (Observes-read_loop rounds)

  -- No END is accumulated at the GO command.
  start_in-Witnessed :
      (cap : ℕ) (w : World) {u : World}
      → w.chip.isr1 < 256
      → start_in cap w ≡ done tt u
      → Witnessed false u
  unfolding start_in
  start_in-Witnessed cap w h e = grind (arith, or_bytes, clear_byte)

  -- The code, the buffer and whether END is reported, after the loop.
  Observes-rest :
      (cap : ℕ) (r : Status × List ℕ × Bool)
      → Observes r.2 reported (
          late_end (if length r.1 == cap then not r.2 else false) >>= λ late.
          finish_in r.0 >>= λ _. pure (r.0, r.1, if late then true else r.2))
  Observes-rest cap r =
      Observes-bind (Observes-late_end (if length r.1 == cap then not r.2 else false)) (λ late.
        Observes-after (Observes-finish_in r.0) (λ _.
          Observes-pure reported (r.0, r.1, if late then true else r.2) (λ e. ground (arith, e))))

  Observes-after_start :
      (rounds cap : ℕ)
      → Observes false reported (
          deadline_start >>= λ d. read_loop rounds cap [] d >>= λ (r : Status × List ℕ × Bool).
          late_end (if length r.1 == cap then not r.2 else false) >>= λ late.
          finish_in r.0 >>= λ _. pure (r.0, r.1, if late then true else r.2))
  Observes-after_start rounds cap =
      Observes-after Observes-deadline_start
        (λ d. Observes-bind (Observes-read_loop rounds cap [] d) (λ r. Observes-rest cap r))

  -- A read that reports END has seen it since its GO command.
  pub read-seen_end :
      (rounds cap : ℕ) (w : World) {w' : World} {r : Status × List ℕ × Bool}
      → w.chip.isr1 < 256
      → read rounds cap w ≡ done r w'
      → r.2 ≡ true
      → seen_end w'.log ≡ true
  unfolding read pure
  read-seen_end rounds cap w {w'} {r} h e t = elim (Bool-cases (cap == 0)) [
    | inl none ↦ absurd (ground (arith, rw none at e, t))
    | inr some' ↦ elim (Bool-cases (ltb tnt_max_transfer cap)) [
      | inl long ↦ absurd (ground (arith, rw (some', long) at e, t))
      | inr fits ↦
          let (a, u, started, last) =
            and_then-eq-done (start_in cap w)
              (λ _. deadline_start >>= λ d.
                read_loop rounds cap [] d >>= λ (x : Status × List ℕ × Bool).
                late_end (if length x.1 == cap then not x.2 else false) >>= λ late.
                finish_in x.0 >>= λ _. pure (x.0, x.1, if late then true else x.2))
              (rw (some', fits) at e) in
          let z : Holds (λ x. Witnessed (false || x.2)) (done r w') =
            subst (Holds (λ x. Witnessed (false || x.2))) last
              ((Observes-after_start rounds cap).at u (start_in-Witnessed cap w h started)) in
          z.2 t
    ]
  ]

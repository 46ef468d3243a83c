-- ===== src/Chip/Transfer/Received.antt =====
-- What `tnt_read` returns.
use jornada_gpib.Prelude.{
  ℕ, zero, suc, ◌+◌, ◌≤◌, ◌<◌, ◌≡◌, refl, ◌⊎◌, inl, inr, Bool, true, false, not, ◌==◌, ltb, has,
  if◌then◌else◌, List, [], ◌∷◌, ◌++◌, length, length-append, arith,
}
use jornada_gpib.Chip.Io.{done, World, Io, M, chip, rd, yield}
use jornada_gpib.Chip.Status.{Status, ok, etimeout, einval}
use jornada_gpib.Chip.Reg
use jornada_gpib.Chip.Bits.{tnt_befn, hr_end, tnt_max_transfer}
use jornada_gpib.Chip.Results.{
  Yields-done, Yields, Yields-bind, Yields-after, Yields-pure, Yields-out_of_rounds, Yields-if,
}
use jornada_gpib.Chip.Transfer.{
  late_end, finish_in, poll_status, start_in, drain_fifo, drain_round, read_loop, read_round, read,
}
use jornada_gpib.Chip.Transfer.Ended.{seen_end}
use jornada_gpib.Chip.Transfer.Ended.Read.{read-seen_end}
use jornada_gpib.Chip.Deadline.{deadline_expired, deadline_start, Deadline}

-- What is returned: at most `cap` bytes, and END reported or all of them on OK.
pub record Outcome (cap : ℕ) (r : Status × List ℕ × Bool) : Type 0 where
  pub fits : length r.1 ≤ cap
  pub complete : r.0 ≡ ok → (r.2 ≡ true) ⊎ (length r.1 ≡ cap)
  pub code : (r.0 ≡ ok) ⊎ (r.0 ≡ etimeout) ⊎ ((r.0 ≡ einval) × (ltb tnt_max_transfer cap ≡ true))

-- At most `cap` bytes; on OK the chip showed END since the GO command, or all of them came; END is
-- reported only if the chip showed it; the other codes are ETIMEOUT and, for more than the chip can
-- count, EINVAL.
pub record IsReceived (cap : ℕ) (r : Status × List ℕ × Bool) (w' : World) : Type 0 where
  pub fits : length r.1 ≤ cap
  pub complete : r.0 ≡ ok → (seen_end w'.log ≡ true) ⊎ (length r.1 ≡ cap)
  pub ended : r.2 ≡ true → seen_end w'.log ≡ true
  pub code : (r.0 ≡ ok) ⊎ (r.0 ≡ etimeout) ⊎ ((r.0 ≡ einval) × (ltb tnt_max_transfer cap ≡ true))

module _ ⦃io : Io⦄ where
  drain_fifo-room :
      (room n : ℕ) (buf : List ℕ)
      → length buf + room ≡ n
      → Yields (λ r. length r.0 + r.1 ≡ n) (drain_fifo room buf)
  unfolding drain_fifo drain_round
  drain_fifo-room zero n buf h = Yields-pure _ h
  drain_fifo-room (suc room) n buf h = Yields-after (rd Reg.sts2) _ (λ v.
      Yields-if (has v tnt_befn) _ _
        (λ _.
          Yields-after (rd Reg.fifob) _ (λ b.
            drain_fifo-room room n (buf ++ b ∷ []) (omega (arith, length-append buf (b ∷ [])))))
        (λ _. Yields-pure _ h))

  received : (cap : ℕ) (buf : List ℕ) → length buf ≤ cap → Outcome cap (ok, buf, true)
  received cap buf h = record { fits = h; complete = λ e. inl refl; code = inl refl }

  timed_out : (cap : ℕ) (buf : List ℕ) → length buf ≤ cap → Outcome cap (etimeout, buf, false)
  timed_out cap buf h = record {
    fits = h;
    complete = λ e. absurd (ground (arith, e));
    code = inr (inl refl);
  }

  read_round-Outcome :
      (cap room : ℕ) (buf : List ℕ) (d : Deadline)
      (again : ℕ → List ℕ → Deadline → M (Status × List ℕ × Bool))
      → length buf + room ≡ cap
      → ((left : ℕ) (b : List ℕ) (e : Deadline)
          → length b + left ≡ cap
          → Yields (Outcome cap) (again left b e))
      → Yields (Outcome cap) (read_round room buf d again)
  unfolding read_round
  read_round-Outcome cap room buf d again h more =
      Yields-bind (drain_fifo room buf) _ (drain_fifo-room room cap buf h) (λ r drained.
        Yields-if (not (r.1 == room)) _ _
          (λ _. Yields-after deadline_start _ (λ d'. more r.1 r.0 d' drained))
          (λ _. Yields-after poll_status _ (λ _. Yields-after chip _ (λ c.
            Yields-if (has c.isr1 hr_end) _ _
              (λ _.
                Yields-bind (drain_fifo r.1 r.0) _ (drain_fifo-room r.1 cap r.0 drained)
                  (λ last k. Yields-pure _ (received cap last.0 (omega arith))))
              (λ _. Yields-after (deadline_expired d) _ (λ late.
                Yields-if late _ _ (λ _. Yields-pure _ (timed_out cap r.0 (omega arith)))
                  (λ _. Yields-after yield _ (λ _. more r.1 r.0 d drained))))))))

  read_loop-Outcome :
      (rounds cap room : ℕ) (buf : List ℕ) (d : Deadline)
      → length buf + room ≡ cap
      → Yields (Outcome cap) (read_loop rounds room buf d)
  unfolding read_loop
  read_loop-Outcome zero cap room buf d h = Yields-out_of_rounds
  read_loop-Outcome (suc rounds) cap zero buf d h =
      Yields-pure _
        (record { fits = omega arith; complete = λ e. inr (omega arith); code = inl refl })
  read_loop-Outcome (suc rounds) cap (suc room) buf d h =
      read_round-Outcome cap (suc room) buf d _ h
        (λ left b e k. read_loop-Outcome rounds cap left b e k)

  -- END that comes with the last byte is reported too.
  with_late :
      (cap : ℕ) (rc : Status) (buf : List ℕ) (end late : Bool)
      → Outcome cap (rc, buf, end)
      → Outcome cap (rc, buf, if late then true else end)
  with_late cap rc buf end true r = record {
    fits = r.fits;
    complete = λ e. inl refl;
    code = r.code;
  }
  with_late cap rc buf end false r = r

  pub Yields-read : (rounds cap : ℕ) → Yields (Outcome cap) (read rounds cap)
  unfolding read
  Yields-read rounds cap =
      Yields-if (cap == 0) _ _
        (λ e.
          Yields-pure _ (record {
            fits = omega arith;
            complete = λ k. inr (ground (arith, e));
            code = inl refl;
          }))
        (λ _.
          Yields-if (ltb tnt_max_transfer cap) _ _
            (λ e. Yields-pure _ (record {
              fits = omega arith;
              complete = λ k. absurd (ground (arith, k));
              code = inr (inr (refl, e));
            }))
            (λ _. Yields-after (start_in cap) _ (λ _. Yields-after deadline_start _ (λ d.
              Yields-bind (read_loop rounds cap [] d) _
                (read_loop-Outcome rounds cap cap [] d (omega arith))
                (λ r got.
                  Yields-after (late_end (if length r.1 == cap then not r.2 else false)) _ (λ late.
                    Yields-after (finish_in r.0) _
                      (λ _. Yields-pure _ (with_late cap r.0 r.1 r.2 late got))))))))

  -- Where `tnt_read` returns, from a chip structure whose `isr1` is a byte: the buffer holds at most
  -- `cap` bytes; OK means that a read of ISR1 after the GO command showed END, or that `cap` bytes
  -- came; END is reported only if such a read showed it; the other codes are ETIMEOUT and, for more
  -- than the chip can count, EINVAL.
  pub read-IsReceived :
      (rounds cap : ℕ) (w : World) {w' : World} {r : Status × List ℕ × Bool}
      → w.chip.isr1 < 256
      → read rounds cap w ≡ done r w'
      → IsReceived cap r w'
  read-IsReceived rounds cap w h e =
      let o = Yields-done (Yields-read rounds cap) e in
      let seen = read-seen_end rounds cap w h e in
      record {
        fits = o.fits;
        complete = λ k. elim (o.complete k) [ inl t ↦ inl (seen t) | inr full ↦ inr full ];
        ended = seen;
        code = o.code;
      }

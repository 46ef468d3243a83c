-- ===== src/Chip/Deadline/Elapsed.antt =====
-- The deadlines against the time that went by, which the 32-bit clock shows only up to its wrap.
use jornada_gpib.Prelude.{
  ℕ, ◌+◌, ◌-◌, ◌%◌, ◌^◌, ◌<◌, ◌≤◌, ◌≡◌, refl, true, false, not, ◌&&◌, ◌==◌, leb, Bool-cases, arith,
  inl, inr, ◌∷◌,
}
use jornada_gpib.Chip.Io.{Io, ticked, World, done}
use jornada_gpib.Chip.Deadline.{Deadline, reached, deadline_start, deadline_expired}

-- The clock's differences are right across its wrap, up to half of its range.
reached-late :
    (start timeout elapsed : ℕ)
    → timeout < 2147483648
    → elapsed < 2147483648
    → timeout ≤ elapsed
    → reached ((start + elapsed) % 4294967296) ((start % 4294967296 + timeout) % 4294967296) ≡ true
reached-late start timeout elapsed h k l = ground (arith, value)
  where
    value :
        ((start + elapsed) % 4294967296 + 4294967296 - (start % 4294967296 + timeout) % 4294967296)
          % 4294967296
        < 2147483648
    value = omega arith

reached-early :
    (start timeout elapsed : ℕ)
    → timeout < 2147483648
    → elapsed < timeout
    → reached ((start + elapsed) % 4294967296) ((start % 4294967296 + timeout) % 4294967296) ≡ false
reached-early start timeout elapsed h l = ground (arith, value)
  where
    value :
        2147483648
        ≤ ((start + elapsed) % 4294967296
            + 4294967296
            - (start % 4294967296 + timeout) % 4294967296)
          % 4294967296
    value = omega arith

module _ ⦃io : Io⦄ where
  -- A deadline that is started in one state and looked at in another, `elapsed` milliseconds later by
  -- a clock that need not be below its wrap: it has expired exactly if a timeout is set and at least
  -- that time went by. Both the timeout and the time are below 2 ^ 31 milliseconds.
  pub deadline_expired-elapsed :
      (w u : World) (elapsed : ℕ)
      → w.chip.timeout_ms < 2147483648
      → elapsed < 2147483648
      → io.now_ms u.log ≡ io.now_ms w.log + elapsed
      → (d : Deadline) × (w' : World) × (u' : World) × (deadline_start w ≡ done d w')
        × (deadline_expired d u
            ≡ done (not (w.chip.timeout_ms == 0) && leb w.chip.timeout_ms elapsed) u')
  unfolding deadline_start deadline_expired
  deadline_expired-elapsed w u elapsed h k e =
      let t = io.now_ms w.log in
      let timeout = w.chip.timeout_ms in
      let d : Deadline = record {
        at = (t % 2 ^ 32 + timeout) % 2 ^ 32;
        enabled = not (timeout == 0);
      } in
      let w' : World = record w { log = ticked (t % 2 ^ 32) ∷ w.log } in
      let u' : World = record u { log = ticked (io.now_ms u.log % 2 ^ 32) ∷ u.log } in
      elim (Bool-cases (timeout == 0)) [
        | inl off ↦ (d, w', u, refl, rw off refl)
        | inr on ↦ elim (Bool-cases (leb timeout elapsed)) [
          | inl late ↦
              let now = reached-late t timeout elapsed h k (ground (arith, late)) in
              (d, w', u', refl, rw (on, late, e, now) refl)
          | inr early ↦
              let now = reached-early t timeout elapsed h (ground (arith, early)) in
              (d, w', u', refl, rw (on, early, e, now) refl)
        ]
      ]

-- ===== src/Driver/Stream.antt =====
-- Reading and writing a stream of src/gpib/drv_ce.c, to the device that IOCTL_GPIB_SET_DEVICE set.
use jornada_gpib.Prelude.{
  ℕ, ◌≤◌, ◌≡◌, Bool, true, if◌then◌else◌, List, [], length, Option, none, some, is_neg, arith,
}
use jornada_gpib.Chip.Io.{Io, World, M, done, ◌>>=◌, pure}
use jornada_gpib.Chip.Status.{Status}
use jornada_gpib.Chip.Results.{Yields, Yields-bind, Yields-pure, Yields-if, Yields-done}
use jornada_gpib.Controller.Ops
use jornada_gpib.Driver.State.{Open, is_ready}
use jornada_gpib.Driver.Ready.{in_charge}
use jornada_gpib.Driver.Safety.{Yields-in_charge, Yields-read_from}

-- What is returned, none for -1, and the bytes in the buffer.
abbrev pub nothing_read : Option ℕ × List ℕ
nothing_read = (none, [])

-- The bytes are no more than asked for, and the number that is returned is theirs.
Counted : ℕ → Option ℕ × List ℕ → Type 0
Counted count r = (length r.1 ≤ count) × ((n : ℕ) → r.0 ≡ some n → n ≡ length r.1)

nothing-Counted : (count : ℕ) → Counted count nothing_read
unfolding Counted
nothing-Counted count = (omega arith, λ n e. absurd (ground (arith, e)))

some-Counted :
    (count : ℕ) (b : Bool) (buf : List ℕ)
    → length buf ≤ count
    → Counted count (if b then some (length buf) else none, buf)
unfolding Counted
some-Counted count b buf h = (h, λ n e. ground (arith, e))

module _ ⦃io : Io⦄ (rounds : ℕ) where
  unfoldable pub read_current : Open → ℕ → M (Status × List ℕ)
  unfolding pure Ops.read
  read_current o count = do
    (rc, buf, end) ← Ops.read rounds o.current_pad o.current_sad count
    pure (rc, buf)

  unfoldable pub gpb_read : Option Open → ℕ → M (Option ℕ × List ℕ)
  unfolding pure in_charge read_current
  gpb_read none count = pure nothing_read
  gpb_read (some o) count = if is_neg o.current_pad then pure nothing_read else do
    (rc, buf) ← in_charge rounds o.dev [] (read_current o count)
    pure (if is_ready rc then some (length buf) else none, buf)

  unfoldable pub gpb_write : Option Open → List ℕ → M (Option ℕ)
  unfolding pure in_charge Ops.write
  gpb_write none buf = pure none
  gpb_write (some o) buf = if is_neg o.current_pad then pure none else do
    (rc, sent) ← in_charge rounds o.dev 0 (Ops.write rounds o.current_pad o.current_sad buf true)
    pure (if is_ready rc then some sent else none)

  Yields-read_current :
      (o : Open) (count : ℕ) → Yields (λ r. length r.1 ≤ count) (read_current o count)
  unfolding read_current
  Yields-read_current o count =
      Yields-bind _ _ (Yields-read_from rounds o.current_pad o.current_sad count)
        (λ r h. Yields-pure (r.0, r.1) h)

  Yields-gpb_read : (o : Option Open) (count : ℕ) → Yields (Counted count) (gpb_read o count)
  unfolding gpb_read
  Yields-gpb_read none count = Yields-pure _ (nothing-Counted count)
  Yields-gpb_read (some o) count =
      Yields-if (is_neg o.current_pad) _ _ (λ _. Yields-pure _ (nothing-Counted count))
        (λ _.
          Yields-bind _ _
            (Yields-in_charge rounds (λ buf. length buf ≤ count) o.dev [] (read_current o count)
              (omega arith) (Yields-read_current o count))
            (λ r h. Yields-pure _ (some-Counted count (is_ready r.0) r.1 h)))

  -- `GPB_Read` stores at most `count` bytes, and where it does not return -1, it returns their
  -- number.
  pub gpb_read-Counted :
      (o : Option Open) (count : ℕ) (w : World) {w' : World} {r : Option ℕ × List ℕ}
      → gpb_read o count w ≡ done r w'
      → (length r.1 ≤ count) × ((n : ℕ) → r.0 ≡ some n → n ≡ length r.1)
  unfolding Counted
  gpb_read-Counted o count w e = Yields-done (Yields-gpb_read o count) e

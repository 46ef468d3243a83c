-- ===== src/Chip/Transfer/Output.antt =====
-- What `tnt_transfer_out` puts into the FIFO, and the codes it returns.
use jornada_gpib.Prelude.{
  ℕ, zero, suc, ◌+◌, ◌≤◌, ◌≡◌, refl, ◌∙◌, sym, ap, ◌⊎◌, inl, inr, Bool, true, not, ◌==◌,
  if◌then◌else◌, Bool-cases, Option, none, some, List, [], ◌∷◌, ◌++◌, map, length, take,
  append_assoc, append-nil, u8, has, arith,
}
use jornada_gpib.Chip.Io.{
  Io, saw, wrote, History, World, done, M, and_then, ◌>>◌, pure, unless_stopped, and_then-eq-done,
  yield,
}
use jornada_gpib.Chip.Status.{Status, ok, etimeout, enolistener}
use jornada_gpib.Chip.Reg
use jornada_gpib.Chip.Bits.{tnt_bffn}
use jornada_gpib.Chip.Deadline.{Deadline, deadline_start}
use jornada_gpib.Chip.Transfer.{out_stalled, fill_round, fill_fifo}

-- The bytes written to the FIFO, oldest first.
abbrev pub fifo_out : History → List ℕ
fifo_out [] = []
fifo_out (wrote off v ∷ h) = if off == Reg.fifob then fifo_out h ++ v ∷ [] else fifo_out h
fifo_out (e ∷ h) = fifo_out h

-- No byte went to the FIFO, and the timeout is the same.
pub record Quiet (w w' : World) : Type 0 where
  pub bytes : fifo_out w'.log ≡ fifo_out w.log
  pub timeout : w'.chip.timeout_ms ≡ w.chip.timeout_ms

-- The codes with which a transfer may stop early; a timeout needs a deadline.
abbrev pub Stops : Bool → Status → Type 0
Stops enabled rc = (rc ≡ enolistener) ⊎ ((rc ≡ etimeout) × (enabled ≡ true))

module _ ⦃io : Io⦄ where
  pub out_stalled-Quiet :
      (d : Deadline) (w : World) {stop : Option Status} {w' : World}
      → out_stalled d w ≡ done stop w'
      → Quiet w w'
  unfolding out_stalled
  out_stalled-Quiet d w e = ground arith

  pub out_stalled-Stops :
      (d : Deadline) (w : World) {rc : Status} {w' : World}
      → out_stalled d w ≡ done (some rc) w'
      → Stops d.enabled rc
  unfolding out_stalled
  out_stalled-Stops d w e = ground arith

-- How one round of the queueing loop goes on: with the byte queued, stopped, or once more.
data Round (b queued : ℕ) (d : Deadline) (filled : Deadline → M (Status × ℕ × Deadline))
    (again : M (Status × ℕ × Deadline)) (w : World) (r : Status × ℕ × Deadline) (w' : World)
    : Type 0 where
  fed :
      (d' : Deadline) (u : World)
      → filled d' u ≡ done r w'
      → fifo_out u.log ≡ fifo_out w.log ++ u8 b ∷ []
      → u.chip.timeout_ms ≡ w.chip.timeout_ms
      → d'.enabled ≡ not (w.chip.timeout_ms == 0)
      → Round b queued d filled again w r w'
  stopped :
      (rc : Status)
      → r ≡ (rc, queued, d)
      → Stops d.enabled rc
      → Quiet w w'
      → Round b queued d filled again w r w'
  retried : (u : World) → again u ≡ done r w' → Quiet w u → Round b queued d filled again w r w'

module _ ⦃io : Io⦄ where
  after_stall :
      (b queued : ℕ) (d : Deadline) (filled : Deadline → M (Status × ℕ × Deadline))
      (again : M (Status × ℕ × Deadline)) (w u : World) (stop : Option Status) {v : World}
      {r : Status × ℕ × Deadline} {w' : World}
      → Quiet w u
      → out_stalled d u ≡ done stop v
      → unless_stopped stop (λ rc. pure (rc, queued, d)) (yield >> again) v ≡ done r w'
      → Round b queued d filled again w r w'
  unfolding pure yield
  after_stall b queued d filled again w u (some rc) q s e =
      let q' = out_stalled-Quiet d u s in stopped rc (cc) (out_stalled-Stops d u s) (ground arith)
  after_stall b queued d filled again w u none q s e =
      let q' = out_stalled-Quiet d u s in retried _ e (ground arith)

  fill_round-Round :
      (b queued : ℕ) (d : Deadline) (filled : Deadline → M (Status × ℕ × Deadline))
      (again : M (Status × ℕ × Deadline)) (w : World) {r : Status × ℕ × Deadline} {w' : World}
      → fill_round b queued d filled again w ≡ done r w'
      → Round b queued d filled again w r w'
  unfolding fill_round deadline_start
  fill_round-Round b queued d filled again w {r} {w'} e =
      elim (Bool-cases (has (u8 (io.read8 w.log Reg.sts2)) tnt_bffn)) [
        | inl ready ↦ fed _ _ (rw ready at e) refl refl refl
        | inr full ↦
            let u : World = record w {
              log = saw Reg.sts2 (u8 (io.read8 w.log Reg.sts2)) ∷ w.log;
            } in
            let e' : and_then (out_stalled d u)
                  (λ stop. unless_stopped stop (λ rc. pure (rc, queued, d)) (yield >> again))
                ≡ done r w' =
              rw full at e in
            let (stop, v, s, last) =
              and_then-eq-done (out_stalled d u)
                (λ stop. unless_stopped stop (λ rc. pure (rc, queued, d)) (yield >> again)) e' in
            after_stall b queued d filled again w u stop (record { bytes = refl; timeout = refl }) s
              last
      ]

-- What the queueing loop has done when it returns: `k` of the bytes `rest` are in the FIFO.
pub record Filled (rest : List ℕ) (queued : ℕ) (w : World) (r : Status × ℕ × Deadline) (w' : World)
    : Type 0 where
  pub k : ℕ
  pub within : k ≤ length rest
  pub count : r.1 ≡ queued + k
  pub bytes : fifo_out w'.log ≡ fifo_out w.log ++ map u8 (take k rest)
  pub complete : r.0 ≡ ok → k ≡ length rest
  pub code : (r.0 ≡ ok) ⊎ Stops (not (w.chip.timeout_ms == 0)) r.0
  pub enabled : r.2.enabled ≡ not (w.chip.timeout_ms == 0)
  pub timeout : w'.chip.timeout_ms ≡ w.chip.timeout_ms

Filled-cons :
    (b queued : ℕ) (rest : List ℕ) (w u : World) (r : Status × ℕ × Deadline) {w' : World}
    → fifo_out u.log ≡ fifo_out w.log ++ u8 b ∷ []
    → u.chip.timeout_ms ≡ w.chip.timeout_ms
    → Filled rest (queued + 1) u r w'
    → Filled (b ∷ rest) queued w r w'
Filled-cons b queued rest w u r bytes same f = record {
  k = suc f.k;
  within = omega (arith, f.within);
  count = omega (arith, f.count);
  bytes =
      f.bytes
      ∙ ap (λ l. l ++ map u8 (take f.k rest)) bytes
      ∙ append_assoc (fifo_out w.log) (u8 b ∷ []) _;
  complete = λ e. ap suc (f.complete e);
  code = rw same at f.code;
  enabled = rw same at f.enabled;
  timeout = f.timeout ∙ same;
}

Filled-none :
    (queued : ℕ) (rest : List ℕ) (w : World) (r : Status × ℕ × Deadline) {w' : World}
    → Quiet w w'
    → r.1 ≡ queued
    → (r.0 ≡ ok → rest ≡ [])
    → (r.0 ≡ ok) ⊎ Stops (not (w.chip.timeout_ms == 0)) r.0
    → r.2.enabled ≡ not (w.chip.timeout_ms == 0)
    → Filled rest queued w r w'
Filled-none queued rest w r q count empty code enabled = record {
  k = 0;
  within = omega arith;
  count = omega (arith, count);
  bytes = q.bytes ∙ sym (append-nil _);
  complete = λ e. ap length (sym (empty e));
  code = code;
  enabled = enabled;
  timeout = q.timeout;
}

Filled-again :
    (queued : ℕ) (rest : List ℕ) (w u : World) (r : Status × ℕ × Deadline) {w' : World}
    → Quiet w u
    → Filled rest queued u r w'
    → Filled rest queued w r w'
Filled-again queued rest w u r q f = record {
  k = f.k;
  within = f.within;
  count = f.count;
  bytes = f.bytes ∙ ap (λ l. l ++ map u8 (take f.k rest)) q.bytes;
  complete = f.complete;
  code = rw q.timeout at f.code;
  enabled = rw q.timeout at f.enabled;
  timeout = f.timeout ∙ q.timeout;
}

module _ ⦃io : Io⦄ where
  pub fill_fifo-Filled :
      (rounds : ℕ) (rest : List ℕ) (queued : ℕ) (d : Deadline) (w : World)
      {r : Status × ℕ × Deadline} {w' : World}
      → d.enabled ≡ not (w.chip.timeout_ms == 0)
      → fill_fifo rounds rest queued d w ≡ done r w'
      → Filled rest queued w r w'
  unfolding fill_fifo
  fill_fifo-Filled zero rest queued d w h e = cc
  fill_fifo-Filled (suc rounds) [] queued d w {r} h e =
      Filled-none queued [] w r (ground arith) (ground arith) (λ _. refl) (ground arith)
        (ground arith)
  fill_fifo-Filled (suc rounds) (b ∷ rest) queued d w {r} h e =
      elim (fill_round-Round b queued d _ _ w e) [
        | fed d' u f bytes same on ↦
            Filled-cons b queued rest w u r bytes same
              (fill_fifo-Filled rounds rest (queued + 1) d' u (ground arith) f)
        | stopped rc is code q ↦
            Filled-none queued (b ∷ rest) w r q (ground arith) (ground arith) (ground arith)
              (ground arith)
        | retried u f q ↦
            Filled-again queued (b ∷ rest) w u r q
              (fill_fifo-Filled rounds (b ∷ rest) queued d u (ground (arith, q.timeout)) f)
      ]

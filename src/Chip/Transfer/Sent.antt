-- ===== src/Chip/Transfer/Sent.antt =====
-- The whole of `tnt_transfer_out`: what it queues, what it returns.
use jornada_gpib.Prelude.{
  ℕ, zero, suc, ◌+◌, ◌%◌, ◌^◌, ◌≤◌, ◌<◌, ◌≡◌, refl, ◌∙◌, sym, ap, subst, ◌⊎◌, inl, inr, Bool, not,
  ◌==◌, ltb, if◌then◌else◌, Bool-cases, Option, none, some, List, ◌∷◌, ◌++◌, map, length, take,
  append-nil, u8, has, arith,
}
use jornada_gpib.Chip.Io.{
  Io, saw, ticked, yielded, World, Run, done, M, and_then, ◌>>=◌, ◌>>◌, pure, unless_stopped,
  and_then-eq-done, yield,
}
use jornada_gpib.Chip.Status.{Status, ok, einval, is_ok}
use jornada_gpib.Chip.Reg
use jornada_gpib.Chip.Bits.{tnt_s_done, tnt_max_transfer}
use jornada_gpib.Chip.Deadline.{Deadline, deadline_start}
use jornada_gpib.Chip.Protocol.Rules.{Holds}
use jornada_gpib.Chip.Transfer.{
  out_stalled, fill_fifo, done_round, wait_done, start_out, finish_out, transfer_out,
}
use jornada_gpib.Chip.Transfer.Output.{
  fifo_out, Quiet, Stops, Filled, out_stalled-Quiet, out_stalled-Stops, fill_fifo-Filled,
}

Quiet-trans : {u v w : World} → Quiet u v → Quiet v w → Quiet u w
Quiet-trans p q = record { bytes = q.bytes ∙ p.bytes; timeout = q.timeout ∙ p.timeout }

-- The wait for DONE writes nothing to the FIFO, and ends with OK or with a code to stop.
record Waited (enabled : Bool) (w : World) (rc : Status) (w' : World) : Type 0 where
  quiet : Quiet w w'
  code : (rc ≡ ok) ⊎ Stops enabled rc

module _ ⦃io : Io⦄ where
  wait_stall :
      (d : Deadline) (again : M Status) (w u : World) (stop : Option Status) {v : World}
      {rc : Status} {w' : World}
      → Quiet w u
      → out_stalled d u ≡ done stop v
      → unless_stopped stop pure (yield >> again) v ≡ done rc w'
      → ((x : World) → again x ≡ done rc w' → Waited d.enabled x rc w')
      → Waited d.enabled w rc w'
  unfolding pure yield
  wait_stall d again w u (some c) q s e ih =
      let q' = out_stalled-Quiet d u s in
      let stops = out_stalled-Stops d u s in
      record { quiet = ground arith; code = inr (ground arith) }
  wait_stall d again w u none {v} q s e ih =
      let q' = out_stalled-Quiet d u s in
      let rest = ih (record v { log = yielded ∷ v.log }) e in
      record {
        quiet =
            Quiet-trans (Quiet-trans q q')
              (Quiet-trans (record { bytes = refl; timeout = refl }) rest.quiet);
        code = rest.code;
      }

  wait_done-Waited :
      (rounds : ℕ) (d : Deadline) (w : World) {rc : Status} {w' : World}
      → wait_done rounds d w ≡ done rc w'
      → Waited d.enabled w rc w'
  unfolding wait_done done_round pure
  wait_done-Waited zero d w e = cc
  wait_done-Waited (suc rounds) d w {rc} {w'} e =
      elim (Bool-cases (has (u8 (io.read8 w.log Reg.sts1)) tnt_s_done)) [
        | inl seen ↦
            let e' : done ok _ ≡ done rc w' = rw seen at e in
            record { quiet = ground arith; code = inl (cc) }
        | inr open' ↦
            let u : World = record w {
              log = saw Reg.sts1 (u8 (io.read8 w.log Reg.sts1)) ∷ w.log;
            } in
            let e' : and_then (out_stalled d u)
                  (λ stop. unless_stopped stop pure (yield >> wait_done rounds d))
                ≡ done rc w' =
              rw open' at e in
            let (stop, v, s, last) =
              and_then-eq-done (out_stalled d u)
                (λ stop. unless_stopped stop pure (yield >> wait_done rounds d)) e' in
            wait_stall d (wait_done rounds d) w u stop (record { bytes = refl; timeout = refl }) s
              last (λ x. wait_done-Waited rounds d x)
      ]

  start_out-Quiet :
      (n flags : ℕ) (w : World) {w' : World} → start_out n flags w ≡ done tt w' → Quiet w w'
  unfolding start_out
  start_out-Quiet n flags w e = ground arith

  finish_out_lem :
      (n queued : ℕ) (rc : Status) (w : World) {rc' : Status} {sent : ℕ} {w' : World}
      → finish_out n queued rc w ≡ done (rc', sent) w'
      → queued ≤ n
      → Quiet w w' × (rc' ≡ rc) × (sent ≤ n)
  unfolding finish_out
  finish_out_lem n queued rc w e h = (ground arith, ground arith, ground arith)

-- The outcome of an output transfer of `buf`: `queued` bytes of it are in the FIFO.
pub record Sent (buf : List ℕ) (w : World) (rc : Status) (sent : ℕ) (w' : World) : Type 0 where
  pub queued : ℕ
  pub within : queued ≤ length buf
  pub bytes : fifo_out w'.log ≡ fifo_out w.log ++ map u8 (take queued buf)
  pub complete : rc ≡ ok → queued ≡ length buf
  pub few : sent ≤ length buf
  pub code :
      (rc ≡ ok)
      ⊎ ((rc ≡ einval) × (tnt_max_transfer < length buf) × (w' ≡ w))
      ⊎ Stops (not (w.chip.timeout_ms == 0)) rc

-- The outcome if nothing was tried.
Sent-idle :
    (buf : List ℕ) (w : World) (rc : Status)
    → (rc ≡ ok → length buf ≡ 0)
    → (rc ≡ ok) ⊎ ((rc ≡ einval) × (tnt_max_transfer < length buf))
    → Sent buf w rc 0 w
Sent-idle buf w rc empty code = record {
  queued = 0;
  within = omega arith;
  bytes = sym (append-nil _);
  complete = λ e. sym (empty e);
  few = omega arith;
  code = elim code [ inl o ↦ inl o | inr (o, h) ↦ inr (inl (o, h, refl)) ];
}

Sent-tried :
    (buf : List ℕ) {w u : World} {f : Status × ℕ × Deadline} {v : World} {rc : Status} {x : World}
    {rc' : Status} {sent : ℕ} {w' : World}
    → Quiet w u
    → Filled buf 0 u f v
    → Quiet v x
    → (rc ≡ ok → f.0 ≡ ok)
    → (rc ≡ ok) ⊎ Stops (not (u.chip.timeout_ms == 0)) rc
    → Quiet x w' × (rc' ≡ rc) × (sent ≤ length buf)
    → Sent buf w rc' sent w'
Sent-tried buf {w} {u} {rc} q f r back code (z, same, few) = record {
  queued = f.k;
  within = f.within;
  bytes = z.bytes ∙ r.bytes ∙ f.bytes ∙ ap (λ l. l ++ map u8 (take f.k buf)) q.bytes;
  complete = λ e. f.complete (back (sym same ∙ e));
  few = few;
  code = elim (rw q.timeout at code) [
    | inl o ↦ inl (same ∙ o)
    | inr (inl s) ↦ inr (inr (inl (same ∙ s)))
    | inr (inr s) ↦ inr (inr (inr (same ∙ s.0, s.1)))
  ];
}

module _ ⦃io : Io⦄ where
  -- The wait for DONE, which runs only after a complete fill.
  after_fill :
      (rounds : ℕ) (buf : List ℕ) (f : Status × ℕ × Deadline) {w u v : World} {rc : Status}
      {sent : ℕ} {w' : World}
      → Quiet w u
      → Filled buf 0 u f v
      → ((if is_ok f.0 then wait_done rounds f.2 else pure f.0) >>= λ rc'.
            finish_out (length buf) f.1 rc')
          v
        ≡ done (rc, sent) w'
      → Sent buf w rc sent w'
  unfolding pure
  after_fill rounds buf (ok, k, d) {u} {v} q f e =
      let (rc', x, waited, last) =
        and_then-eq-done (wait_done rounds d v) (λ rc'. finish_out (length buf) k rc') e in
      let wait = wait_done-Waited rounds d v waited in
      Sent-tried buf q f wait.quiet (λ _. refl) (rw f.enabled at wait.code)
        (finish_out_lem (length buf) k rc' x last (ground (arith, f.count, f.within)))
  after_fill rounds buf (rc, k, d) {u} {v} q f e =
      Sent-tried buf q f (record { bytes = refl; timeout = refl }) (λ h. h) f.code
        (finish_out_lem (length buf) k rc v e (ground (arith, f.count, f.within)))

  after_start :
      (rounds : ℕ) (buf : List ℕ) (w u : World) {rc : Status} {sent : ℕ} {w' : World}
      → Quiet w u
      → (deadline_start >>= λ d. fill_fifo rounds buf 0 d >>= λ (f : Status × ℕ × Deadline).
            (if is_ok f.0 then wait_done rounds f.2 else pure f.0) >>= λ rc'.
            finish_out (length buf) f.1 rc')
          u
        ≡ done (rc, sent) w'
      → Sent buf w rc sent w'
  unfolding deadline_start
  after_start rounds buf w u q e =
      let t = io.now_ms u.log % 2 ^ 32 in
      let d : Deadline = record {
        at = (t + u.chip.timeout_ms) % 2 ^ 32;
        enabled = not (u.chip.timeout_ms == 0);
      } in
      let u' : World = record u { log = ticked t ∷ u.log } in
      let (f, v, fill, last) =
        and_then-eq-done (fill_fifo rounds buf 0 d u')
          (λ (f : Status × ℕ × Deadline).
            (if is_ok f.0 then wait_done rounds f.2 else pure f.0) >>= λ rc'.
            finish_out (length buf) f.1 rc')
          e in
      after_fill rounds buf f (Quiet-trans q (record { bytes = refl; timeout = refl }))
        (fill_fifo-Filled rounds buf 0 d u' refl fill) last

  -- When `tnt_transfer_out` returns, exactly the first `queued` bytes of the buffer were written to
  -- the FIFO, in order and once each; OK means all of them; the count returned is at most the
  -- buffer's length; EINVAL is for a buffer over the limit and touches nothing; the other codes are
  -- ENOLISTENER, and ETIMEOUT only if a timeout is set.
  pub transfer_out-Sent :
      (rounds : ℕ) (buf : List ℕ) (flags : ℕ) (w : World) {rc : Status} {sent : ℕ} {w' : World}
      → transfer_out rounds buf flags w ≡ done (rc, sent) w'
      → Sent buf w rc sent w'
  unfolding transfer_out pure deadline_start
  transfer_out-Sent rounds buf flags w {rc} {sent} {w'} e = elim (Bool-cases (length buf == 0)) [
    | inl empty ↦ outcome (rw empty at e) (Sent-idle buf w ok (λ _. ground arith) (inl refl))
    | inr some' ↦ elim (Bool-cases (ltb tnt_max_transfer (length buf))) [
      | inl long ↦
          outcome (rw (some', long) at e) (Sent-idle buf w einval (cc) (inr (refl, ground arith)))
      | inr fits ↦
          let (a, u, started, last) =
            and_then-eq-done (start_out (length buf) flags w)
              (λ _. deadline_start >>= λ d.
                fill_fifo rounds buf 0 d >>= λ (f : Status × ℕ × Deadline).
                (if is_ok f.0 then wait_done rounds f.2 else pure f.0) >>= λ rc'.
                finish_out (length buf) f.1 rc')
              (rw (some', fits) at e) in
          after_start rounds buf w u (start_out-Quiet (length buf) flags w started) last
    ]
  ]
    where
      outcome :
          {rc' : Status} {sent' : ℕ} {v : World}
          → ◌≡◌ {A = Run (Status × ℕ)} (done (rc', sent') v) (done (rc, sent) w')
          → Sent buf w rc' sent' v
          → Sent buf w rc sent w'
      outcome p = subst (Holds (λ (r : Status × ℕ). Sent buf w r.0 r.1)) p

-- ===== src/Controller/Poll.antt =====
-- The serial poll: how its two runs of command bytes go out.
use jornada_gpib.Prelude.{
  [], append_assoc, sym, not, append-nil, if◌then◌else◌, u8, refl, map, ℤ, arith, ◌++◌, ◌≡◌, List,
  ℕ,
}
use jornada_gpib.Chip.Protocol.Control.{Traced-go_to_standby}
use jornada_gpib.Chip.Io.{pure, ◌>>=◌, M, chip, World, Io}
use jornada_gpib.Chip.Status.{einval, is_ok, ok, Status}
use jornada_gpib.Controller.Ops.{serial_poll, end_poll, poll_device, keep_first, poll_byte}
use jornada_gpib.Controller.Delivers.{Delivers-code, Delivers-all, IsPrefix, Delivers}
use jornada_gpib.Controller.Emits.{Emits-if, Emits-pure, Emits-bind, Emits-after, Emits}
use jornada_gpib.Controller.Bytes.{valid_address, build_poll, poll_tail}
use jornada_gpib.Chip.Protocol.Transfer.{Traced-read}
use jornada_gpib.Controller.Traffic.{einval-fails, send_commands-Delivers, regain-Delivers}
use jornada_gpib.Chip.Control.{go_to_standby}
use jornada_gpib.Chip.Protocol.Control.{Traced-go_to_standby}
use jornada_gpib.Controller.Messages.{is_ok-true, not_ok-fails}

-- The bytes written are some of the poll sequence and then some of what ends it; OK means all of
-- both.
pub record Polled (poll tail : List ℕ) (rc : Status) (bs : List ℕ) : Type 0 where
  pub asked : List ℕ
  pub ended : List ℕ
  pub split : bs ≡ asked ++ ended
  pub asked_part : IsPrefix asked poll
  pub ended_part : IsPrefix ended tail
  pub whole : rc ≡ ok → (asked ≡ poll) × (ended ≡ tail)

keep_first-oks : (rc later : Status) → keep_first rc later ≡ ok → (rc ≡ ok) × (later ≡ ok)
keep_first-oks rc later e = (ground arith, ground arith)

Polled-none : (poll tail : List ℕ) (rc : Status) → (rc ≡ ok → ⊥) → Polled poll tail rc []
Polled-none poll tail rc f = record {
  asked = [];
  ended = [];
  split = refl;
  asked_part = (poll, refl);
  ended_part = (tail, refl);
  whole = λ e. absurd (f e);
}

Polled-end :
    (poll tail bs cs : List ℕ) (rc later : Status)
    → Delivers poll rc bs
    → Delivers tail later cs
    → Polled poll tail (keep_first rc later) (bs ++ cs)
Polled-end poll tail bs cs rc later d d' = record {
  asked = bs;
  ended = cs;
  split = refl;
  asked_part = d.part;
  ended_part = d'.part;
  whole = λ e. let (o, o') = keep_first-oks rc later e in (d.whole o, d'.whole o');
}

module _ ⦃io : Io⦄ where
  poll_byte-Delivers :
      (rounds : ℕ) (w : World) (xs bs : List ℕ)
      → bs ≡ xs
      → Emits w (poll_byte rounds) (λ r cs. Delivers xs r.0 (bs ++ cs))
  unfolding poll_byte
  poll_byte-Delivers rounds w xs bs e =
      Emits-after (Traced-read rounds 1)
        (λ r u. Emits-pure _ (rw (append-nil bs) (Delivers-all xs bs _ e)))

  poll_device-Delivers :
      (rounds : ℕ) (cmd : List ℕ) (w : World)
      → Emits w (poll_device rounds cmd) (λ r. Delivers (map u8 cmd) r.0)
  unfolding poll_device
  poll_device-Delivers rounds cmd w =
      let xs = map u8 cmd in
      let standby : Status → M (Status × ℕ) =
        λ rc'. if not (is_ok rc') then pure (rc', 0) else poll_byte rounds in
      Emits-bind
        {f = λ rc. if not (is_ok rc) then pure (rc, 0) else go_to_standby rounds >>= standby}
        (send_commands-Delivers rounds cmd w)
        (λ rc bs u d.
          Emits-if (not (is_ok rc)) (λ h. Emits-pure _ (rw (append-nil bs) d))
            (λ h. Emits-after {f = standby} (Traced-go_to_standby rounds) (λ rc' v.
              Emits-if (not (is_ok rc'))
                (λ h'.
                  Emits-pure _
                    (rw (append-nil bs) (Delivers-code xs bs rc rc' (not_ok-fails rc' h') d)))
                (λ _. poll_byte-Delivers rounds v xs bs (d.whole (is_ok-true rc h))))))

  end_poll-Polled :
      (rounds : ℕ) (poll bs : List ℕ) (rc : Status) (w : World)
      → Delivers poll rc bs
      → Emits w (end_poll rounds rc) (λ rc' cs. Polled poll poll_tail rc' (bs ++ cs))
  unfolding end_poll
  end_poll-Polled rounds poll bs rc w d =
      Emits-bind (regain-Delivers rounds rc w poll bs d) (λ rc' cs u d'.
        Emits-bind (send_commands-Delivers rounds poll_tail u) (λ later ds v d''. Emits-pure _ (
          rw (append-nil ds, sym (append_assoc bs cs ds))
            (Polled-end poll poll_tail (bs ++ cs) ds rc' later d' d''))))

  -- What `gpib_serial_poll` gives to the chip is a part of the poll sequence, all of it if the poll
  -- succeeds, and then SPD and UNT or a part of them, both if the poll succeeds.
  pub serial_poll-Polled :
      (rounds : ℕ) (pad sad : ℤ) (w : World)
      → Emits w
          (serial_poll rounds pad sad)
          (λ r. Polled (map u8 (build_poll w.chip pad sad)) poll_tail r.0)
  unfolding serial_poll chip
  serial_poll-Polled rounds pad sad w =
      Emits-if (not (valid_address pad sad))
        (λ _. Emits-pure _ (Polled-none _ poll_tail einval einval-fails))
        (λ _. record { out = (polled w).out })
    where
      polled :
          (u : World)
          → Emits u
              (poll_device rounds (build_poll w.chip pad sad) >>= λ (r : Status × ℕ).
                end_poll rounds r.0 >>= λ rc'. pure {A = Status × ℕ} (rc', r.1))
              (λ r. Polled (map u8 (build_poll w.chip pad sad)) poll_tail r.0)
      polled u = Emits-bind (poll_device-Delivers rounds (build_poll w.chip pad sad) u) (λ r bs v d.
          Emits-bind (end_poll-Polled rounds _ bs r.0 v d)
            (λ rc' cs x p. Emits-pure _ (rw (append-nil cs) p)))

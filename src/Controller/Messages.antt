-- ===== src/Controller/Messages.antt =====
-- The message that each operation of the controller delivers, on every path.
use jornada_gpib.Chip.Transfer
use jornada_gpib.Controller.Ops
use jornada_gpib.Prelude.{
  [], append-nil, if◌then◌else◌, ◌++◌, Bool, List, arith, false, true, ◌≡◌, u8, map, not, ℤ, ℕ,
}
use jornada_gpib.Chip.Io.{M, pure, ◌>>=◌, World, Io}
use jornada_gpib.Controller.Ops.{regain, addressed_command}
use jornada_gpib.Controller.Emits.{Emits-after, Emits-bind, Emits-pure, Emits-if, Emits}
use jornada_gpib.Chip.Status.{ok, is_ok, Status}
use jornada_gpib.Controller.Delivers.{
  Delivers-code, Delivers-stopped, Delivers-append, transfer_out-Delivers, Delivers-nothing,
  Delivers,
}
use jornada_gpib.Controller.Bytes.{build_address, valid_address, build_addressed}
use jornada_gpib.Controller.Traffic.{
  address_device-Delivers, regain-Delivers, send_commands-Delivers, einval-fails,
}
use jornada_gpib.Chip.Control.{go_to_standby}
use jornada_gpib.Chip.Protocol.Control.{Traced-go_to_standby}
use jornada_gpib.Chip.Protocol.Transfer.{Traced-read}

pub not_ok-fails : (rc : Status) → not (is_ok rc) ≡ true → {A : Type 0} → rc ≡ ok → A
not_ok-fails rc h e = absurd (ground arith)

pub is_ok-true : (rc : Status) → not (is_ok rc) ≡ false → rc ≡ ok
is_ok-true rc h = ground arith

module _ ⦃io : Io⦄ where
  pub addressed_command-Delivers :
      (rounds : ℕ) (pad sad : ℤ) (byte : ℕ) (w : World)
      → Emits w
          (addressed_command rounds pad sad byte)
          (Delivers (map u8 (build_addressed pad sad byte)))
  unfolding addressed_command
  addressed_command-Delivers rounds pad sad byte w =
      Emits-if (not (valid_address pad sad)) (λ _. Emits-pure _ (Delivers-nothing _ _ einval-fails))
        (λ _. send_commands-Delivers rounds (build_addressed pad sad byte) w)

  data_phase :
      (rounds : ℕ) (xs buf : List ℕ) (eoi : Bool) (bs : List ℕ) (w : World)
      → bs ≡ xs
      → Emits w
          (Transfer.write rounds buf eoi >>= λ (r : Status × ℕ).
            regain rounds r.0 >>= λ last. pure {A = Status × ℕ} (last, r.1))
          (λ r cs. Delivers (xs ++ map u8 buf) r.0 (bs ++ cs))
  unfolding Transfer.write
  data_phase rounds xs buf eoi bs w e =
      Emits-bind (transfer_out-Delivers rounds buf _ w) (λ r cs u d.
        Emits-bind (regain-Delivers rounds r.0 u (map u8 buf) cs d) (λ last ds x d'.
          Emits-pure _
            (rw (append-nil ds) (Delivers-append xs (map u8 buf) bs (cs ++ ds) last e d'))))

  -- The bytes that `gpib_write` gives to the chip are a prefix of the addressing sequence followed by
  -- the buffer, whatever happens, and OK means all of it.
  pub write-Delivers :
      (rounds : ℕ) (pad sad : ℤ) (buf : List ℕ) (eoi : Bool) (w : World)
      → Emits w
          (Ops.write rounds pad sad buf eoi)
          (λ r. Delivers (map u8 (build_address w.chip pad sad false) ++ map u8 buf) r.0)
  unfolding Ops.write
  write-Delivers rounds pad sad buf eoi w =
      let xs = map u8 (build_address w.chip pad sad false) in
      let standby : Status → M (Status × ℕ) = λ rc'.
        if not (is_ok rc')
        then pure (rc', 0)
        else (Transfer.write rounds buf eoi >>= λ (r : Status × ℕ).
            regain rounds r.0 >>= λ last. pure {A = Status × ℕ} (last, r.1)) in
      Emits-bind
        {f = λ rc. if not (is_ok rc) then pure (rc, 0) else go_to_standby rounds >>= standby}
        (address_device-Delivers rounds pad sad false w)
        (λ rc bs u d.
          Emits-if (not (is_ok rc))
            (λ h.
              Emits-pure _
                (rw (append-nil bs) (Delivers-stopped xs (map u8 buf) bs rc (not_ok-fails rc h) d)))
            (λ h. Emits-after {f = standby} (Traced-go_to_standby rounds) (λ rc' v.
              Emits-if (not (is_ok rc'))
                (λ h'. Emits-pure _ (
                  Delivers-append xs (map u8 buf) bs [] rc' (d.whole (is_ok-true rc h))
                    (Delivers-nothing (map u8 buf) rc' (not_ok-fails rc' h'))))
                (λ _. data_phase rounds xs buf eoi bs v (d.whole (is_ok-true rc h))))))

  -- The command bytes of `gpib_read` are a prefix of the addressing sequence, in which the device
  -- talks; OK means all of it.
  pub read-Delivers :
      (rounds : ℕ) (pad sad : ℤ) (cap : ℕ) (w : World)
      → Emits w
          (Ops.read rounds pad sad cap)
          (λ r. Delivers (map u8 (build_address w.chip pad sad true)) r.0)
  unfolding Ops.read
  read-Delivers rounds pad sad cap w =
      let xs = map u8 (build_address w.chip pad sad true) in
      let last : Status × List ℕ × Bool → M (Status × List ℕ × Bool) =
        λ r. regain rounds r.0 >>= λ rc. pure {A = Status × List ℕ × Bool} (rc, r.1, r.2) in
      let standby : Status → M (Status × List ℕ × Bool) = λ rc'.
        if not (is_ok rc') then pure (rc', [], false) else Transfer.read rounds cap >>= last in
      Emits-bind
        {f = λ rc.
          if not (is_ok rc) then pure (rc, [], false) else go_to_standby rounds >>= standby}
        (address_device-Delivers rounds pad sad true w)
        (λ rc bs u d.
          Emits-if (not (is_ok rc)) (λ h. Emits-pure _ (rw (append-nil bs) d))
            (λ h. Emits-after {f = standby} (Traced-go_to_standby rounds) (λ rc' v.
              Emits-if (not (is_ok rc'))
                (λ h'.
                  Emits-pure _
                    (rw (append-nil bs) (Delivers-code xs bs rc rc' (not_ok-fails rc' h') d)))
                (λ _. Emits-after {f = last} (Traced-read rounds cap) (λ r x.
                  Emits-bind
                    (regain-Delivers rounds r.0 x xs bs
                      (Delivers-code xs bs rc r.0 (λ _. is_ok-true rc h) d))
                    (λ rc'' cs y d'. Emits-pure _ (rw (append-nil cs) d')))))))

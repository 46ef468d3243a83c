-- ===== src/Controller/Traffic.antt =====
-- What the controller's operations put on the bus: which command and data bytes, on every path.
use jornada_gpib.Prelude.{
  has, ℕ, ◌≡◌, List, ◌++◌, append-nil, map, Bool, false, not, if◌then◌else◌, u8, ℤ, length, arith,
}
use jornada_gpib.Chip.Io.{rd, ◌>>=◌, chip, Io, World, M, pure}
use jornada_gpib.Chip.Status.{enotcic, Status, ok, einval, is_ok}
use jornada_gpib.Chip.Bits.{tnt_xf_command, hr_natn}
use jornada_gpib.Chip.Control.{take_control}
use jornada_gpib.Chip.Transfer.{transfer_out, command}
use jornada_gpib.Chip.Protocol.Access.{Traced-is_cic}
use jornada_gpib.Chip.Reg
use jornada_gpib.Chip.Protocol.Rules.{Traced-rd}
use jornada_gpib.Chip.Protocol.Control.{Traced-take_control}
use jornada_gpib.Controller.Bytes.{valid_address, build_address}
use jornada_gpib.Controller.Ops.{keep_first, all_of, send_commands, address_device, regain}
use jornada_gpib.Controller.Emits.{Emits-if, Emits, Emits-bind, Emits-after, Emits-pure}
use jornada_gpib.Controller.Delivers.{
  Delivers, Delivers-nothing, Delivers-code, transfer_out-Delivers,
}

-- The command bytes are 8-bit already; a data byte is cast by the write to the FIFO.
keep_first-ok : (rc later : Status) → keep_first rc later ≡ ok → rc ≡ ok
keep_first-ok rc later e = ground arith

all_of-ok : (count n : ℕ) (rc : Status) → all_of count n rc ≡ ok → rc ≡ ok
all_of-ok count n rc e = ground arith

pub is_ok-false : (rc : Status) → is_ok rc ≡ false → {A : Type 0} → rc ≡ ok → A
is_ok-false rc h e = absurd (ground arith)

pub einval-fails : {A : Type 0} → einval ≡ ok → A
einval-fails e = absurd (cc)

enotcic-fails : {A : Type 0} → enotcic ≡ ok → A
enotcic-fails e = absurd (cc)

module _ ⦃io : Io⦄ where
  command-Delivers :
      (rounds : ℕ) (cmd : List ℕ) (w : World)
      → Emits w (command rounds cmd) (λ r. Delivers (map u8 cmd) r.0)
  unfolding command
  command-Delivers rounds cmd w =
      let send : Status → M (Status × ℕ) =
        λ rc. if is_ok rc then transfer_out rounds cmd tnt_xf_command else pure (rc, 0) in
      let choose : ℕ → M (Status × ℕ) = λ v.
        if has v hr_natn
        then take_control rounds false >>= send
        else transfer_out rounds cmd tnt_xf_command in
      Emits-after {f = λ cic. if not cic then pure (enotcic, 0) else rd Reg.adsr >>= choose}
        Traced-is_cic
        (λ cic u.
          Emits-if (not cic) (λ _. Emits-pure _ (Delivers-nothing _ _ enotcic-fails))
            (λ _. Emits-after {f = choose} (Traced-rd Reg.adsr) (λ v x.
              Emits-if (has v hr_natn)
                (λ _. Emits-after {f = send} (Traced-take_control rounds false) (λ rc y.
                  Emits-if (is_ok rc) (λ _. transfer_out-Delivers rounds cmd tnt_xf_command y)
                    (λ h. Emits-pure _ (Delivers-nothing _ _ (is_ok-false rc h)))))
                (λ _. transfer_out-Delivers rounds cmd tnt_xf_command x))))

  -- The command bytes that were accepted are a prefix of those asked for; OK means all of them.
  pub send_commands-Delivers :
      (rounds : ℕ) (cmd : List ℕ) (w : World)
      → Emits w (send_commands rounds cmd) (Delivers (map u8 cmd))
  unfolding send_commands
  send_commands-Delivers rounds cmd w = Emits-bind (command-Delivers rounds cmd w) (λ r bs u d.
      Emits-pure _
        (rw (append-nil bs) (Delivers-code _ bs r.0 _ (all_of-ok r.1 (length cmd) r.0) d)))

  pub address_device-Delivers :
      (rounds : ℕ) (pad sad : ℤ) (device_talks : Bool) (w : World)
      → Emits w
          (address_device rounds pad sad device_talks)
          (Delivers (map u8 (build_address w.chip pad sad device_talks)))
  unfolding address_device chip
  address_device-Delivers rounds pad sad t w =
      Emits-if (not (valid_address pad sad)) (λ _. Emits-pure _ (Delivers-nothing _ _ einval-fails))
        (λ _. record {
          out = (send_commands-Delivers rounds (build_address w.chip pad sad t) w).out;
        })

  pub regain-Delivers :
      (rounds : ℕ) (rc : Status) (w : World) (msg : List ℕ) (bs : List ℕ)
      → Delivers msg rc bs
      → Emits w (regain rounds rc) (λ rc' cs. Delivers msg rc' (bs ++ cs))
  unfolding regain
  regain-Delivers rounds rc w msg bs d = Emits-after (Traced-take_control rounds false) (λ later u.
      Emits-pure _ (rw (append-nil bs) (Delivers-code msg bs rc _ (keep_first-ok rc later) d)))

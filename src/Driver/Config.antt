-- ===== src/Driver/Config.antt =====
-- The configuration of src/gpib/drv_ce.c: IOCTL_GPIB_SET_CONFIG and IOCTL_GPIB_GET_INFO.
use jornada_gpib.Prelude.{
  ℕ, zero, suc, ◌+◌, ◌^◌, ◌%◌, ◌≤◌, ◌<◌, ◌≡◌, ◌∙◌, ap, sym, refl, Bool-cases, inl, inr, true, not,
  ltb, get_or, List, [], append-nil, length, none, some, bits32, int_of, arith,
}
use jornada_gpib.Wire
use jornada_gpib.Wire.{words, word_at, int_at, word_at-words, size_info, size_config}
use jornada_gpib.Chip.Io.{Io, World, done}
use jornada_gpib.Chip.Results.{
  Yields, Yields-bind, Yields-after, Yields-pure, Yields-if, Yields-done,
}
use jornada_gpib.Chip.Setup.{set_timeout, set_t1, set_address, set_eos}
use jornada_gpib.Driver.State.{answered, Config, GpibDevice, Open, Ioctl, Answer}
use jornada_gpib.Driver.Ready.{apply_config}
use jornada_gpib.Driver.Ioctls.{ioctl_get_info, info_fields}
use jornada_gpib.Driver.Dispatch.{ioctl_set_config, config_of, bad_config, dispatch, other_ioctl}

bits32-int_of : (v : ℕ) → v < 2 ^ 32 → bits32 (int_of v) ≡ v
bits32-int_of v h = ground arith

-- The fields from the 15th on are the configuration.
field-config :
    (d : GpibDevice) (bytes : List ℕ) (k : ℕ)
    → d.config ≡ config_of bytes
    → k < 6
    → word_at bytes k < 2 ^ 32
    → get_or (info_fields d) (15 + k) 0 ≡ word_at bytes k
field-config d bytes zero e h b = ap (λ c. c.timeout_ms) e
field-config d bytes (suc zero) e h b = ap (λ c. c.t1_ns) e
field-config d bytes (suc (suc zero)) e h b =
    ap (λ c. bits32 c.pad) e ∙ bits32-int_of (word_at bytes 2) b
field-config d bytes (suc (suc (suc zero))) e h b =
    ap (λ c. bits32 c.sad) e ∙ bits32-int_of (word_at bytes 3) b
field-config d bytes (suc (suc (suc (suc zero)))) e h b = ap (λ c. c.eos) e
field-config d bytes (suc (suc (suc (suc (suc zero))))) e h b = ap (λ c. c.eos_flags) e
field-config d bytes (suc (suc (suc (suc (suc (suc k)))))) e h b = absurd (omega arith)

info-answered :
    (d : GpibDevice) (n : ℕ)
    → size_info ≤ n
    → ioctl_get_info d (some n) ≡ answered (words (info_fields d))
unfolding ioctl_get_info
info-answered d n h = elim (Bool-cases (ltb n size_info)) [
  | inl e ↦ absurd (ground (arith, e))
  | inr e ↦ rw e refl
]

info-config :
    (d : GpibDevice) (bytes : List ℕ) (k n : ℕ)
    → d.config ≡ config_of bytes
    → k < 6
    → word_at bytes k < 2 ^ 32
    → size_info ≤ n
    → word_at (ioctl_get_info d (some n)).output (15 + k) ≡ word_at bytes k
info-config d bytes k n e h b m =
    let field = field-config d bytes k e h b in
    ap (λ a. word_at a.output (15 + k)) (info-answered d n m)
    ∙ ap (λ l. word_at l (15 + k)) (sym (append-nil (words (info_fields d))))
    ∙ word_at-words (info_fields d) [] (15 + k) (omega arith) (omega (arith, field, b))
    ∙ field

-- A request for the configuration in `bytes`.
abbrev pub set_request : List ℕ → Ioctl
set_request bytes = record { code = Wire.ioctl_gpib_set_config; input = some bytes; room = none }

module _ ⦃io : Io⦄ (rounds : ℕ) where
  Yields-apply_config :
      (d : GpibDevice) (c : Config) → Yields (λ e. e ≡ record d { config = c }) (apply_config d c)
  unfolding apply_config
  Yields-apply_config d c =
      Yields-if (not d.chip_ok) _ _ (λ _. Yields-pure _ refl)
        (λ _. Yields-after (set_timeout c.timeout_ms) _ (λ _. Yields-after (set_t1 c.t1_ns) _ (λ _.
          Yields-after (set_address (bits32 c.pad % 2 ^ 8) c.sad) _
            (λ _. Yields-after (set_eos (c.eos % 2 ^ 8) c.eos_flags) _ (λ _. Yields-pure _ refl)))))

  Yields-set_config :
      (o : Open) (bytes : List ℕ)
      → Yields
          (λ r. r.0.good ≡ true → r.1.dev.config ≡ config_of bytes)
          (ioctl_set_config rounds o (some bytes))
  unfolding ioctl_set_config
  Yields-set_config o bytes =
      Yields-if (ltb (length bytes) size_config) _ _ (λ _. Yields-pure _ (λ e. cc))
        (λ _.
          Yields-if (bad_config (config_of bytes)) _ _ (λ _. Yields-pure _ (λ e. cc))
            (λ _.
              Yields-bind _ _ (Yields-apply_config o.dev (config_of bytes))
                (λ d h. Yields-pure _ (λ e. ap (λ x. x.config) h))))

  -- After a configuration was accepted, the information on the driver has it, field for field.
  pub set_config-get_info :
      (o : Open) (bytes : List ℕ) (k n : ℕ) (w : World) {w' : World} {a : Answer × Open}
      → k < 6
      → word_at bytes k < 2 ^ 32
      → size_info ≤ n
      → dispatch rounds o (set_request bytes) w ≡ done a w'
      → a.0.good ≡ true
      → word_at (ioctl_get_info a.1.dev (some n)).output (15 + k) ≡ word_at bytes k
  unfolding dispatch other_ioctl
  set_config-get_info o bytes k n w {a = a} h b m e g =
      info-config a.1.dev bytes k n (Yields-done (Yields-set_config o bytes) e g) h b m

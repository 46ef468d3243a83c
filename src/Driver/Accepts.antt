-- ===== src/Driver/Accepts.antt =====
-- The IOCTLs of src/gpib/drv_ce.c at requests of the sizes in Api.Proper.
pub mod Library
use jornada_gpib.Api.Session.{Call, run_all}
use jornada_gpib.Api.State.{Event, Os, initial}
use jornada_gpib.Prelude.{
  get_elem?, ◌++◌, subst, ℕ, zero, suc, ◌+◌, ◌-◌, ◌≤◌, ◌≡◌, refl, ◌⊎◌, inl, inr, Bool, true, false,
  not, ◌&&◌, ◌||◌, ◌==◌, Bool-cases, ltb, leb, if◌then◌else◌, List, [], ◌∷◌, length, Option, none,
  some, ℤ, arith,
}
use jornada_gpib.Wire
use jornada_gpib.Wire.{
  word_at, int_at, size_result, size_xfer, size_config, size_info, size_lines, size_address,
}
use jornada_gpib.Chip.Io.{Io, World, done, M, ◌>>=◌, pure, rd}
use jornada_gpib.Chip.Status.{Status}
use jornada_gpib.Chip.Reg
use jornada_gpib.Chip.Control.{snapshot}
use jornada_gpib.Chip.Results.{
  Yields, Yields-bind, Yields-after, Yields-pure, Yields-if, Yields-done,
}
use jornada_gpib.Controller.Ops
use jornada_gpib.Driver.State.{
  result_words, answered, Open, Ioctl, Answer, GpibDevice, DriverStatus, is_ready, put_result,
  with_input, accepted,
}
use jornada_gpib.Driver.Ready.{bare, in_charge, apply_config}
use jornada_gpib.Driver.Ioctls.{
  word_of, ioctl_get_info, ioctl_write, write_data, ioctl_read, read_data, ioctl_lines,
  max_xfer_inline,
}
use jornada_gpib.Driver.Dispatch.{
  keep, ioctl_set_config, finish_op, ioctl_ifc, ioctl_switch, ioctl_address, ioctl_lockout,
  other_ioctl, dispatch, config_of, bad_config,
}
use jornada_gpib.Api.State.{asked}
use jornada_gpib.Api.Proper.Kept.{run_all-proper}
use jornada_gpib.Api.Proper.{has_input, proper, all_proper}
use jornada_gpib.Controller.Ops.{serial_poll, pass_control, local, trigger}

-- What the driver checks besides the sizes: the limit of a transfer, and the addresses of a
-- configuration.
unfoldable pub allowed : ℕ → Option (List ℕ) → Bool
allowed code none = true
allowed code (some bytes) =
    if code == Wire.ioctl_gpib_set_config
    then not (bad_config (config_of bytes))
    else not (code == Wire.ioctl_gpib_write || code == Wire.ioctl_gpib_read)
      || leb (word_at bytes 3) max_xfer_inline

pub allowed_at :
    (code c : ℕ) (input : Option (List ℕ))
    → (code == c) ≡ true
    → allowed code input ≡ true
    → allowed c input ≡ true
allowed_at code c input e k = subst (λ x. allowed x input ≡ true) (ground (arith, e)) k

abbrev pub Good : Answer → Type 0
Good a = a.good ≡ true

pub Good-put_result :
    (room : ℕ) (rc : DriverStatus) (count end : ℕ)
    → leb size_result room ≡ true
    → Good (put_result (some room) rc count end)
unfolding put_result
Good-put_result room rc count end h = ground (arith, h)

pub Yields-keep : (o : Open) (m : M Answer) → Yields Good m → Yields (λ r. Good r.0) (keep o m)
unfolding keep
Yields-keep o m h = Yields-bind m _ h (λ a g. Yields-pure (a, o) g)

pub Yields-with_input :
    {A : Type 0} {P : A → Type 0} (input : Option (List ℕ)) (n : ℕ) (p : List ℕ → Bool)
    (missing : M A) (found : List ℕ → M A)
    → has_input input n p ≡ true
    → ((bytes : List ℕ) → input ≡ some bytes → p bytes ≡ true → Yields P (found bytes))
    → Yields P (with_input input n missing found)
Yields-with_input none n p missing found h k = absurd (cc)
Yields-with_input (some bytes) n p missing found h k =
    Yields-if (ltb (length bytes) n) _ _ (λ e. absurd (ground (arith, e, h)))
      (λ e. k bytes refl (ground (arith, h)))

module _ ⦃io : Io⦄ (rounds : ℕ) where
  pub Yields-finish_op :
      (room : ℕ) (op : M (DriverStatus × ℕ))
      → leb size_result room ≡ true
      → Yields Good (finish_op rounds (some room) op)
  unfolding finish_op
  Yields-finish_op room op h =
      Yields-after op _ (λ r. Yields-pure _ (Good-put_result room r.0 r.1 0 h))

  pub Yields-info :
      (d : GpibDevice) (room : ℕ) → leb size_info room ≡ true → Good (ioctl_get_info d (some room))
  unfolding ioctl_get_info
  Yields-info d room h = elim (Bool-cases (ltb room size_info)) [
    | inl e ↦ absurd (ground (arith, e, h))
    | inr e ↦ rw e refl
  ]

  pub Yields-set_config :
      (o : Open) (input : Option (List ℕ))
      → has_input input size_config (λ bytes. true) ≡ true
      → allowed Wire.ioctl_gpib_set_config input ≡ true
      → Yields (λ r. Good r.0) (ioctl_set_config rounds o input)
  unfolding ioctl_set_config allowed
  Yields-set_config o none h k = absurd (cc)
  Yields-set_config o (some bytes) h k =
      Yields-if (ltb (length bytes) size_config) _ _ (λ e. absurd (ground (arith, e, h)))
        (λ _.
          Yields-if (bad_config (config_of bytes)) _ _ (λ e. absurd (ground (arith, e, k)))
            (λ _. Yields-after (apply_config o.dev (config_of bytes)) _ (λ d. Yields-pure _ refl)))

  pub Yields-write :
      (d : GpibDevice) (input : Option (List ℕ)) (room : ℕ)
      → leb size_result room ≡ true
      → has_input input size_xfer (λ bytes. leb (word_at bytes 3) (length bytes - size_xfer)) ≡ true
      → allowed Wire.ioctl_gpib_write input ≡ true
      → Yields Good (ioctl_write rounds d input (some room))
  unfolding ioctl_write write_data allowed
  Yields-write d input room r h k = Yields-with_input input size_xfer _ _ _ h (λ bytes e fits.
      Yields-if
        (ltb (length bytes - size_xfer) (word_at bytes 3) || ltb max_xfer_inline (word_at bytes 3))
        _ _
        (λ bad.
          absurd
            (too_long bytes bad fits (subst (λ i. allowed Wire.ioctl_gpib_write i ≡ true) e k)))
        (λ _. Yields-after (in_charge rounds d 0 _) _ (λ q.
          Yields-if (is_ready q.0) _ _ (λ _. Yields-pure _ (Good-put_result room q.0 q.1 0 r))
            (λ _. Yields-after snapshot _ (λ _.
              Yields-pure (put_result (some room) q.0 q.1 0) (Good-put_result room q.0 q.1 0 r))))))
    where
      too_long :
          (bytes : List ℕ)
          → (ltb (length bytes - size_xfer) (word_at bytes 3)
              || ltb max_xfer_inline (word_at bytes 3))
            ≡ true
          → leb (word_at bytes 3) (length bytes - size_xfer) ≡ true
          → leb (word_at bytes 3) max_xfer_inline ≡ true
          → ⊥
      too_long bytes bad fits ok = ground (arith, bad, fits, ok)

  pub Yields-read :
      (d : GpibDevice) (input : Option (List ℕ)) (room : ℕ)
      → leb size_result room ≡ true
      → has_input input size_xfer (λ bytes. leb (word_at bytes 3) (room - size_result)) ≡ true
      → allowed Wire.ioctl_gpib_read input ≡ true
      → Yields Good (ioctl_read rounds d input (some room))
  unfolding ioctl_read read_data allowed
  Yields-read d input room r h k = Yields-with_input input size_xfer _ _ _ h (λ bytes e fits.
      Yields-if
        (ltb room size_result
          || ltb (room - size_result) (word_at bytes 3)
          || ltb max_xfer_inline (word_at bytes 3))
        _ _
        (λ bad.
          absurd (too_long bytes bad fits (subst (λ i. allowed Wire.ioctl_gpib_read i ≡ true) e k)))
        (λ _. Yields-after (in_charge rounds d ([], false) _) _ (λ q.
          Yields-pure (answered (result_words q.0 (length q.1.0) (word_of q.1.1) ++ q.1.0)) refl)))
    where
      too_long :
          (bytes : List ℕ)
          → (ltb room size_result
              || ltb (room - size_result) (word_at bytes 3)
              || ltb max_xfer_inline (word_at bytes 3))
            ≡ true
          → leb (word_at bytes 3) (room - size_result) ≡ true
          → leb (word_at bytes 3) max_xfer_inline ≡ true
          → ⊥
      too_long bytes bad fits ok = ground (arith, bad, fits, ok, r)

  pub Yields-lines :
      (d : GpibDevice) (room : ℕ)
      → d.card_present ≡ true
      → leb size_lines room ≡ true
      → Yields Good (ioctl_lines rounds d (some room))
  unfolding ioctl_lines
  Yields-lines d room c h =
      Yields-if (ltb room size_lines || not d.card_present) _ _
        (λ e. absurd (ground (arith, e, h, c)))
        (λ _. Yields-after (rd Reg.bsr) _ (λ a. Yields-after (rd Reg.adsr) _ (λ b.
          Yields-after (rd Reg.sts1) _ (λ x.
            Yields-after (rd Reg.sts2) _
              (λ y. Yields-pure (answered (Wire.words (a ∷ b ∷ x ∷ y ∷ []))) refl)))))

  pub Yields-switch :
      (d : GpibDevice) (input : Option (List ℕ)) (room : ℕ) (op : Bool → M Status)
      → leb size_result room ≡ true
      → has_input input 4 (λ bytes. true) ≡ true
      → Yields Good (ioctl_switch rounds d input (some room) op)
  unfolding ioctl_switch
  Yields-switch d input room op r h =
      Yields-with_input input 4 _ _ _ h (λ bytes e f. Yields-finish_op room _ r)

  pub Yields-address :
      (d : GpibDevice) (input : Option (List ℕ)) (room : ℕ) (op : ℤ → ℤ → M (Status × ℕ))
      → leb size_result room ≡ true
      → has_input input size_address (λ bytes. true) ≡ true
      → Yields Good (ioctl_address rounds d input (some room) op)
  unfolding ioctl_address
  Yields-address d input room op r h =
      Yields-with_input input size_address _ _ _ h (λ bytes e f. Yields-finish_op room _ r)

  pub Yields-ifc :
      (d : GpibDevice) (room : ℕ)
      → leb size_result room ≡ true
      → Yields Good (ioctl_ifc rounds d (some room))
  unfolding ioctl_ifc
  Yields-ifc d room h = Yields-finish_op room _ h

  pub Yields-lockout :
      (d : GpibDevice) (room : ℕ)
      → leb size_result room ≡ true
      → Yields Good (ioctl_lockout rounds d (some room))
  unfolding ioctl_lockout
  Yields-lockout d room h = Yields-finish_op room _ h

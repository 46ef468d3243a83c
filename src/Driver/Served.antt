-- ===== src/Driver/Served.antt =====
-- `dispatch` of src/gpib/drv_ce.c: its answers, the open context and the device.
use jornada_gpib.Prelude.{
  subst, ℕ, ◌≤◌, ◌≡◌, refl, Bool, true, false, not, ltb, if◌then◌else◌, List, length, Option, none,
  some, ℤ, arith,
}
use jornada_gpib.Wire.{words, size_probe, size_config, size_address, int_at}
use jornada_gpib.Chip.Io.{Io, World, Run, done, spin, M, and_then, pure}
use jornada_gpib.Chip.Status.{Status}
use jornada_gpib.Chip.Results.{Yields, Yields-after, Yields-pure}
use jornada_gpib.Chip.Protocol.Rules.{Holds}
use jornada_gpib.Driver.State.{
  GpibDevice, Open, Ioctl, Answer, refused, accepted, answered, DriverStatus, is_ready, lacks_room,
  with_input, error_invalid_parameter, error_insufficient_buffer,
}
use jornada_gpib.Driver.Ready.{in_charge, apply_config, chip_bringup}
use jornada_gpib.Driver.Ioctls.{ioctl_probe, max_xfer_inline, probe_fields}
use jornada_gpib.Driver.Dispatch.{
  other_ioctl, keep, ioctl_set_config, ioctl_set_device, finish_op, ioctl_ifc, ioctl_switch,
  ioctl_command, ioctl_address, ioctl_lockout, dispatch, config_of, bad_config,
}
use jornada_gpib.Driver.Answers.{
  room_size, Works, Works-put_result, Works-answered, Safe, IsSafe, Safe-Yields, Safe-refused,
  Safe-if, Safe-with_input,
}
use jornada_gpib.Driver.Safety.{
  Safe-register, Safe-info, Safe-cis, Safe-write, Safe-read, Safe-snapshot, Safe-lines,
  Safe-raw_out,
}

-- The output fits in its buffer. A request that was refused as invalid has changed neither the chip,
-- nor the device, nor the open context.
pub record IsServed (room : Option ℕ) (o : Open) (w : World) (r : Answer × Open) (w' : World)
    : Type 0 where
  pub fits : length r.0.output ≤ room_size room
  pub unchanged : r.0.error ≡ error_invalid_parameter → (r.1 ≡ o) × (w' ≡ w)

pub record Serves (room : Option ℕ) (o : Open) (m : M (Answer × Open)) : Type 0 where
  pub at : (w : World) → Holds (IsServed room o w) (m w)

Holds-keep :
    (room : Option ℕ) (o : Open) (w : World) (r : Run Answer)
    → Holds (IsSafe room w) r
    → Holds (IsServed room o w) (and_then r (λ a. pure (a, o)))
unfolding pure
Holds-keep room o w (done a u) h = record { fits = h.fits; unchanged = λ e. (refl, h.untouched e) }
Holds-keep room o w spin h = tt

Serves-keep : {room : Option ℕ} (o : Open) (m : M Answer) → Safe room m → Serves room o (keep o m)
unfolding keep
Serves-keep {room = room} o m h = record { at = λ w. Holds-keep room o w (m w) (h.at w) }

Serves-pure :
    {room : Option ℕ} (o : Open) (a : Answer) → Safe room (pure a) → Serves room o (pure (a, o))
unfolding pure
Serves-pure {room = room} o a h = record { at = λ w. Holds-keep room o w (pure a w) (h.at w) }

Holds-IsServed :
    (room : Option ℕ) (o : Open) (w : World) (r : Run (Answer × Open))
    → Holds (λ a _. Works room a.0) r
    → Holds (IsServed room o w) r
Holds-IsServed room o w (done a u) h = record {
  fits = h.fits;
  unchanged = λ e. absurd (ground (arith, h.other, e));
}
Holds-IsServed room o w spin h = tt

Serves-Yields :
    {room : Option ℕ} {o : Open} {m : M (Answer × Open)}
    → Yields (λ r. Works room r.0) m
    → Serves room o m
Serves-Yields {room = room} {o = o} {m = m} h = record {
  at = λ w. Holds-IsServed room o w (m w) (h.at w);
}

Serves-if :
    {room : Option ℕ} {o : Open} (b : Bool) (m n : M (Answer × Open))
    → Serves room o m
    → Serves room o n
    → Serves room o (if b then m else n)
Serves-if true m n h k = h
Serves-if false m n h k = k

Serves-when :
    {room : Option ℕ} {o : Open} (b : Bool) (m n : M (Answer × Open))
    → (b ≡ true → Serves room o m)
    → (b ≡ false → Serves room o n)
    → Serves room o (if b then m else n)
Serves-when true m n h k = h refl
Serves-when false m n h k = k refl

Serves-refused : {room : Option ℕ} {o : Open} (e : ℕ) → Serves room o (pure (refused e, o))
Serves-refused {o = o} e = Serves-pure o (refused e) (Safe-refused e)

Serves-with_input :
    {room : Option ℕ} {o : Open} (input : Option (List ℕ)) (size e : ℕ)
    (found : List ℕ → M (Answer × Open))
    → ((bytes : List ℕ) → Serves room o (found bytes))
    → Serves room o (with_input input size (pure (refused e, o)) found)
Serves-with_input none size e found h = Serves-refused e
Serves-with_input (some bytes) size e found h =
    Serves-if (ltb (length bytes) size) _ _ (Serves-refused e) (h bytes)

Works-accepted : (room : Option ℕ) → Works room accepted
Works-accepted room = record { fits = omega arith; other = refl }

module _ ⦃io : Io⦄ (rounds : ℕ) where
  Serves-set_config :
      (o : Open) (input : Option (List ℕ)) (n : Option ℕ)
      → Serves n o (ioctl_set_config rounds o input)
  unfolding ioctl_set_config
  Serves-set_config o input n =
      Serves-with_input input size_config error_invalid_parameter _ (λ bytes.
        Serves-if (bad_config (config_of bytes)) _ _ (Serves-refused error_invalid_parameter) (
          Serves-Yields (
            Yields-after (apply_config o.dev (config_of bytes)) _
              (λ d. Yields-pure (accepted, record o { dev = d }) (Works-accepted n)))))

  Serves-set_device :
      (o : Open) (input : Option (List ℕ)) (n : Option ℕ)
      → Serves n o (ioctl_set_device rounds o input)
  unfolding ioctl_set_device
  Serves-set_device o input n =
      Serves-with_input input size_address error_invalid_parameter _ (λ bytes. Serves-Yields (
        Yields-pure
          (accepted, record o { current_pad = int_at bytes 0; current_sad = int_at bytes 1 })
          (Works-accepted n)))

  Safe-finish_op :
      (room : Option ℕ) (op : M (DriverStatus × ℕ)) → Safe room (finish_op rounds room op)
  unfolding finish_op
  Safe-finish_op room op =
      Safe-Yields (Yields-after op _ (λ r. Yields-pure _ (Works-put_result room r.0 r.1 0)))

  Safe-switch :
      (d : GpibDevice) (input : Option (List ℕ)) (room : Option ℕ) (op : Bool → M Status)
      → Safe room (ioctl_switch rounds d input room op)
  unfolding ioctl_switch
  Safe-switch d input room op =
      Safe-with_input input 4 error_invalid_parameter _ (λ bytes. Safe-finish_op room _)

  Safe-ifc : (d : GpibDevice) (room : Option ℕ) → Safe room (ioctl_ifc rounds d room)
  unfolding ioctl_ifc
  Safe-ifc d room = Safe-finish_op room _

  Safe-lockout : (d : GpibDevice) (room : Option ℕ) → Safe room (ioctl_lockout rounds d room)
  unfolding ioctl_lockout
  Safe-lockout d room = Safe-finish_op room _

  Safe-address :
      (d : GpibDevice) (input : Option (List ℕ)) (room : Option ℕ) (op : ℤ → ℤ → M (Status × ℕ))
      → Safe room (ioctl_address rounds d input room op)
  unfolding ioctl_address
  Safe-address d input room op =
      Safe-with_input input size_address error_invalid_parameter _ (λ bytes. Safe-finish_op room _)

  Safe-command :
      (d : GpibDevice) (input : Option (List ℕ)) (room : Option ℕ)
      → Safe room (ioctl_command rounds d input room)
  unfolding ioctl_command finish_op
  Safe-command d input room = Safe-with_input input 1 error_invalid_parameter _ (λ bytes.
      Safe-if (ltb max_xfer_inline (length bytes)) _ _ (λ _. Safe-refused error_invalid_parameter)
        (λ _. Safe-Yields (
          Yields-after (in_charge rounds d 0 _) _ (λ r.
            Yields-after {A = DriverStatus × ℕ}
              (pure (r.0, if is_ready r.0 then length bytes else 0)) _
              (λ q. Yields-pure _ (Works-put_result room q.0 q.1 0))))))

  Serves-probe : (o : Open) (room : Option ℕ) → Serves room o (ioctl_probe rounds o room)
  unfolding ioctl_probe
  Serves-probe o room =
      Serves-when (lacks_room room size_probe) _ _ (λ _. Serves-refused error_insufficient_buffer)
        (λ h. Serves-if (not o.dev.card_present) _ _ (Serves-refused error_invalid_parameter) (
          Serves-Yields (
            Yields-after (chip_bringup rounds o.dev) _ (λ d.
              Yields-pure (answered (words (probe_fields d.probe)), record o { dev = d })
                (Works-answered room (words (probe_fields d.probe)) size_probe h (omega arith))))))

  Serves-other : (o : Open) (r : Ioctl) → Serves r.room o (other_ioctl rounds o r)
  unfolding other_ioctl
  Serves-other o r =
      search
        (
          Serves-if,
          Serves-pure,
          Serves-keep,
          Serves-refused,
          Serves-set_config,
          Serves-set_device,
          Safe-info rounds,
          Safe-cis rounds,
          Safe-write,
          Safe-read,
          Safe-snapshot,
          Safe-lines,
          Safe-raw_out,
          Safe-switch,
          Safe-ifc,
          Safe-lockout,
          Safe-address,
          Safe-command,
        )
        depth 60

  Serves-dispatch : (o : Open) (r : Ioctl) → Serves r.room o (dispatch rounds o r)
  unfolding dispatch
  Serves-dispatch o r =
      search (Serves-if, Serves-keep, Serves-probe, Safe-register, Serves-other) depth 20

  -- Every IOCTL that returns has stored no more bytes than the output buffer holds; where it failed
  -- with ERROR_INVALID_PARAMETER it has not touched the chip, and the device and the open context
  -- are as they were.
  pub dispatch-IsServed :
      (o : Open) (r : Ioctl) (w : World) {w' : World} {a : Answer × Open}
      → dispatch rounds o r w ≡ done a w'
      → IsServed r.room o w a w'
  dispatch-IsServed o r w e = subst (Holds (IsServed r.room o w)) e ((Serves-dispatch o r).at w)

-- ===== src/Driver/Safety.antt =====
-- The IOCTLs of src/gpib/drv_ce.c, each by itself, in the terms of Driver.Answers.
use jornada_gpib.Prelude.{
  bits32, ℕ, zero, suc, ◌-◌, ◌≤◌, ◌≡◌, refl, Bool, true, false, not, ◌||◌, ◌==◌, ltb, leb, List, [],
  ◌∷◌, ◌++◌, length, length-append, take, drop, replicate, Option, none, some, ℤ, arith,
}
use jornada_gpib.Wire.{
  words, size_result, size_xfer, size_info, size_register_op, size_regs, size_raw_out,
  size_raw_result, size_lines, word_at, int_at,
}
use jornada_gpib.Chip.Io.{Io, M, pure, rd, wr}
use jornada_gpib.Chip.Status.{is_ok, Status}
use jornada_gpib.Chip.Reg
use jornada_gpib.Chip.Control.{snapshot, go_to_standby}
use jornada_gpib.Chip.Transfer
use jornada_gpib.Chip.Transfer.{transfer_out}
use jornada_gpib.Chip.Transfer.Received.{Yields-read}
use jornada_gpib.Chip.Results.{Yields, Yields-bind, Yields-after, Yields-pure, Yields-if}
use jornada_gpib.Controller.Ops
use jornada_gpib.Controller.Ops.{address_device, regain}
use jornada_gpib.Driver.State.{
  status_code, GpibDevice, answered, DriverStatus, is_ready, lacks_room, result_words,
  error_invalid_parameter,
}
use jornada_gpib.Driver.Ready.{if_ready, in_charge, ensure_cic, check_ready}
use jornada_gpib.Driver.Ioctls.{
  regs_fields, raw_out, read_data, word_of, ioctl_snapshot, raw_transfer, ioctl_read, ioctl_lines,
  ioctl_raw_out, gpib_cis_raw_max, gpib_window_bytes, max_xfer_inline, field_bytes, raw_len_of,
  size_cis, write_data, access_register, ioctl_get_info, bus_read, ioctl_cis, ioctl_write,
  ioctl_register, cis_bytes,
}
use jornada_gpib.Driver.Answers.{
  length-words, Works-answered, Works, Works-reply, Works-put_result, Safe-Yields, Safe-refused,
  Safe-if, Safe-with_input, Safe,
}

length-take-le : (n : ℕ) (xs : List ℕ) → length (take n xs) ≤ n
length-take-le zero xs = omega arith
length-take-le (suc n) [] = omega arith
length-take-le (suc n) (x ∷ xs) = omega (arith, length-take-le n xs)

cis-length : (d : GpibDevice) → length (cis_bytes d) ≤ size_cis
cis-length d = omega (
  arith,
  length-append
      (words (
        d.cis.tuples
        ∷ raw_len_of d.cis
        ∷ d.cis.manufacturer_id
        ∷ d.cis.card_id
        ∷ d.cis.function_type
        ∷ d.window_8bit_ok
        ∷ d.window_16bit_ok
        ∷ []))
      (field_bytes 128 d.cis.pnpid
        ++ field_bytes gpib_cis_raw_max (take (raw_len_of d.cis) d.cis.raw)),
  length-append (field_bytes 128 d.cis.pnpid)
      (field_bytes gpib_cis_raw_max (take (raw_len_of d.cis) d.cis.raw)),
  length-take-le 128 (d.cis.pnpid ++ replicate 128 0),
  length-take-le gpib_cis_raw_max
      (take (raw_len_of d.cis) d.cis.raw ++ replicate gpib_cis_raw_max 0),
)

module _ ⦃io : Io⦄ (rounds : ℕ) where
  pub Safe-info : (d : GpibDevice) (room : Option ℕ) → Safe room (pure (ioctl_get_info d room))
  unfolding ioctl_get_info
  Safe-info d room = Safe-Yields (Yields-pure _ (Works-reply room size_info _ (omega arith)))

  pub Safe-cis : (d : GpibDevice) (room : Option ℕ) → Safe room (pure (ioctl_cis d room))
  unfolding ioctl_cis
  Safe-cis d room = Safe-Yields (Yields-pure _ (Works-reply room size_cis _ (cis-length d)))

  pub Yields-read_from :
      (pad sad : ℤ) (cap : ℕ) → Yields (λ r. length r.1 ≤ cap) (Ops.read rounds pad sad cap)
  unfolding Ops.read
  Yields-read_from pad sad cap = Yields-after (address_device rounds pad sad true) _ (λ rc.
      Yields-if (not (is_ok rc)) _ _ (λ _. Yields-pure _ (omega arith))
        (λ _. Yields-after (go_to_standby rounds) _ (λ rc'.
          Yields-if (not (is_ok rc')) _ _ (λ _. Yields-pure _ (omega arith))
            (λ _.
              Yields-bind (Transfer.read rounds cap) _ (Yields-read rounds cap)
                (λ r got. Yields-after (regain rounds r.0) _ (λ last. Yields-pure _ got.fits))))))

  Yields-bus_read :
      (bytes : List ℕ) → Yields (λ r. length r.1.0 ≤ word_at bytes 3) (bus_read rounds bytes)
  unfolding bus_read
  Yields-bus_read bytes =
      Yields-bind _ _ (Yields-read_from (int_at bytes 0) (int_at bytes 1) (word_at bytes 3))
        (λ r h. Yields-pure _ h)

  Yields-if_ready :
      {A : Type 0} (P : A → Type 0) (rc : DriverStatus) (missing : A) (op : M (Status × A))
      → P missing
      → Yields (λ r. P r.1) op
      → Yields (λ r. P r.1) (if_ready rounds rc missing op)
  unfolding if_ready
  Yields-if_ready P rc missing op h k =
      Yields-if (not (is_ready rc)) _ _ (λ _. Yields-pure _ h)
        (λ _. Yields-bind op _ k (λ r p. Yields-pure _ p))

  pub Yields-in_charge :
      {A : Type 0} (P : A → Type 0) (d : GpibDevice) (missing : A) (op : M (Status × A))
      → P missing
      → Yields (λ r. P r.1) op
      → Yields (λ r. P r.1) (in_charge rounds d missing op)
  unfolding in_charge
  Yields-in_charge P d missing op h k =
      Yields-after (ensure_cic rounds d) _ (λ rc. Yields-if_ready P rc missing op h k)

  pub Safe-write :
      (d : GpibDevice) (input : Option (List ℕ)) (room : Option ℕ)
      → Safe room (ioctl_write rounds d input room)
  unfolding ioctl_write write_data
  Safe-write d input room = Safe-with_input input size_xfer error_invalid_parameter _ (λ bytes.
      Safe-if
        (ltb (length bytes - size_xfer) (word_at bytes 3) || ltb max_xfer_inline (word_at bytes 3))
        _ _ (λ _. Safe-refused error_invalid_parameter)
        (λ _. Safe-Yields (
          Yields-after (in_charge rounds d 0 _) _ (λ r.
            Yields-if (is_ready r.0) _ _ (λ _. Yields-pure _ (Works-put_result room r.0 r.1 0))
              (λ _.
                Yields-after snapshot _ (λ _. Yields-pure _ (Works-put_result room r.0 r.1 0)))))))

  -- The answer of a read that goes ahead: a header and the bytes read.
  Works-read :
      (n cap : ℕ) (rc : DriverStatus) (got : List ℕ × Bool)
      → (ltb n size_result || ltb (n - size_result) cap || ltb max_xfer_inline cap) ≡ false
      → length got.0 ≤ cap
      → Works (some n) (answered (result_words rc (length got.0) (word_of got.1) ++ got.0))
  Works-read n cap rc got h k = record { fits = ground (arith, h, k); other = refl }

  pub Safe-read :
      (d : GpibDevice) (input : Option (List ℕ)) (room : Option ℕ)
      → Safe room (ioctl_read rounds d input room)
  unfolding ioctl_read read_data
  Safe-read d input none = Safe-refused error_invalid_parameter
  Safe-read d input (some n) = Safe-with_input input size_xfer error_invalid_parameter _ (λ bytes.
      Safe-if
        (ltb n size_result
          || ltb (n - size_result) (word_at bytes 3)
          || ltb max_xfer_inline (word_at bytes 3))
        _ _ (λ _. Safe-refused error_invalid_parameter)
        (λ h. Safe-Yields (
          Yields-bind _ _
            (Yields-in_charge (λ got. length got.0 ≤ word_at bytes 3) d ([], false)
              (bus_read rounds bytes) (omega arith) (Yields-bus_read bytes))
            (λ r k. Yields-pure _ (Works-read n (word_at bytes 3) r.0 r.1 h k)))))

  -- With room for the answer, the rest of a condition aside.
  Works-both :
      (room : Option ℕ) (n : ℕ) (p q : Bool) (bytes : List ℕ)
      → (lacks_room room n || p || q) ≡ false
      → length bytes ≤ n
      → Works room (answered bytes)
  Works-both room n p q bytes h k = Works-answered room bytes n (ground (arith, h)) k

  Works-room :
      (room : Option ℕ) (n : ℕ) (rest : Bool) (bytes : List ℕ)
      → (lacks_room room n || rest) ≡ false
      → length bytes ≤ n
      → Works room (answered bytes)
  Works-room room n rest bytes h k = Works-answered room bytes n (ground (arith, h)) k

  pub Safe-register :
      (d : GpibDevice) (input : Option (List ℕ)) (room : Option ℕ)
      → Safe room (ioctl_register rounds d input room)
  unfolding ioctl_register access_register
  Safe-register d input room =
      Safe-with_input input size_register_op error_invalid_parameter _ (λ bytes.
        Safe-if
          (lacks_room room size_register_op
            || not d.card_present
            || leb gpib_window_bytes (word_at bytes 1))
          _ _ (λ _. Safe-refused error_invalid_parameter)
          (λ h. Safe-Yields (
            Yields-if (word_at bytes 0 == 1) _ _
              (λ _. Yields-after (wr (word_at bytes 1) (word_at bytes 2)) _ (λ _. Yields-pure _ (
                Works-both room size_register_op _ _
                  (words (word_at bytes 0 ∷ word_at bytes 1 ∷ word_at bytes 2 ∷ [])) h
                  (omega arith))))
              (λ _. Yields-after (rd (word_at bytes 1)) _ (λ v. Yields-pure _ (
                Works-both room size_register_op _ _
                  (words (word_at bytes 0 ∷ word_at bytes 1 ∷ v ∷ [])) h (omega arith)))))))

  pub Safe-snapshot : (d : GpibDevice) (room : Option ℕ) → Safe room (ioctl_snapshot rounds d room)
  unfolding ioctl_snapshot
  Safe-snapshot d room =
      Safe-if (lacks_room room size_regs || not d.card_present) _ _
        (λ _. Safe-refused error_invalid_parameter)
        (λ h. Safe-Yields (
          Yields-after snapshot _ (λ r.
            Yields-pure _ (Works-room room size_regs _ (words (regs_fields r)) h (omega arith)))))

  pub Safe-lines : (d : GpibDevice) (room : Option ℕ) → Safe room (ioctl_lines rounds d room)
  unfolding ioctl_lines
  Safe-lines d room =
      Safe-if (lacks_room room size_lines || not d.card_present) _ _
        (λ _. Safe-refused error_invalid_parameter)
        (λ h. Safe-Yields (
          Yields-after (rd Reg.bsr) _ (λ a. Yields-after (rd Reg.adsr) _ (λ b.
            Yields-after (rd Reg.sts1) _ (λ c. Yields-after (rd Reg.sts2) _ (λ e.
              Yields-pure _
                (Works-room room size_lines _ (words (a ∷ b ∷ c ∷ e ∷ [])) h (omega arith))))))))

  Yields-raw_transfer :
      (buf : List ℕ) (flags : ℕ) → Yields (λ r. length r.1.1 ≡ 22) (raw_transfer rounds buf flags)
  unfolding raw_transfer
  Yields-raw_transfer buf flags = Yields-after snapshot _ (λ a.
      Yields-after (transfer_out rounds buf flags) _ (λ r.
        Yields-after snapshot _
          (λ b. Yields-pure (r.0, (r.1, regs_fields a ++ regs_fields b)) refl)))

  pub Safe-raw_out :
      (d : GpibDevice) (input : Option (List ℕ)) (room : Option ℕ)
      → Safe room (ioctl_raw_out rounds d input room)
  unfolding ioctl_raw_out raw_out
  Safe-raw_out d input room = Safe-with_input input size_raw_out error_invalid_parameter _ (λ bytes.
      Safe-if
        (lacks_room room size_raw_result
          || ltb (length bytes - size_raw_out) (word_at bytes 1)
          || ltb max_xfer_inline (word_at bytes 1))
        _ _ (λ _. Safe-refused error_invalid_parameter)
        (λ h. Safe-Yields (
          Yields-bind _ _
            (Yields-if_ready (λ r. length r.1 ≡ 22) (check_ready d) (0, replicate 22 0) _ refl
              (Yields-raw_transfer (take (word_at bytes 1) (drop size_raw_out bytes))
                (word_at bytes 0)))
            (λ r k. Yields-pure _ (
              Works-both room size_raw_result _ _ (words (bits32 (status_code r.0) ∷ r.1.0 ∷ r.1.1))
                h (omega (arith, k, length-words (bits32 (status_code r.0) ∷ r.1.0 ∷ r.1.1))))))))

-- ===== src/Driver/Accepts/Library.antt =====
-- The client library, src/gpibapi/ib.c, over the driver, src/gpib/drv_ce.c.
use jornada_gpib.Api.Session.{Call, run_all}
use jornada_gpib.Api.State.{Event, Os, initial}
use jornada_gpib.Prelude.{
  get_elem?, ℕ, zero, suc, ◌≡◌, true, ◌==◌, List, [], ◌∷◌, Option, some, arith,
}
use jornada_gpib.Wire
use jornada_gpib.Wire.{
  word_at, int_at, size_result, size_xfer, size_config, size_info, size_lines, size_address,
}
use jornada_gpib.Chip.Io.{Io, World, done}
use jornada_gpib.Chip.Results.{Yields, Yields-pure, Yields-if, Yields-done}
use jornada_gpib.Controller.Ops
use jornada_gpib.Driver.State.{Open, Answer}
use jornada_gpib.Driver.Ready.{bare}
use jornada_gpib.Driver.Ioctls.{ioctl_get_info}
use jornada_gpib.Driver.Dispatch.{other_ioctl, dispatch}
use jornada_gpib.Api.State.{asked}
use jornada_gpib.Api.Proper.Kept.{run_all-proper}
use jornada_gpib.Api.Proper.{proper, all_proper}
use jornada_gpib.Controller.Ops.{serial_poll, pass_control, local, trigger}
use jornada_gpib.Driver.Accepts.{
  allowed, allowed_at, Good, Yields-keep, Yields-info, Yields-set_config, Yields-write, Yields-read,
  Yields-lines, Yields-switch, Yields-address, Yields-ifc, Yields-lockout,
}

module _ ⦃io : Io⦄ (rounds : ℕ) where
  Yields-other :
      (o : Open) (code : ℕ) (input : Option (List ℕ)) (room : ℕ)
      → o.dev.card_present ≡ true
      → proper (asked code input room) ≡ true
      → allowed code input ≡ true
      → Yields
          (λ r. Good r.0)
          (other_ioctl rounds o (record { code = code; input = input; room = some room }))
  unfolding other_ioctl proper
  Yields-other o code input room c h k =
      Yields-if (code == Wire.ioctl_gpib_get_info) _ _
        (λ e.
          Yields-pure (ioctl_get_info o.dev (some room), o)
            (Yields-info rounds o.dev room (ground (arith, e, h))))
        (λ n0.
          Yields-if (code == Wire.ioctl_gpib_set_config) _ _
            (λ e.
              Yields-set_config rounds o input (ground (arith, e, h)) (allowed_at code _ input e k))
            (λ n1.
              Yields-if (code == Wire.ioctl_gpib_set_device) _ _
                (λ e. absurd (ground (arith, e, h)))
                (λ n2.
                  Yields-if (code == Wire.ioctl_gpib_ifc) _ _
                    (λ e. Yields-keep o _ (Yields-ifc rounds o.dev room (ground (arith, e, h))))
                    (λ n3.
                      Yields-if (code == Wire.ioctl_gpib_ren) _ _
                        (λ e. Yields-keep o _ (
                          Yields-switch rounds o.dev input room Ops.remote_enable
                            (ground (arith, e, h)) (ground (arith, e, h))))
                        (λ n4.
                          Yields-if (code == Wire.ioctl_gpib_lines) _ _
                            (λ e.
                              Yields-keep o _
                                (Yields-lines rounds o.dev room c (ground (arith, e, h))))
                            (λ n5.
                              Yields-if (code == Wire.ioctl_gpib_write) _ _
                                (λ e. Yields-keep o _ (
                                  Yields-write rounds o.dev input room (ground (arith, e, h))
                                    (ground (arith, e, h)) (allowed_at code _ input e k)))
                                (λ n6.
                                  Yields-if (code == Wire.ioctl_gpib_read) _ _
                                    (λ e. Yields-keep o _ (
                                      Yields-read rounds o.dev input room (ground (arith, e, h))
                                        (ground (arith, e, h)) (allowed_at code _ input e k)))
                                    (λ n7.
                                      Yields-if (code == Wire.ioctl_gpib_command) _ _
                                        (λ e. absurd (ground (arith, e, h)))
                                        (λ n8.
                                          Yields-if (code == Wire.ioctl_gpib_clear) _ _
                                            (λ e. Yields-keep o _ (
                                              Yields-address rounds o.dev input room
                                                (λ pad sad. bare (Ops.clear rounds pad sad))
                                                (ground (arith, e, h)) (ground (arith, e, h))))
                                            (λ n9.
                                              Yields-if (code == Wire.ioctl_gpib_trigger) _ _
                                                (λ e. Yields-keep o _ (
                                                  Yields-address rounds o.dev input room
                                                    (λ pad sad. bare (trigger rounds pad sad))
                                                    (ground (arith, e, h)) (ground (arith, e, h))))
                                                (λ n10.
                                                  Yields-if (code == Wire.ioctl_gpib_local) _ _
                                                    (λ e. Yields-keep o _ (
                                                      Yields-address rounds o.dev input room
                                                        (λ pad sad. bare (local rounds pad sad))
                                                        (ground (arith, e, h))
                                                        (ground (arith, e, h))))
                                                    (λ n11.
                                                      Yields-if
                                                        (code == Wire.ioctl_gpib_pass_control) _ _
                                                        (λ e. Yields-keep o _ (
                                                          Yields-address rounds o.dev input room
                                                            (λ pad sad.
                                                            bare (pass_control rounds pad))
                                                            (ground (arith, e, h))
                                                            (ground (arith, e, h))))
                                                        (λ n12.
                                                          Yields-if
                                                            (code == Wire.ioctl_gpib_local_lockout)
                                                            _ _
                                                            (λ e. Yields-keep o _ (
                                                            Yields-lockout rounds o.dev room
                                                            (ground (arith, e, h))))
                                                            (λ n13.
                                                            Yields-if
                                                            (code == Wire.ioctl_gpib_serial_poll) _
                                                            _
                                                            (λ e. Yields-keep o _ (
                                                            Yields-address rounds o.dev input room
                                                            (λ pad sad. serial_poll rounds pad sad)
                                                            (ground (arith, e, h))
                                                            (ground (arith, e, h))))
                                                            (λ n14.
                                                            Yields-if (code == Wire.ioctl_gpib_cis)
                                                            _ _ (λ e. absurd (ground (arith, e, h)))
                                                            (λ n15.
                                                            Yields-if
                                                            (code == Wire.ioctl_gpib_snapshot) _ _
                                                            (λ e. absurd (ground (arith, e, h)))
                                                            (λ n16.
                                                            Yields-if
                                                            (code == Wire.ioctl_gpib_raw_out) _ _
                                                            (λ e. absurd (ground (arith, e, h)))
                                                            (λ n17.
                                                            Yields-if (code == Wire.ioctl_gpib_atn)
                                                            _ _ (λ e. absurd (ground (arith, e, h)))
                                                            (λ n18. absurd (
                                                            ground (
                                                            arith, h, n0, n1, n2, n3, n4, n5, n6,
                                                            n7, n8, n9, n10, n11, n12, n13, n14,
                                                            n15, n16, n17, n18,
                                                            )))))))))))))))))))))

  Yields-dispatch :
      (o : Open) (code : ℕ) (input : Option (List ℕ)) (room : ℕ)
      → o.dev.card_present ≡ true
      → proper (asked code input room) ≡ true
      → allowed code input ≡ true
      → Yields
          (λ r. Good r.0)
          (dispatch rounds o (record { code = code; input = input; room = some room }))
  unfolding dispatch proper
  Yields-dispatch o code input room c h k =
      Yields-if (code == Wire.ioctl_gpib_probe) _ _ (λ e. absurd (ground (arith, e, h)))
        (λ _.
          Yields-if (code == Wire.ioctl_gpib_register) _ _ (λ e. absurd (ground (arith, e, h)))
            (λ _. Yields-other o code input room c h k))

proper-at :
    (log : List Event) (i : ℕ) (e : Event)
    → all_proper log ≡ true
    → get_elem? log i ≡ some e
    → proper e ≡ true
unfolding all_proper
proper-at [] i e h k = absurd (cc)
proper-at (x ∷ log) zero e h k = let p : proper x ≡ true = ground (arith, h) in cc
proper-at (x ∷ log) (suc i) e h k = proper-at log i e (ground (arith, h)) k

-- The library over the driver: whatever calls a program makes and whatever the system answered so
-- far, every IOCTL of the library returns TRUE if it returns, where a card is present, a transfer is
-- of at most MAX_XFER_INLINE bytes, and a configuration has valid addresses.
pub dispatch-run_all :
    ⦃os : Os⦄ ⦃io : Io⦄ (rounds : ℕ) (cs : List Call) (i code : ℕ) (input : Option (List ℕ))
    (room : ℕ) (o : Open) (w : World) {w' : World} {a : Answer × Open}
    → get_elem? (run_all cs initial).1.log i ≡ some (asked code input room)
    → o.dev.card_present ≡ true
    → allowed code input ≡ true
    → dispatch rounds o (record { code = code; input = input; room = some room }) w ≡ done a w'
    → a.0.good ≡ true
dispatch-run_all rounds cs i code input room o w h c k e =
    Yields-done
      (Yields-dispatch rounds o code input room c
        (proper-at (run_all cs initial).1.log i (asked code input room) (run_all-proper cs) h) k)
      e

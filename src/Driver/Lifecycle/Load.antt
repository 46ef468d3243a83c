-- ===== src/Driver/Lifecycle/Load.antt =====
-- The load of src/gpib/drv_ce.c and what it holds, wherever it fails.
use jornada_gpib.Prelude.{
  ℕ, ◌≡◌, refl, Bool, true, false, not, if◌then◌else◌, [], ◌∷◌, some, Bool-cases, Option-cases, inl,
  inr, arith,
}
use jornada_gpib.Driver.Window.{Window, pick_io_window}
use jornada_gpib.Cis.Walk.{cis_capture_socket}
use jornada_gpib.Driver.Lifecycle.{
  settle, Cis, Request, allocates, creates_lock, reads_registry, binds, registers, resets,
  requests_window, maps, Requests, System, Loading, K, give, is_set, no_card, request_window,
  configure_card, chip_bringup, with_window, with_client, steps, bringup, gpb_deinit,
}
use jornada_gpib.Driver.Lifecycle.Held.{
  held, base, with_registered, with_granted, with_configured, fields_hold, unload-held,
}

module _ ⦃system : System⦄ where
  configure_card-held :
      (s : Loading)
      → held s.log ≡ some (with_granted s.card)
      → s.card.chip_ok ≡ false
      → (held (configure_card s).1.log ≡ some (with_configured (configure_card s).1.card))
        × ((configure_card s).1.card.chip_ok ≡ false)
  unfolding configure_card held
  configure_card-held s h e = (ground (arith, h), e)

  chip_bringup-held :
      (s : Loading)
      → held s.log ≡ some (with_configured s.card)
      → held (chip_bringup s).1.log ≡ some (fields_hold (chip_bringup s).1.card)
  unfolding chip_bringup held
  chip_bringup-held s h = ground (arith, h)

  -- Of a device on which nothing of the chip and the configuration is set yet.
  with_window-held :
      (w : Window) (s : Loading)
      → held s.log ≡ some (with_granted s.card)
      → s.card.configured ≡ false
      → s.card.chip_ok ≡ false
      → held (with_window w s).1.log ≡ some (fields_hold (with_window w s).1.card)
  unfolding with_window held
  with_window-held w s h e f =
      let s1 : Loading = record s { log = (resets, system.answers s.log resets) ∷ s.log } in
      let ask : Request = maps w.io_base w.io_length in
      let io : ℕ = system.answers s1.log ask in
      let s2 : Loading = record s1 { log = (ask, io) ∷ s1.log } in
      let before : held s2.log ≡ some (with_granted s.card) = ground (arith, h) in
      let (next, off) = configure_card-held s2 before f in
      elim (Bool-cases (is_set io)) [
        | inr no_io ↦ ground (arith, no_io, before, e, f)
        | inl mapped ↦ elim (Bool-cases (configure_card s2).0) [
          | inr refused ↦ ground (arith, mapped, refused, next, off)
          | inl good ↦ ground (arith, mapped, good, chip_bringup-held (configure_card s2).1 next)
        ]
      ]

  request_window-held :
      (w : Window) (s : Loading)
      → held s.log ≡ some (with_registered s.card)
      → s.card.window ≡ 0
      → held (request_window w s).1.log ≡ some (with_granted (request_window w s).1.card)
  unfolding request_window held
  request_window-held w s h e =
      elim (Bool-cases (is_set (system.answers s.log (requests_window true w.io_length)))) [
        | inl wide ↦ ground (arith, wide, h)
        | inr no_wide ↦ ground (arith, no_wide, h)
      ]

  request_window-off :
      (w : Window) (s : Loading)
      → s.card.configured ≡ false
      → s.card.chip_ok ≡ false
      → ((request_window w s).1.card.configured ≡ false)
        × ((request_window w s).1.card.chip_ok ≡ false)
        × ((request_window w s).0 ≡ is_set (request_window w s).1.card.window)
  unfolding request_window
  request_window-off w s e f =
      elim (Bool-cases (is_set (system.answers s.log (requests_window true w.io_length)))) [
        | inl wide ↦ ground (arith, wide, e, f)
        | inr no_wide ↦ ground (arith, no_wide, e, f)
      ]

  with_client-held :
      (s : Loading)
      → held s.log ≡ some (with_registered s.card)
      → s.card.window ≡ 0
      → s.card.configured ≡ false
      → s.card.chip_ok ≡ false
      → held (with_client s).1.log ≡ some (fields_hold (with_client s).1.card)
  unfolding with_client
  with_client-held s h no_window e f =
      let cis : Cis = (cis_capture_socket system.tuples).0 in
      let s0 : Loading = record s { card = record s.card { cis = cis } } in
      elim (Option-cases (pick_io_window system.parsed system.entries)) [
        | inl none' ↦ ground (arith, none', h, no_window, e, f)
        | inr (w, picked) ↦
            let asked = request_window-held w s0 h no_window in
            let (e', f', g) = request_window-off w s0 e f in
            elim (Bool-cases (request_window w s0).0) [
              | inr refused ↦ ground (arith, picked, refused, asked, e', f')
              | inl granted ↦
                  ground
                    (arith, picked, granted, with_window-held w (request_window w s0).1 asked e' f')
            ]
      ]

  steps-held :
      (log : Requests)
      → held log ≡ some base
      → held (steps (record { card = no_card; log = log })).1.log
        ≡ some (fields_hold (steps (record { card = no_card; log = log })).1.card)
  unfolding steps held
  steps-held log h =
      let socket : ℕ = system.answers log reads_registry in
      let log1 : Requests = (reads_registry, socket) ∷ log in
      let loaded : ℕ = system.answers log1 binds in
      let log2 : Requests = (binds, loaded) ∷ log1 in
      let handle : ℕ = system.answers log2 registers in
      let s3 : Loading = record {
        card = record no_card { bound = is_set loaded; card_present = true; client = handle };
        log = (registers, handle) ∷ log2;
      } in
      elim (Bool-cases (is_set socket)) [
        | inr no_socket ↦ ground (arith, no_socket, h)
        | inl yes_socket ↦ elim (Bool-cases (is_set loaded)) [
          | inr no_library ↦ ground (arith, yes_socket, no_library, h)
          | inl yes_library ↦ elim (Bool-cases (is_set handle)) [
            | inr no_client ↦ ground (arith, yes_socket, yes_library, no_client, h)
            | inl yes_client ↦
                let before : held s3.log ≡ some (with_registered s3.card) =
                  ground (arith, yes_library, yes_client, h) in
                ground (
                  arith,
                  yes_socket,
                  yes_library,
                  yes_client,
                  with_client-held s3 before refl refl refl,
                )
          ]
        ]
      ]

  -- What is held after a load, and after the unload that follows it.
  abbrev pub IsBalanced : Bool × Loading → Type 0
  IsBalanced r =
      (held r.1.log ≡ some (if r.0 then fields_hold r.1.card else []))
      × (held (gpb_deinit r.0 r.1).1.log ≡ some [])

  -- Of a load whose steps are done, well or not.
  settle-IsBalanced :
      (good : Bool) (s : Loading)
      → held s.log ≡ some (fields_hold s.card)
      → IsBalanced (settle good s)
  unfolding settle gpb_deinit
  settle-IsBalanced true s h = (h, unload-held s h)
  settle-IsBalanced false s h = (unload-held s h, unload-held s h)

  guarded-IsBalanced :
      (got : Bool) (rest : K Bool) (s : Loading)
      → (got ≡ true → IsBalanced (rest s))
      → (got ≡ false → held s.log ≡ some [])
      → IsBalanced ((if not got then give false else rest) s)
  unfolding gpb_deinit
  guarded-IsBalanced true rest s h k = h refl
  guarded-IsBalanced false rest s h k = (k refl, k refl)

  -- A load that fails has given back all that it took, in the opposite order, wherever it fails; one
  -- that succeeds holds what the device's fields say, and unloading the device gives all of it back
  -- in this way. Nothing is held before.
  pub bringup-IsBalanced : (s : Loading) → held s.log ≡ some [] → IsBalanced (bringup s)
  unfolding bringup held
  bringup-IsBalanced s h =
      let a : ℕ = system.answers s.log allocates in
      let log1 : Requests = (allocates, a) ∷ s.log in
      let log2 : Requests = (creates_lock, system.answers log1 creates_lock) ∷ log1 in
      let s2 : Loading = record { card = no_card; log = log2 } in
      guarded-IsBalanced (is_set a) _ (record s { log = log1 })
        (λ memory'.
          settle-IsBalanced (steps s2).0 (steps s2).1
            (steps-held log2 (ground (arith, memory', h))))
        (λ no_memory. ground (arith, no_memory, h))

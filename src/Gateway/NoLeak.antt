-- ===== src/Gateway/NoLeak.antt =====
-- The whole service of src/gpibsrv/gpibsrv.c and the descriptors in use.
use jornada_gpib.Prelude.{
  ℕ, zero, suc, ◌≡◌, refl, ◌∙◌, ap, Bool, true, ◌&&◌, not, bit_or, ◌%◌, ◌++◌, length, take, drop,
  if◌then◌else◌, List, [], ◌∷◌, set, get_elem?, Option, none, some, ℤ, pos, negsuc, has, arith,
  Option-cases, Bool-cases, inl, inr,
}
use jornada_gpib.Api.Codes.{ib_err, ib_reos, ib_bin, ib_no_sad}
use jornada_gpib.Api.State.{Device, Api, device, fail, ok, Os}
use jornada_gpib.Api.Transfers.{configure, ibeos, ibwrt, ibrsp}
use jornada_gpib.Api.Unchanged.{
  ibclr-Leaves, ibtrg-Leaves, ibloc-Leaves, ibllo-Leaves, ibsic-Leaves, iblines-Leaves,
  ioctl-Leaves, ibrsp-Leaves, ibrd-Leaves, ibwrt-Leaves,
}
use jornada_gpib.Gateway.State.{line_max, Gateway, Net, G, ◌>>=◌, give, gateway, library, status}
use jornada_gpib.Gateway.Sockets.{send, after_send, send_loop, send_all, send_text, send_number}
use jornada_gpib.Gateway.Transfers.{
  open_target, read_once, read_loop, do_read, do_write, terminator, is_query,
}
use jornada_gpib.Gateway.Commands.{
  between, setting, on_target, spoll, stb_of, read_command, show_lines, quit, bus_command,
  controller_command, handle_text, handle_line,
}
use jornada_gpib.Gateway.Table.{
  in_uses, get-in_uses, in_uses-set, Balanced, Balanced-bind, Balanced-if, Balanced-give,
  Balanced-status, Balanced-update, Balanced-library, balanced,
}
use jornada_gpib.Gateway.Descriptors.{around-Balanced}

set-same : {A : Type 0} (xs : List A) (n : ℕ) {y : A} → get_elem? xs n ≡ some y → set xs n y ≡ xs
set-same [] n e = cc
set-same (x ∷ xs) zero e = cc
set-same (x ∷ xs) (suc n) e = rw (set-same xs n e) refl

-- A change of settings that does not close a descriptor.
configure-in_uses :
    (ud : ℤ) (f : Device → Device) (s : Api)
    → ((d : Device) → (f d).in_use ≡ d.in_use)
    → in_uses (configure ud f s).1.devices ≡ in_uses s.devices
unfolding configure device fail ok
configure-in_uses (negsuc n) f s h = refl
configure-in_uses (pos n) f s h = elim (Option-cases (get_elem? s.devices n)) [
  | inl e ↦ ground (arith, e)
  | inr (d, e) ↦
      let same : in_uses (set s.devices n (f d)) ≡ in_uses s.devices =
        in_uses-set s.devices n (f d)
        ∙ ap (λ b. set (in_uses s.devices) n b) (h d)
        ∙ set-same (in_uses s.devices) n (get-in_uses s.devices n e) in
      elim (Bool-cases d.in_use) [
        | inl u ↦ ground (arith, e, u, same)
        | inr u ↦ ground (arith, e, u)
      ]
]

Balanced-ibeos : (ud : ℤ) (v : ℕ) → Balanced (library (ibeos ud v))
unfolding library ibeos
Balanced-ibeos ud v = record {
  at = λ s full. configure-in_uses ud (λ d. record d { eos = v }) s.api (λ d. refl);
}

Balanced-after_send :
    (n : ℤ) (rest : ℕ → G (Unit {0})) → ((k : ℕ) → Balanced (rest k)) → Balanced (after_send n rest)
Balanced-after_send (negsuc m) rest h = Balanced-give tt
Balanced-after_send (pos zero) rest h = Balanced-give tt
Balanced-after_send (pos (suc k)) rest h = h k

module _ ⦃net : Net⦄ where
  Balanced-send : (bytes : List ℕ) → Balanced (send bytes)
  unfolding send
  Balanced-send bytes = record { at = λ s full. refl }

  Balanced-send_loop : (rounds : ℕ) (bytes : List ℕ) → Balanced (send_loop rounds bytes)
  unfolding send_loop
  Balanced-send_loop rounds [] = search balanced
  Balanced-send_loop zero (b ∷ bs) = search balanced
  Balanced-send_loop (suc rounds) (b ∷ bs) =
      Balanced-bind _ _ (Balanced-send (b ∷ bs))
        (λ n. Balanced-after_send n _ (λ k. Balanced-send_loop rounds (drop k bs)))

  Balanced-send_text : (bytes : List ℕ) → Balanced (send_text bytes)
  unfolding send_text send_all
  Balanced-send_text bytes = Balanced-send_loop _ _

  Balanced-send_number : (v : ℤ) → Balanced (send_number v)
  unfolding send_number
  Balanced-send_number v = Balanced-send_text _

module _ ⦃os : Os⦄ ⦃net : Net⦄ where
  Balanced-read_once : (ud : ℤ) → Balanced (read_once ud)
  unfolding read_once
  Balanced-read_once ud = search (balanced, ibrd-Leaves) depth 30

  Balanced-read_loop : (rounds : ℕ) (ud : ℤ) → Balanced (read_loop rounds ud)
  unfolding read_loop send_all
  Balanced-read_loop zero ud = search balanced
  Balanced-read_loop (suc rounds) ud =
      search (balanced, Balanced-send_loop, Balanced-read_once, Balanced-read_loop rounds) depth 30

  Balanced-do_read : (rounds : ℕ) (eos_byte : Option ℕ) → Balanced (do_read rounds eos_byte)
  unfolding do_read open_target gateway library give
  Balanced-do_read rounds none = record {
    at = λ s full.
        (around-Balanced s.gw.pad s.gw.sad s.gw.eoi (read_loop rounds) (λ t. give tt)
            (Balanced-read_loop rounds) (λ t. Balanced-give tt)).at
          s full;
  }
  Balanced-do_read rounds (some b) = record {
    at = λ s full.
        (around-Balanced s.gw.pad s.gw.sad s.gw.eoi
            (λ ud. library (ibeos ud (bit_or (bit_or ib_reos ib_bin) (b % 256))) >>= λ t.
              read_loop rounds ud)
            (λ t. give tt)
            (λ ud. Balanced-bind _ _ (Balanced-ibeos ud _) (λ t. Balanced-read_loop rounds ud))
            (λ t. Balanced-give tt)).at
          s full;
  }

  Balanced-do_write : (rounds : ℕ) (line : List ℕ) → Balanced (do_write rounds line)
  unfolding do_write open_target gateway library status give
  Balanced-do_write rounds line = record {
    at = λ s full.
        let bytes : List ℕ = take line_max line in
        let out : List ℕ = bytes ++ terminator s.gw.eos in
        (around-Balanced s.gw.pad s.gw.sad s.gw.eoi
            (λ ud. library (ibwrt ud (some out) (pos (length out))) >>= λ t. status)
            (λ after.
              if not (has after.ibsta ib_err) && s.gw.auto_read && is_query bytes
              then do_read rounds none
              else give tt)
            (λ ud.
              Balanced-bind _ _ (Balanced-library _ (ibwrt-Leaves ud out _)) (λ t. Balanced-status))
            (λ after. Balanced-if _ _ _ (Balanced-do_read rounds none) (Balanced-give tt))).at
          s full;
  }

  Balanced-setting :
      (good : Bool) (store' : Gateway → Gateway) (shown : Gateway → ℤ)
      → Balanced (setting good store' shown)
  unfolding setting
  Balanced-setting good store' shown = search (balanced, Balanced-send_number)

  Balanced-on_target :
      (call : ℤ → G ℕ) → ((ud : ℤ) → Balanced (call ud)) → Balanced (on_target call)
  unfolding on_target open_target gateway
  Balanced-on_target call h = record {
    at = λ s full.
        (around-Balanced s.gw.pad s.gw.sad s.gw.eoi call (λ n. give tt) h
            (λ n. Balanced-give tt)).at
          s full;
  }

  Balanced-spoll : (n : ℤ × Bool) → Balanced (spoll n)
  unfolding spoll gateway library status give
  Balanced-spoll (v, any) = record {
    at = λ s full.
        (around-Balanced {A = (ℕ × Option ℕ) × Api} (if any && between 0 30 v then v else s.gw.pad)
            ib_no_sad true
            (λ ud. library (ibrsp ud true) >>= λ r. status >>= λ after. give (r, after))
            (λ p. if has p.1.ibsta ib_err then give tt else send_number (stb_of p.0.1))
            (λ ud.
              Balanced-bind _ _ (Balanced-library _ (ibrsp-Leaves ud))
                (λ r. Balanced-bind _ _ Balanced-status (λ after. Balanced-give (r, after))))
            (λ p. Balanced-if _ _ _ (Balanced-give tt) (Balanced-send_number _))).at
          s full;
  }

  Balanced-show_lines : (shown : ℕ → ℤ) → Balanced (show_lines shown)
  unfolding show_lines
  Balanced-show_lines shown = search (balanced, iblines-Leaves, Balanced-send_number)

  Balanced-read_command : (rounds : ℕ) (arg : List ℕ) → Balanced (read_command rounds arg)
  unfolding read_command
  Balanced-read_command rounds [] = Balanced-do_read rounds none
  Balanced-read_command rounds (c ∷ cs) = search (balanced, Balanced-do_read)

  Balanced-quit : Balanced quit
  unfolding quit
  Balanced-quit = record { at = λ s full. refl }

  Balanced-bus_command : (cmd arg : List ℕ) → Balanced (bus_command cmd arg)
  unfolding bus_command
  Balanced-bus_command cmd arg =
      search
        (
          balanced, Balanced-on_target, Balanced-spoll, Balanced-show_lines, Balanced-send_text,
          Balanced-quit, ibclr-Leaves, ibtrg-Leaves, ibloc-Leaves, ibllo-Leaves, ibsic-Leaves,
          ioctl-Leaves,
        )
        depth 60

  Balanced-controller_command :
      (rounds : ℕ) (cmd : List ℕ) → Balanced (controller_command rounds cmd)
  unfolding controller_command
  Balanced-controller_command rounds cmd =
      search (balanced, Balanced-setting, Balanced-read_command, Balanced-bus_command) depth 40

  Balanced-handle_text : (rounds : ℕ) (line : List ℕ) → Balanced (handle_text rounds line)
  unfolding handle_text
  Balanced-handle_text rounds [] = Balanced-give tt
  Balanced-handle_text rounds (a ∷ []) = Balanced-do_write rounds (a ∷ [])
  Balanced-handle_text rounds (a ∷ b ∷ rest) =
      search (balanced, Balanced-controller_command, Balanced-do_write)

  pub handle_line-Balanced : (rounds : ℕ) (line : List ℕ) → Balanced (handle_line rounds line)
  unfolding handle_line
  handle_line-Balanced rounds line =
      Balanced-bind _ _ (Balanced-update _) (λ t. Balanced-handle_text rounds line)

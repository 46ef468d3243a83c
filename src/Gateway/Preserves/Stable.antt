-- ===== src/Gateway/Preserves/Stable.antt =====
-- What the commands of a client do to the settings of src/gpibsrv/gpibsrv.c.
use jornada_gpib.Prelude.{refl, ℕ, ◌≡◌, Bool, true, false, ◌&&◌, ◌==◌, gtz, List, [], ◌∷◌, ℤ}
use jornada_gpib.Api.State.{Os}
use jornada_gpib.Gateway.State.{Gateway, Net, G}
use jornada_gpib.Gateway.Words.{starts_with, c_string}
use jornada_gpib.Gateway.Literals.{word_quit}
use jornada_gpib.Gateway.Commands.{
  between, secondary_of, unsigned_of, quit, setting, on_target, spoll, read_command, show_lines,
  bus_command, controller_command, handle_text, handle_line,
}
use jornada_gpib.Gateway.Preserves.{
  Preserves, Preserves-bind, Preserves-if, Preserves-give, Preserves-gateway, Preserves-update,
  Preserves-send_text, Preserves-send_number, Preserves-open_at, Preserves-open_target,
  Preserves-do_read, Preserves-do_write, preserving,
}

-- `P` stays true under every change of the settings that the code makes, its guards included, with
-- the exception of ++quit.
pub record IsStable (P : Gateway → Type 0) : Type 0 where
  pub address :
      (g : Gateway) (v : ℤ) (secondary : ℤ × Bool)
      → between 0 30 v ≡ true
      → P g
      → P (record g { pad = v; sad = secondary_of secondary })
  pub auto : (g : Gateway) (b : Bool) → P g → P (record g { auto_read = b })
  pub eoi_set : (g : Gateway) (b : Bool) → P g → P (record g { eoi = b })
  pub eos_set : (g : Gateway) (v : ℤ) → between 0 3 v ≡ true → P g → P (record g { eos = v })
  pub timeout :
      (g : Gateway) (v : ℤ) → gtz v 0 ≡ true → P g → P (record g { read_tmo_ms = unsigned_of v })
  pub counted : (g : Gateway) (n : ℕ) → P g → P (record g { requests = n })

-- The line is ++quit.
unfoldable pub is_quit : List ℕ → Bool
is_quit [] = false
is_quit (a ∷ []) = false
is_quit (a ∷ b ∷ rest) = a == 0x2b && b == 0x2b && starts_with (c_string rest) word_quit

module _ {P : Gateway → Type 0} ⦃os : Os⦄ ⦃net : Net⦄ where
  Preserves-setting :
      (good : Bool) (store' : Gateway → Gateway) (shown : Gateway → ℤ)
      → (good ≡ true → (g : Gateway) → P g → P (store' g))
      → Preserves P (setting good store' shown)
  unfolding setting
  Preserves-setting good store' shown h =
      Preserves-if good _ _ (λ e. Preserves-update store' (h e))
        (λ e. Preserves-bind _ _ Preserves-gateway (λ g. Preserves-send_number (shown g)))

  Preserves-on_target :
      (call : ℤ → G ℕ) → ((ud : ℤ) → Preserves P (call ud)) → Preserves P (on_target call)
  unfolding on_target
  Preserves-on_target call h = search (preserving, Preserves-open_target, h) depth 30

  Preserves-spoll : (n : ℤ × Bool) → Preserves P (spoll n)
  unfolding spoll
  Preserves-spoll (v, any) = search (preserving, Preserves-open_at, Preserves-send_number) depth 30

  Preserves-show_lines : (shown : ℕ → ℤ) → Preserves P (show_lines shown)
  unfolding show_lines
  Preserves-show_lines shown = search (preserving, Preserves-send_number)

  Preserves-read_command : (rounds : ℕ) (arg : List ℕ) → Preserves P (read_command rounds arg)
  unfolding read_command
  Preserves-read_command rounds [] = search Preserves-do_read
  Preserves-read_command rounds (c ∷ cs) = search (preserving, Preserves-do_read)

  Preserves-quit : ((g : Gateway) → P g → P (record g { stop = true })) → Preserves P quit
  unfolding quit
  Preserves-quit h = record { at = λ s p. h s.gw p }

  -- `quits` is about ++quit.
  Preserves-bus_command :
      (cmd arg : List ℕ)
      → (starts_with cmd word_quit ≡ true → (g : Gateway) → P g → P (record g { stop = true }))
      → Preserves P (bus_command cmd arg)
  unfolding bus_command
  Preserves-bus_command cmd arg quits =
      search
        (
          preserving, Preserves-on_target, Preserves-spoll, Preserves-show_lines,
          Preserves-send_text, Preserves-quit, quits,
        )
        depth 60

  address_if :
      (any : Bool) (v : ℤ) (secondary : ℤ × Bool)
      → IsStable P
      → any && between 0 30 v ≡ true
      → (g : Gateway) → P g
      → P (record g { pad = v; sad = secondary_of secondary })
  address_if true v secondary stable e g p = stable.address g v secondary e p
  address_if false v secondary stable e g p = cc

  eos_if :
      (any : Bool) (v : ℤ)
      → IsStable P
      → any && between 0 3 v ≡ true
      → (g : Gateway) → P g
      → P (record g { eos = v })
  eos_if true v stable e g p = stable.eos_set g v e p
  eos_if false v stable e g p = cc

  timeout_if :
      (any : Bool) (v : ℤ)
      → IsStable P
      → any && gtz v 0 ≡ true
      → (g : Gateway) → P g
      → P (record g { read_tmo_ms = unsigned_of v })
  timeout_if true v stable e g p = stable.timeout g v e p
  timeout_if false v stable e g p = cc

  Preserves-controller_command :
      (rounds : ℕ) (cmd : List ℕ)
      → IsStable P
      → (starts_with cmd word_quit ≡ true → (g : Gateway) → P g → P (record g { stop = true }))
      → Preserves P (controller_command rounds cmd)
  unfolding controller_command
  Preserves-controller_command rounds cmd stable quits =
      search
        (
          preserving, Preserves-setting, Preserves-read_command, Preserves-bus_command, quits,
          stable.auto, stable.eoi_set, address_if, eos_if, timeout_if,
        )
        depth 60

  Preserves-handle_text :
      (rounds : ℕ) (line : List ℕ)
      → IsStable P
      → (is_quit line ≡ true → (g : Gateway) → P g → P (record g { stop = true }))
      → Preserves P (handle_text rounds line)
  unfolding handle_text is_quit
  Preserves-handle_text rounds [] stable quits = Preserves-give tt
  Preserves-handle_text rounds (a ∷ []) stable quits = Preserves-do_write rounds (a ∷ [])
  Preserves-handle_text rounds (a ∷ b ∷ rest) stable quits =
      Preserves-if (a == 0x2b && b == 0x2b) _ _
        (λ e. Preserves-controller_command rounds _ stable (λ q. quits (rw (e, q) refl)))
        (λ e. Preserves-do_write rounds (a ∷ b ∷ rest))

  pub Preserves-handle_line :
      (rounds : ℕ) (line : List ℕ)
      → IsStable P
      → (is_quit line ≡ true → (g : Gateway) → P g → P (record g { stop = true }))
      → Preserves P (handle_line rounds line)
  unfolding handle_line
  Preserves-handle_line rounds line stable quits =
      Preserves-bind _ _ (Preserves-update _ (λ g p. stable.counted g _ p))
        (λ t. Preserves-handle_text rounds line stable quits)

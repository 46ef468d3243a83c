-- ===== src/Gateway/Preserves.antt =====
-- What the functions of src/gpibsrv/gpibsrv.c do to the settings: one rule for each way to build a
-- function, and for each function that leaves them alone.
pub mod Stable
use jornada_gpib.Prelude.{
  ◌%◌, ℕ, zero, suc, ◌≡◌, refl, Bool, true, false, if◌then◌else◌, List, [], ◌∷◌, Option, none, some,
  ℤ, pos, negsuc, length, drop,
}
use jornada_gpib.Api.State.{Os, C}
use jornada_gpib.Gateway.State.{
  Gateway, Net, Server, Run, done, busy, G, and_then, ◌>>=◌, give, waits, gateway, update, library,
  status,
}
use jornada_gpib.Gateway.Sockets.{after_send, send, send_loop, send_all, send_text, send_number}
use jornada_gpib.Gateway.Transfers.{
  read_once, open_at, open_target, store_read, buffered, read_loop, do_read, do_write,
}

abbrev pub server_of : {A : Type 0} → Run A → Server
server_of (done a s) = s
server_of (busy s) = s

-- Whether the function returns or not, `P` stays true of the settings.
pub record Preserves (P : Gateway → Type 0) {A : Type 0} (m : G A) : Type 0 where
  pub at : (s : Server) → P s.gw → P (server_of (m s)).gw

Preserves-then :
    {P : Gateway → Type 0} {A B : Type 0} (r : Run A) (f : A → G B)
    → P (server_of r).gw
    → ((a : A) → Preserves P (f a))
    → P (server_of (and_then r f)).gw
Preserves-then (done a u) f h k = (k a).at u h
Preserves-then (busy u) f h k = h

module _ {P : Gateway → Type 0} where
  pub Preserves-bind :
      {A B : Type 0} (first : G A) (rest : A → G B)
      → Preserves P first
      → ((a : A) → Preserves P (rest a))
      → Preserves P (first >>= rest)
  Preserves-bind first rest h k = record {
    at = λ s p. Preserves-then {P = P} (first s) rest (h.at s p) k;
  }

  pub Preserves-if :
      {A : Type 0} (test : Bool) (yes_part no_part : G A)
      → (test ≡ true → Preserves P yes_part)
      → (test ≡ false → Preserves P no_part)
      → Preserves P (if test then yes_part else no_part)
  Preserves-if false yes_part no_part h k = k refl
  Preserves-if true yes_part no_part h k = h refl

  pub Preserves-give : {A : Type 0} (a : A) → Preserves P (give a)
  unfolding give
  Preserves-give a = record { at = λ s p. p }

  pub Preserves-waits : {A : Type 0} → Preserves P (waits {A = A})
  unfolding waits
  Preserves-waits = record { at = λ s p. p }

  pub Preserves-gateway : Preserves P gateway
  unfolding gateway
  Preserves-gateway = record { at = λ s p. p }

  pub Preserves-status : Preserves P status
  unfolding status
  Preserves-status = record { at = λ s p. p }

  pub Preserves-library : {A : Type 0} (m : C A) → Preserves P (library m)
  unfolding library
  Preserves-library m = record { at = λ s p. p }

  pub Preserves-update :
      (f : Gateway → Gateway) → ((g : Gateway) → P g → P (f g)) → Preserves P (update f)
  unfolding update
  Preserves-update f h = record { at = λ s p. h s.gw p }

  pub Preserves-store_read : (bytes : List ℕ) → Preserves P (store_read bytes)
  unfolding store_read
  Preserves-store_read bytes = record { at = λ s p. p }

  pub Preserves-buffered : (n : ℤ) → Preserves P (buffered n)
  unfolding buffered
  Preserves-buffered (pos n) = record { at = λ s p. p }
  Preserves-buffered (negsuc n) = record { at = λ s p. p }

  Preserves-after_send :
      (n : ℤ) (rest : ℕ → G (Unit {0}))
      → ((k : ℕ) → Preserves P (rest k))
      → Preserves P (after_send n rest)
  Preserves-after_send (negsuc m) rest h = Preserves-give tt
  Preserves-after_send (pos zero) rest h = Preserves-give tt
  Preserves-after_send (pos (suc k)) rest h = h k

  pub ruleset preserving = (
    Preserves-bind, Preserves-if, Preserves-give, Preserves-waits, Preserves-gateway,
    Preserves-status, Preserves-library, Preserves-update, Preserves-store_read, Preserves-buffered,
  )

  module _ ⦃net : Net⦄ where
    Preserves-send : (bytes : List ℕ) → Preserves P (send bytes)
    unfolding send
    Preserves-send bytes = record { at = λ s p. p }

    Preserves-send_loop : (rounds : ℕ) (bytes : List ℕ) → Preserves P (send_loop rounds bytes)
    unfolding send_loop
    Preserves-send_loop rounds [] = search preserving
    Preserves-send_loop zero (b ∷ bs) = search preserving
    Preserves-send_loop (suc rounds) (b ∷ bs) =
        Preserves-bind _ _ (Preserves-send (b ∷ bs))
          λ n. Preserves-after_send n _ (λ k. Preserves-send_loop rounds (drop k bs))

    pub Preserves-send_all : (bytes : List ℕ) → Preserves P (send_all bytes)
    unfolding send_all
    Preserves-send_all bytes = Preserves-send_loop _ bytes

    pub Preserves-send_text : (bytes : List ℕ) → Preserves P (send_text bytes)
    unfolding send_text
    Preserves-send_text bytes = Preserves-send_all _

    pub Preserves-send_number : (v : ℤ) → Preserves P (send_number v)
    unfolding send_number
    Preserves-send_number v = Preserves-send_text _

  module _ ⦃os : Os⦄ where
    pub Preserves-open_at : (pad sad : ℤ) (eoi : Bool) → Preserves P (open_at pad sad eoi)
    unfolding open_at
    Preserves-open_at pad sad eoi = search preserving depth 30

    pub Preserves-open_target : Preserves P open_target
    unfolding open_target
    Preserves-open_target = search (preserving, Preserves-open_at) depth 30

  module _ ⦃os : Os⦄ ⦃net : Net⦄ where
    Preserves-read_once : (ud : ℤ) → Preserves P (read_once ud)
    unfolding read_once
    Preserves-read_once ud = search preserving depth 30

    Preserves-read_loop : (rounds : ℕ) (ud : ℤ) → Preserves P (read_loop rounds ud)
    unfolding read_loop
    Preserves-read_loop zero ud = search preserving
    Preserves-read_loop (suc rounds) ud =
        search (preserving, Preserves-send_all, Preserves-read_once, Preserves-read_loop rounds)
          depth 30

    pub Preserves-do_read :
        (rounds : ℕ) (eos_byte : Option ℕ) → Preserves P (do_read rounds eos_byte)
    unfolding do_read
    Preserves-do_read rounds none =
        search (preserving, Preserves-open_target, Preserves-read_loop) depth 30
    Preserves-do_read rounds (some b) =
        search (preserving, Preserves-open_target, Preserves-read_loop) depth 30

    pub Preserves-do_write : (rounds : ℕ) (line : List ℕ) → Preserves P (do_write rounds line)
    unfolding do_write
    Preserves-do_write rounds line =
        search (preserving, Preserves-open_target, Preserves-do_read) depth 30

-- ===== src/Gateway/Settings.antt =====
-- The settings of src/gpibsrv/gpibsrv.c, whatever a client sends.
use jornada_gpib.Prelude.{
  ◌<◌, ℕ, suc, ◌≡◌, refl, Bool, true, ◌&&◌, ◌||◌, ◌==◌, leb, List, [], ◌∷◌, Option, none, some,
  take, ℤ, pos, negsuc, ge_minus_one, gtz, not, arith,
}
use jornada_gpib.Api.State.{Os}
use jornada_gpib.Gateway.State.{chunk_max, idle_limit, Gateway, Net, Server}
use jornada_gpib.Gateway.Commands.{between, secondary_of, unsigned_of}
use jornada_gpib.Gateway.Serve.{
  wsaewouldblock, wsaetimedout, Lexer, Incoming, received, failed, fresh, complete, take_byte,
  take_bytes, client_loop, serve_client, accept_loop, server_thread,
}
use jornada_gpib.Gateway.Preserves.{
  Preserves, Preserves-bind, Preserves-if, Preserves-give, Preserves-gateway, Preserves-waits,
  Preserves-update, preserving, server_of,
}
use jornada_gpib.Gateway.Preserves.Stable.{IsStable, Preserves-handle_line}

-- The addresses, the terminator and the timeout are in range.
pub record IsValid (g : Gateway) : Type 0 where
  pub pad_range : between 0 30 g.pad ≡ true
  pub sad_range : ge_minus_one g.sad && not (gtz g.sad 30) ≡ true
  pub eos_range : between 0 3 g.eos ≡ true
  pub timeout_positive : 0 < g.read_tmo_ms

secondary_of-range :
    (n : ℤ × Bool) → ge_minus_one (secondary_of n) && not (gtz (secondary_of n) 30) ≡ true
secondary_of-range (pos n, any) = ground arith
secondary_of-range (negsuc n, any) = refl

unsigned_of-positive : (v : ℤ) → gtz v 0 ≡ true → 0 < unsigned_of v
unsigned_of-positive (pos n) e = ground arith
unsigned_of-positive (negsuc n) e = cc

IsValid-IsStable : IsStable IsValid
IsValid-IsStable = record {
  address = λ g v secondary e p. record {
    pad_range = e;
    sad_range = secondary_of-range secondary;
    eos_range = p.eos_range;
    timeout_positive = p.timeout_positive;
  };
  auto = λ g b p. record {
    pad_range = p.pad_range;
    sad_range = p.sad_range;
    eos_range = p.eos_range;
    timeout_positive = p.timeout_positive;
  };
  eoi_set = λ g b p. record {
    pad_range = p.pad_range;
    sad_range = p.sad_range;
    eos_range = p.eos_range;
    timeout_positive = p.timeout_positive;
  };
  eos_set = λ g v e p. record {
    pad_range = p.pad_range;
    sad_range = p.sad_range;
    eos_range = e;
    timeout_positive = p.timeout_positive;
  };
  timeout = λ g v e p. record {
    pad_range = p.pad_range;
    sad_range = p.sad_range;
    eos_range = p.eos_range;
    timeout_positive = unsigned_of-positive v e;
  };
  counted = λ g n p. record {
    pad_range = p.pad_range;
    sad_range = p.sad_range;
    eos_range = p.eos_range;
    timeout_positive = p.timeout_positive;
  };
}

module _ {P : Gateway → Type 0} (rounds : ℕ) ⦃os : Os⦄ ⦃net : Net⦄ (stable : IsStable P)
    (quits : (g : Gateway) → P g → P (record g { stop = true })) where
  Preserves-complete : (line : List ℕ) → Preserves P (complete rounds line)
  unfolding complete
  Preserves-complete [] = Preserves-give tt
  Preserves-complete (c ∷ cs) = Preserves-handle_line rounds (c ∷ cs) stable (λ e. quits)

  Preserves-take_byte : (l : Lexer) (c : ℕ) → Preserves P (take_byte rounds l c)
  unfolding take_byte
  Preserves-take_byte l c = search (preserving, Preserves-complete) depth 30

  Preserves-take_bytes : (l : Lexer) (bytes : List ℕ) → Preserves P (take_bytes rounds l bytes)
  unfolding take_bytes
  Preserves-take_bytes l [] = Preserves-give l
  Preserves-take_bytes l (c ∷ cs) =
      Preserves-bind _ _ (Preserves-take_byte l c) (λ l'. Preserves-take_bytes l' cs)

  pub Preserves-client_loop :
      (l : Lexer) (idle_ticks : ℕ) (incoming : List Incoming)
      → Preserves P (client_loop rounds l idle_ticks incoming)
  unfolding client_loop
  Preserves-client_loop l idle_ticks [] = Preserves-waits
  Preserves-client_loop l idle_ticks (received [] ∷ later) = Preserves-give tt
  Preserves-client_loop l idle_ticks (received (c ∷ cs) ∷ later) =
      Preserves-bind _ _ (Preserves-take_bytes l (take chunk_max (c ∷ cs))) (λ l'.
        Preserves-bind _ _ Preserves-gateway (λ g.
          Preserves-if g.stop _ _ (λ e. Preserves-give tt) (λ e. Preserves-client_loop l' 0 later)))
  Preserves-client_loop l idle_ticks (failed err ∷ later) =
      Preserves-bind _ _ Preserves-gateway (λ g.
        Preserves-if (not (err == wsaetimedout || err == wsaewouldblock)) _ _
          (λ e. Preserves-give tt)
          (λ e.
            Preserves-if g.stop _ _ (λ e. Preserves-give tt)
              (λ e.
                Preserves-if (leb idle_limit (suc idle_ticks)) _ _ (λ e. Preserves-give tt)
                  (λ e. Preserves-client_loop l (suc idle_ticks) later))))

  pub Preserves-accept_loop :
      (clients : List (Option (List Incoming))) → Preserves P (accept_loop rounds clients)
  unfolding accept_loop serve_client
  Preserves-accept_loop [] = search preserving
  Preserves-accept_loop (none ∷ later) = Preserves-give tt
  Preserves-accept_loop (some incoming ∷ later) = Preserves-bind _ _ Preserves-gateway (λ g.
      Preserves-if g.stop _ _ (λ e. Preserves-give tt)
        (λ e. Preserves-bind _ _ (Preserves-update _ (λ g p. stable.counted g 0 p)) (λ t.
          Preserves-bind _ _ (Preserves-client_loop fresh 0 incoming)
            (λ u. Preserves-accept_loop later))))

  Preserves-server_thread :
      (socket_good bind_good listen_good : Bool) (clients : List (Option (List Incoming)))
      → Preserves P (server_thread rounds socket_good bind_good listen_good clients)
  unfolding server_thread
  Preserves-server_thread socket_good bind_good listen_good clients =
      search (preserving, Preserves-accept_loop clients) depth 20

module _ (rounds : ℕ) ⦃os : Os⦄ ⦃net : Net⦄ where
  -- Whatever clients send, and wherever the server has come to, its settings are in range.
  pub server_thread-IsValid :
      (socket_good bind_good listen_good : Bool) (clients : List (Option (List Incoming)))
      (s : Server)
      → IsValid s.gw
      → IsValid (server_of (server_thread rounds socket_good bind_good listen_good clients s)).gw
  server_thread-IsValid socket_good bind_good listen_good clients s v =
      (Preserves-server_thread rounds IsValid-IsStable
          (λ g p. record {
            pad_range = p.pad_range;
            sad_range = p.sad_range;
            eos_range = p.eos_range;
            timeout_positive = p.timeout_positive;
          })
          socket_good bind_good listen_good clients).at
        s v

-- ===== src/Gateway/Service.antt =====
-- The service of clients in src/gpibsrv/gpibsrv.c from end to end and the descriptors in use.
use jornada_gpib.Prelude.{
  ℕ, suc, ◌≡◌, Bool, ◌||◌, ◌==◌, not, leb, List, [], ◌∷◌, take, length, Option, none, some,
}
use jornada_gpib.Api.State.{Os}
use jornada_gpib.Gateway.State.{chunk_max, idle_limit, Net, Server}
use jornada_gpib.Gateway.Serve.{
  wsaetimedout, wsaewouldblock, Lexer, Incoming, received, failed, fresh, complete, take_byte,
  take_bytes, client_loop, serve_client, accept_loop, server_thread,
}
use jornada_gpib.Gateway.Table.{
  in_uses, InUse, Balanced, Balanced-bind, Balanced-if, Balanced-give, Balanced-waits,
  Balanced-gateway, Balanced-update, balanced,
}
use jornada_gpib.Gateway.NoLeak.{handle_line-Balanced}

module _ (rounds : ℕ) ⦃os : Os⦄ ⦃net : Net⦄ where
  Balanced-complete : (line : List ℕ) → Balanced (complete rounds line)
  unfolding complete
  Balanced-complete [] = Balanced-give tt
  Balanced-complete (c ∷ cs) = handle_line-Balanced rounds (c ∷ cs)

  Balanced-take_byte : (l : Lexer) (c : ℕ) → Balanced (take_byte rounds l c)
  unfolding take_byte
  Balanced-take_byte l c = search (balanced, Balanced-complete) depth 30

  Balanced-take_bytes : (l : Lexer) (bytes : List ℕ) → Balanced (take_bytes rounds l bytes)
  unfolding take_bytes
  Balanced-take_bytes l [] = Balanced-give l
  Balanced-take_bytes l (c ∷ cs) =
      Balanced-bind _ _ (Balanced-take_byte l c) (λ l'. Balanced-take_bytes l' cs)

  Balanced-client_loop :
      (l : Lexer) (idle_ticks : ℕ) (incoming : List Incoming)
      → Balanced (client_loop rounds l idle_ticks incoming)
  unfolding client_loop
  Balanced-client_loop l idle_ticks [] = Balanced-waits
  Balanced-client_loop l idle_ticks (received [] ∷ later) = Balanced-give tt
  Balanced-client_loop l idle_ticks (received (c ∷ cs) ∷ later) =
      Balanced-bind _ _ (Balanced-take_bytes l (take chunk_max (c ∷ cs))) (λ l'.
        Balanced-bind _ _ Balanced-gateway
          (λ g. Balanced-if g.stop _ _ (Balanced-give tt) (Balanced-client_loop l' 0 later)))
  Balanced-client_loop l idle_ticks (failed err ∷ later) = Balanced-bind _ _ Balanced-gateway (λ g.
      Balanced-if (not (err == wsaetimedout || err == wsaewouldblock)) _ _ (Balanced-give tt) (
        Balanced-if g.stop _ _ (Balanced-give tt) (
          Balanced-if (leb idle_limit (suc idle_ticks)) _ _ (Balanced-give tt)
            (Balanced-client_loop l (suc idle_ticks) later))))

  Balanced-accept_loop :
      (clients : List (Option (List Incoming))) → Balanced (accept_loop rounds clients)
  unfolding accept_loop serve_client
  Balanced-accept_loop [] = search balanced
  Balanced-accept_loop (none ∷ later) = Balanced-give tt
  Balanced-accept_loop (some incoming ∷ later) = Balanced-bind _ _ Balanced-gateway (λ g.
      Balanced-if g.stop _ _ (Balanced-give tt) (
        Balanced-bind _ _ (Balanced-update _) (λ t.
          Balanced-bind _ _ (Balanced-client_loop fresh 0 incoming)
            (λ u. Balanced-accept_loop later))))

  Balanced-server_thread :
      (socket_good bind_good listen_good : Bool) (clients : List (Option (List Incoming)))
      → Balanced (server_thread rounds socket_good bind_good listen_good clients)
  unfolding server_thread
  Balanced-server_thread socket_good bind_good listen_good clients =
      Balanced-if (not socket_good) _ _ (Balanced-give 1) (
        Balanced-if (not bind_good || not listen_good) _ _ (Balanced-give 1)
          (Balanced-bind _ _ (Balanced-accept_loop clients) (λ t. Balanced-give 0)))

  -- From a table of 16 descriptors: when the server ends, exactly those are in use that were at its
  -- start, whatever clients sent and the system and the network answered.
  pub server_thread-InUse :
      (socket_good bind_good listen_good : Bool) (clients : List (Option (List Incoming)))
      (s : Server)
      → length (in_uses s.api.devices) ≡ 16
      → InUse
          (in_uses s.api.devices)
          (server_thread rounds socket_good bind_good listen_good clients s)
  server_thread-InUse socket_good bind_good listen_good clients s full =
      (Balanced-server_thread socket_good bind_good listen_good clients).at s full

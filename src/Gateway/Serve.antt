-- ===== src/Gateway/Serve.antt =====
-- The service of clients in src/gpibsrv/gpibsrv.c. What the calls of `recv` and `accept` give is an
-- argument, in the order of the calls. Log lines are left out.
use jornada_gpib.Prelude.{
  some, Option, ℕ, suc, ◌||◌, Bool, true, false, not, ◌==◌, ltb, leb, if◌then◌else◌, List, [], ◌∷◌,
  ◌++◌, length, take, none, some, is_neg,
}
use jornada_gpib.Api.State.{Os}
use jornada_gpib.Gateway.State.{
  line_max, chunk_max, idle_limit, Net, G, ◌>>=◌, ◌>>◌, give, waits, gateway, update, library,
  defaults,
}
use jornada_gpib.Gateway.Commands.{handle_line}
use jornada_gpib.Api.Calls.{ibsic, ibfind_board}

abbrev pub wsaetimedout : ℕ
wsaetimedout = 10060

abbrev pub wsaewouldblock : ℕ
wsaewouldblock = 10035

-- What `recv` gives: bytes, none of them where the client has closed, or an error.
pub data Incoming : Type 0 where
  received : (bytes : List ℕ) → Incoming
  failed : (err : ℕ) → Incoming

-- `line` up to `n`, and `escaped`.
pub record Lexer : Type 0 where
  pub line : List ℕ
  pub escaped : Bool

-- if (n < LINE_MAX) line[n++] = c;
abbrev pub append_byte : List ℕ → ℕ → List ℕ
append_byte line c = if ltb (length line) line_max then line ++ c ∷ [] else line

abbrev pub is_newline : ℕ → Bool
is_newline c = c == 0x0a || c == 0x0d

abbrev pub fresh : Lexer
fresh = record { line = []; escaped = false }

module _ (rounds : ℕ) ⦃os : Os⦄ ⦃net : Net⦄ where
  -- if (n > 0) handle_line(s, line, n);
  unfoldable pub complete : List ℕ → G (Unit {0})
  unfolding give handle_line
  complete [] = give tt
  complete (c ∷ cs) = handle_line rounds (c ∷ cs)

  -- The body of the loop over the bytes.
  unfoldable pub take_byte : Lexer → ℕ → G Lexer
  unfolding give complete
  take_byte l c =
      if l.escaped
      then give (record { line = append_byte l.line c; escaped = false })
      else if c == 0x1b
      then give (record l { escaped = true })
      else if is_newline c
      then (do complete l.line; give fresh)
      else give (record l { line = append_byte l.line c })

  unfoldable pub take_bytes : Lexer → List ℕ → G Lexer
  unfolding give take_byte
  take_bytes l [] = give l
  take_bytes l (c ∷ cs) = do l' ← take_byte l c; take_bytes l' cs

  -- The loop over the calls of `recv`.
  unfoldable pub client_loop : Lexer → (idle_ticks : ℕ) → List Incoming → G (Unit {0})
  unfolding give waits gateway take_bytes
  client_loop l idle_ticks [] = waits
  client_loop l idle_ticks (received [] ∷ later) = give tt
  client_loop l idle_ticks (received (c ∷ cs) ∷ later) = do
    l' ← take_bytes l (take chunk_max (c ∷ cs))
    gw ← gateway
    let rest : G (Unit {0}) = client_loop l' 0 later
    if gw.stop then give tt else rest
  client_loop l idle_ticks (failed err ∷ later) = do
    gw ← gateway
    let rest : G (Unit {0}) = client_loop l (suc idle_ticks) later
    if not (err == wsaetimedout || err == wsaewouldblock)
        then give tt
        else if gw.stop
        then give tt
        else if leb idle_limit (suc idle_ticks)
        then give tt
        else rest

  unfoldable pub serve_client : List Incoming → G (Unit {0})
  unfolding client_loop
  serve_client incoming = client_loop fresh 0 incoming

  -- The loop over the calls of `accept`, each a client with its data or INVALID_SOCKET.
  unfoldable pub accept_loop : List (Option (List Incoming)) → G (Unit {0})
  unfolding give waits gateway update serve_client
  accept_loop [] = do gw ← gateway; if gw.stop then give tt else waits
  accept_loop (none ∷ later) = give tt
  accept_loop (some incoming ∷ later) = do
    gw ← gateway
    let rest : G (Unit {0}) = accept_loop later
    if gw.stop
        then give tt
        else do update λ gw. record gw { requests = 0 }; serve_client incoming; rest

  -- Whether `socket`, `bind` and `listen` succeed is an argument.
  unfoldable pub server_thread :
      (socket_good bind_good listen_good : Bool) → List (Option (List Incoming)) → G ℕ
  unfolding give accept_loop
  server_thread socket_good bind_good listen_good clients =
      if not socket_good
      then give 1
      else if not bind_good || not listen_good
      then give 1
      else (do accept_loop clients; give 0)

-- The start of `WinMain`, up to the window: whether it goes on. Whether `WSAStartup` succeeds is an
-- argument.
unfoldable pub start : ⦃os : Os⦄ → (winsock_good : Bool) → G Bool
unfolding give update library
start winsock_good = do
  update λ gw. defaults
  found ← library ibfind_board
  if is_neg found then give false else (do library ibsic; give winsock_good)

-- ===== src/Gateway/Tests.antt =====
-- The gateway with a small network and system.
use jornada_gpib.Prelude.{
  some, none, Option, arith, false, true, ◌++◌, map, leb, if◌then◌else◌, List, ◌≡◌, refl, pos,
  negsuc, [], ◌∷◌, length, ℕ,
}
use jornada_gpib.Gateway.State.{Net, Server, done, initial}
use jornada_gpib.Gateway.Serve.{
  server_thread, fresh, client_loop, take_bytes, received, failed, serve_client, Incoming,
}
use jornada_gpib.Gateway.Words.{starts_with, c_string, parse_int, skip_word}
use jornada_gpib.Runtime.Strings.{strlen}
use jornada_gpib.Runtime.Sink.{put}
use jornada_gpib.Runtime.Format.{convert}
use jornada_gpib.Runtime.Numbers.{emit_number, digits}
use jornada_gpib.Wire.{ioctl_gpib_clear}
use jornada_gpib.Api.State.{History, asked}
use jornada_gpib.Api.Tests.{answering}
use jornada_gpib.Gateway.Encoding
use jornada_gpib.Gateway.Delivery.{send_all-Delivers, Delivers}
use jornada_gpib.Gateway.Transfers.{open_at}
use jornada_gpib.Gateway.Client
use jornada_gpib.Gateway.State.{give, ◌>>◌}
use jornada_gpib.Gateway.Preserves.{server_of}
use jornada_gpib.Gateway.Table.{in_uses}
use jornada_gpib.Gateway.Target.{open_at-Opened, target, Opened}
use jornada_gpib.Gateway.Settings.{server_thread-IsValid, IsValid}
use jornada_gpib.Gateway.Idle.{client_loop-idle}
use jornada_gpib.Gateway.Encoding.{take_bytes-encode, handle_each, encode_lines}
use jornada_gpib.Gateway.Lines.{lines_of, handle_lines}
use jornada_gpib.Gateway.Service.{server_thread-InUse}
use jornada_gpib.Gateway.Client.{serve_client-lines, no_quit, joined}
use jornada_gpib.Gateway.Preserves.Stable.{is_quit}
use jornada_gpib.Gateway.Sockets.{send_all}

-- A network that takes at most 4 bytes at once.
abbrev four : Net
four = record { sends = λ sent bytes. pos (if leb (length bytes) 4 then length bytes else 4) }

-- "++addr 7 97\r\n", in two pieces
abbrev sets_address : List Incoming
sets_address =
    received (0x2b ∷ 0x2b ∷ 0x61 ∷ 0x64 ∷ 0x64 ∷ [])
    ∷ received (0x72 ∷ 0x20 ∷ 0x37 ∷ 0x20 ∷ 0x39 ∷ 0x37 ∷ 0x0d ∷ 0x0a ∷ [])
    ∷ received []
    ∷ []

address_set :
    (server_of (serve_client 3 ⦃os = answering⦄ ⦃net = four⦄ sets_address initial)).gw
    ≡ record initial.gw { pad = pos 7; sad = pos 1; requests = 1 }
unfolding serve_client starts_with c_string parse_int skip_word
address_set = refl

-- "++addr\n" is answered with "1\n".
address_sent :
    (server_of (
      serve_client 3 ⦃os = answering⦄ ⦃net = four⦄
        (received (0x2b ∷ 0x2b ∷ 0x61 ∷ 0x64 ∷ 0x64 ∷ 0x72 ∷ 0x0a ∷ []) ∷ [])
        initial)).sent
    ≡ record { bytes = 0x31 ∷ 0x0a ∷ []; answer = pos 2 } ∷ []
unfolding serve_client starts_with c_string parse_int skip_word strlen put convert emit_number
    digits
address_sent = refl

-- The same bytes as one piece: "++addr 7 97\r\n"
abbrev address_bytes : List ℕ
address_bytes =
    0x2b ∷ 0x2b ∷ 0x61 ∷ 0x64 ∷ 0x64 ∷ 0x72 ∷ 0x20 ∷ 0x37 ∷ 0x20 ∷ 0x39 ∷ 0x37 ∷ 0x0d ∷ 0x0a ∷ []

abbrev pieces : List (List ℕ)
pieces = (0x2b ∷ 0x2b ∷ 0x61 ∷ []) ∷ (0x64 ∷ 0x64 ∷ 0x72 ∷ 0x20 ∷ 0x37 ∷ 0x0a ∷ []) ∷ []

pieces-no_quit : no_quit (lines_of (joined pieces)) ≡ true
unfolding is_quit starts_with c_string
pieces-no_quit = refl

serve_client-lines_example :
    serve_client 3 ⦃os = answering⦄ ⦃net = four⦄ (map received pieces ++ received [] ∷ []) initial
    ≡ handle_lines 3 ⦃os = answering⦄ ⦃net = four⦄ (lines_of (joined pieces)) initial
serve_client-lines_example =
    serve_client-lines 3 ⦃os = answering⦄ ⦃net = four⦄ pieces [] initial
      (Client.one_more (omega arith) (Client.one_more (omega arith) Client.no_chunks))
      pieces-no_quit refl

-- "a?", and a line with ESC and a newline in it
abbrev some_lines : List (List ℕ)
some_lines = (0x61 ∷ 0x3f ∷ []) ∷ (0x1b ∷ 0x0a ∷ []) ∷ []

take_bytes-encode_example :
    take_bytes 3 ⦃os = answering⦄ ⦃net = four⦄ fresh (encode_lines (λ c. false) some_lines) initial
    ≡ (handle_each 3 ⦃os = answering⦄ ⦃net = four⦄ some_lines >> give fresh) initial
take_bytes-encode_example =
    take_bytes-encode 3 ⦃os = answering⦄ ⦃net = four⦄ (λ c. false) some_lines initial
      (Encoding.one_more (omega arith) (Encoding.one_more (omega arith) Encoding.no_lines))

server_thread-IsValid_example :
    IsValid
      (server_of (
        server_thread 3 ⦃os = answering⦄ ⦃net = four⦄ true true true
          (some sets_address ∷ [])
          initial)).gw
server_thread-IsValid_example =
    server_thread-IsValid 3 ⦃os = answering⦄ ⦃net = four⦄ true true true (some sets_address ∷ [])
      initial
      (record {
        pad_range = refl;
        sad_range = refl;
        eos_range = refl;
        timeout_positive = omega arith;
      })

-- The codes of the IOCTLs, the newest first.
abbrev asks : History → List ℕ
asks [] = []
asks (asked code input room ∷ h) = code ∷ asks h
asks (e ∷ h) = asks h

-- "++clr\n" of one client, and then `accept` fails.
abbrev clears_target : List (Option (List Incoming))
clears_target =
    some (received (0x2b ∷ 0x2b ∷ 0x63 ∷ 0x6c ∷ 0x72 ∷ 0x0a ∷ []) ∷ received [] ∷ []) ∷ none ∷ []

served : Server
unfolding server_thread starts_with c_string parse_int skip_word
served =
    server_of (server_thread 3 ⦃os = answering⦄ ⦃net = four⦄ true true true clears_target initial)

served_ends :
    server_thread 3 ⦃os = answering⦄ ⦃net = four⦄ true true true clears_target initial
    ≡ done 0 served
unfolding server_thread served starts_with c_string parse_int skip_word
served_ends = refl

-- The client's line opened the target at address 1 and cleared it.
served_cleared : (asks served.api.log ≡ ioctl_gpib_clear ∷ [])
unfolding served
served_cleared = refl

server_thread-InUse_example : in_uses served.api.devices ≡ in_uses initial.api.devices
unfolding server_thread served starts_with c_string parse_int skip_word
server_thread-InUse_example =
    server_thread-InUse 3 ⦃os = answering⦄ ⦃net = four⦄ true true true clears_target initial refl

-- Sixty times two seconds.
client_loop-idle_example :
    client_loop 3 ⦃os = answering⦄ ⦃net = four⦄ fresh 58
      (map failed (10060 ∷ 10035 ∷ []) ++ [])
      initial
    ≡ done tt initial
client_loop-idle_example =
    client_loop-idle 3 ⦃os = answering⦄ ⦃net = four⦄ fresh 58 (10060 ∷ 10035 ∷ []) [] initial
      (omega arith) refl refl

send_all-Delivers_example :
    Delivers
      (1 ∷ 2 ∷ 3 ∷ 4 ∷ 5 ∷ [])
      initial
      (send_all ⦃net = four⦄ (1 ∷ 2 ∷ 3 ∷ 4 ∷ 5 ∷ []) initial)
send_all-Delivers_example = send_all-Delivers ⦃net = four⦄ (1 ∷ 2 ∷ 3 ∷ 4 ∷ 5 ∷ []) initial

open_at-Opened_example :
    Opened initial.api.devices
      (target (pos 1) (negsuc 0) true 3000)
      (open_at ⦃os = answering⦄ (pos 1) (negsuc 0) true initial)
open_at-Opened_example = open_at-Opened ⦃os = answering⦄ (pos 1) (negsuc 0) true initial refl

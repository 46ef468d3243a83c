-- ===== src/Gateway/State.antt =====
-- The state of src/gpibsrv/gpibsrv.c, its sockets, and the monad of its functions.
use jornada_gpib.Prelude.{ℕ, Bool, true, false, List, [], ℤ, pos, negsuc}
use jornada_gpib.Runtime.Memory.{Memory}
use jornada_gpib.Api.State as Lib
use jornada_gpib.Api.State.{Api, C}

abbrev pub line_max : ℕ
line_max = 1024

abbrev pub read_max : ℕ
read_max = 8192

abbrev pub idle_limit : ℕ
idle_limit = 60

-- char buf[256], where `recv` stores
abbrev pub chunk_max : ℕ
chunk_max = 256

-- `gateway`, without its handles. `auto_read` and `eoi` are only ever 0 or 1, and tested against 0.
pub record Gateway : Type 0 where
  pub pad : ℤ
  pub sad : ℤ
  pub auto_read : Bool
  pub eoi : Bool
  pub eos : ℤ
  pub read_tmo_ms : ℕ
  pub stop : Bool
  pub requests : ℕ

-- A call of `send`: its data and what it returned.
pub record Offer : Type 0 where
  pub bytes : List ℕ
  pub answer : ℤ

-- What `send` returns for its data, after the calls that came before, the newest first.
pub record Net : Type 0 where
  pub sends : List Offer → List ℕ → ℤ

-- `gw`; memory from the static buffer of `do_read` on; the state of the client library; the calls of
-- `send`, the newest first; whether WM_CLOSE was posted to the window.
pub record Server : Type 0 where
  pub gw : Gateway
  pub read_buf : Memory
  pub api : Api
  pub sent : List Offer
  pub closing : Bool

-- A function returns, or it is still under way in the state it has come to.
pub data Run (A : Type 0) : Type 0 where
  done : (result : A) (server : Server) → Run A
  busy : (server : Server) → Run A

abbrev pub G : Type 0 → Type 0
G A = Server → Run A

abbrev pub and_then : {A B : Type 0} → Run A → (A → G B) → Run B
and_then (done a s) f = f a s
and_then (busy s) f = busy s

infixl 8 ◌>>=◌ ◌>>◌
abbrev pub ◌>>=◌ : {A B : Type 0} → G A → (A → G B) → G B
◌>>=◌ first rest s = and_then (first s) rest

abbrev pub ◌>>◌ : {A B : Type 0} → G A → G B → G B
◌>>◌ first rest = first >>= λ _. rest

unfoldable pub give : {A : Type 0} → A → G A
give a s = done a s

-- A call that has not returned.
unfoldable pub waits : {A : Type 0} → G A
waits s = busy s

unfoldable pub gateway : G Gateway
gateway s = done s.gw s

unfoldable pub update : (Gateway → Gateway) → G (Unit {0})
update f s = done tt (record s { gw = f s.gw })

-- A call of the client library.
unfoldable pub library : {A : Type 0} → C A → G A
library m s = let (a, api') = m s.api in done a (record s { api = api' })

-- `ibsta`, `iberr` and `ibcnt`
unfoldable pub status : G Api
status s = done s.api s

-- The settings that `WinMain` makes.
abbrev pub defaults : Gateway
defaults = record {
  pad = pos 1;
  sad = negsuc 0;
  auto_read = false;
  eoi = true;
  eos = pos 2;
  read_tmo_ms = 3000;
  stop = false;
  requests = 0;
}

abbrev pub initial : Server
initial = record { gw = defaults; read_buf = λ i. 0; api = Lib.initial; sent = []; closing = false }

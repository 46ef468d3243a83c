-- ===== src/Driver/Lifecycle.antt =====
-- The load and the unload of src/gpib/drv_ce.c: `bringup`, `teardown`, and the functions of the stream
-- that open and close. The system, Card Services and the chip are parameters.
pub mod Held
pub mod Load
use jornada_gpib.Prelude.{
  ℕ, zero, suc, ◌+◌, ◌-◌, ◌%◌, ◌^◌, Bool, true, false, not, ◌==◌, if◌then◌else◌, List, [], ◌∷◌,
  Option, none, some,
}
use jornada_gpib.Driver.State.{Cis}
use jornada_gpib.Driver.Window.{CfTable, Window, pick_io_window}
use jornada_gpib.Cis.Walk.{Found, cis_capture_socket}
use jornada_gpib.Cis.Walk

-- The calls by which a load takes something or gives it back, and those that it only makes. Loading
-- and freeing pcmcia.dll are `binds` and `unbinds`; `starts_chip` is `chip_bringup`.
pub data Request : Type 0 where
  allocates creates_lock reads_registry binds registers resets configures starts_chip : Request
  requests_window : (wide : Bool) (size : ℕ) → Request
  maps : (base size : ℕ) → Request
  stops_chip releases_configuration deregisters unbinds deletes_lock frees : Request
  releases_window : (handle : ℕ) → Request

-- Each call with its answer, the newest first.
abbrev pub Requests : Type 0
Requests = List (Request × ℕ)

-- What a call returns, after those before it: 0 stands for NULL, FALSE or a status other than
-- success, and for a chip that does not start. The results of CardGetParsedTuple and of the walk over
-- the tuples.
pub record System : Type 0 where
  pub answers : Requests → Request → ℕ
  pub parsed : Bool
  pub entries : List CfTable
  pub tuples : List Found

-- The fields of `gpib_device` that are about the load; handles as numbers, NULL as 0.
pub record Card : Type 0 where
  pub bound : Bool
  pub client : ℕ
  pub window : ℕ
  pub configured : Bool
  pub chip_ok : Bool
  pub card_present : Bool
  pub window_8bit_ok : Bool
  pub window_16bit_ok : Bool
  pub cis : Cis

pub record Loading : Type 0 where
  pub card : Card
  pub log : Requests

abbrev pub K : Type 0 → Type 0
K A = Loading → A × Loading

infixl 8 ◌>>=◌ ◌>>◌
abbrev pub ◌>>=◌ : {A B : Type 0} → K A → (A → K B) → K B
◌>>=◌ first rest s = let (a, s') = first s in rest a s'

abbrev pub ◌>>◌ : {A B : Type 0} → K A → K B → K B
◌>>◌ first rest = first >>= λ _. rest

abbrev pub give : {A : Type 0} → A → K A
give a s = (a, s)

abbrev pub card : K Card
card s = (s.card, s)

abbrev pub change : (Card → Card) → K (Unit {0})
change f s = (tt, record s { card = f s.card })

-- LPTR: all zero.
abbrev pub no_card : Card
no_card = record {
  bound = false;
  client = 0;
  window = 0;
  configured = false;
  chip_ok = false;
  card_present = false;
  window_8bit_ok = false;
  window_16bit_ok = false;
  cis = Walk.empty;
}

abbrev pub is_set : ℕ → Bool
is_set n = not (n == 0)

module _ ⦃system : System⦄ where
  abbrev pub call : Request → K ℕ
  call r s = let a : ℕ = system.answers s.log r in (a, record s { log = (r, a) ∷ s.log })

  -- The first part of `teardown`.
  unfoldable pub stop_chip : K (Unit {0})
  stop_chip = do
    c ← card
    if c.chip_ok then (do call stops_chip; change λ d. record d { chip_ok = false }) else give tt

  unfoldable pub release_configuration : K (Unit {0})
  release_configuration = do
    c ← card
    if c.configured
        then (do call releases_configuration; change λ d. record d { configured = false })
        else give tt

  unfoldable pub release_window : K (Unit {0})
  release_window = do
    c ← card
    if is_set c.window
        then (do call (releases_window c.window); change λ d. record d { window = 0 })
        else give tt

  unfoldable pub deregister : K (Unit {0})
  deregister = do
    c ← card
    if is_set c.client then (do call deregisters; change λ d. record d { client = 0 }) else give tt

  unfoldable pub cs_unbind : K (Unit {0})
  cs_unbind = do
    c ← card
    if c.bound then (do call unbinds; change λ d. record d { bound = false }) else give tt

  unfoldable pub teardown : K (Unit {0})
  unfolding stop_chip release_configuration release_window deregister cs_unbind
  teardown = do stop_chip; release_configuration; release_window; deregister; cs_unbind

  -- TRUE where an 8-bit window is granted.
  unfoldable pub request_window : Window → K Bool
  request_window w = do
    w16 ← call (requests_window true w.io_length)
    change λ d. record d { window_16bit_ok = is_set w16 }
    if is_set w16 then (do call (releases_window w16); give tt) else give tt
    w8 ← call (requests_window false w.io_length)
    change λ d. record d { window = w8; window_8bit_ok = is_set w8 }
    give (is_set w8)

  unfoldable pub configure_card : K Bool
  configure_card = do
    a ← call configures
    change λ d. record d { configured = is_set a }
    give (is_set a)

  unfoldable pub chip_bringup : K (Unit {0})
  chip_bringup = do a ← call starts_chip; change λ d. record d { chip_ok = is_set a }

  -- From the granted window on.
  unfoldable pub with_window : Window → K Bool
  unfolding configure_card chip_bringup
  with_window w = do
    call resets
    io ← call (maps w.io_base w.io_length)
    if not (is_set io)
        then give false
        else do good ← configure_card; if not good then give false else (do chip_bringup; give true)

  -- From the registered client on.
  unfoldable pub with_client : K Bool
  unfolding pick_io_window request_window with_window cis_capture_socket
  with_client = do
    change λ d. record d { cis = (cis_capture_socket system.tuples).0 }
    elim (pick_io_window system.parsed system.entries) [
      | none ↦ give false
      | some w ↦ do granted ← request_window w; if not granted then give false else with_window w
    ]

  -- From the lock on; FALSE is `goto fail`.
  unfoldable pub steps : K Bool
  unfolding with_client
  steps = do
    socket ← call reads_registry
    if not (is_set socket) then give false else do
      bound ← call binds
      change λ d. record d { bound = is_set bound }
      if not (is_set bound) then give false else do
        change λ d. record d { card_present = true }
        client ← call registers
        change λ d. record d { client = client }
        if not (is_set client) then give false else with_client

  -- The device is given up: from `teardown` to LocalFree.
  unfoldable pub unload : K (Unit {0})
  unload = do teardown; call deletes_lock; call frees; give tt

  -- return d; or from the label `fail` on.
  unfoldable pub settle : (good : Bool) → K Bool
  settle true = give true
  settle false = do unload; give false

  -- Whether it returns a device.
  unfoldable pub bringup : K Bool
  bringup = do
    a ← call allocates
    if not (is_set a)
        then give false
        else do change λ d. no_card; call creates_lock; good ← steps; settle good

  -- `dev` tells whether the device is not NULL.
  unfoldable pub gpb_deinit : (dev : Bool) → K Bool
  gpb_deinit false = give false
  gpb_deinit true = do unload; give true

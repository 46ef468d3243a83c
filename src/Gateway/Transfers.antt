-- ===== src/Gateway/Transfers.antt =====
-- The operations on the bus in src/gpibsrv/gpibsrv.c, through the client library. Log lines are left
-- out.
use jornada_gpib.Prelude.{
  ℕ, zero, suc, ◌%◌, bit_or, Bool, true, false, not, ◌&&◌, ◌||◌, ◌==◌, leb, if◌then◌else◌, has,
  List, [], ◌∷◌, ◌++◌, length, take, Option, none, some, ℤ, pos, negsuc, is_neg,
}
use jornada_gpib.Runtime.Memory.{Memory}
use jornada_gpib.Api.Codes
use jornada_gpib.Api.Codes.{ib_err, ib_end, ib_reos, ib_bin, ib_t10us, ib_t1000s}
use jornada_gpib.Api.State.{Os, Api}
use jornada_gpib.Api.Calls.{ibdev, is_zero}
use jornada_gpib.Api.Transfers.{ibtmo_ms, ibeos, ibrd, ibwrt, ibonl}
use jornada_gpib.Gateway.State.{
  line_max, read_max, Net, G, ◌>>=◌, ◌>>◌, give, waits, gateway, library, status, done,
}
use jornada_gpib.Gateway.Sockets.{bytes_of, send_all}

-- The loop from `code` on, which ends at IB_T1000s; `left` is how far that is.
abbrev pub code_from : (left : ℕ) (code ms : ℕ) → ℕ
code_from zero code ms = code
code_from (suc left) code ms =
    let next = code_from left (suc code) ms in
    if leb ms (Codes.timeout_ms (pos code)) then code else next

unfoldable pub timeout_code : ℕ → ℕ
timeout_code ms = code_from 16 ib_t10us ms

-- buf[i] = bytes[i]
abbrev pub fill : List ℕ → Memory → Memory
fill [] m i = m i
fill (b ∷ bs) m zero = b
fill (b ∷ bs) m (suc i) = fill bs (λ j. m (suc j)) i

unfoldable pub store_read : List ℕ → G (Unit {0})
store_read bytes s = done tt (record s { read_buf = fill bytes s.read_buf })

-- `n` bytes of the static buffer, or none where `n` is not positive.
unfoldable pub buffered : ℤ → G (List ℕ)
buffered (pos n) s = done (bytes_of n s.read_buf) s
buffered (negsuc n) s = done [] s

-- The `switch`.
abbrev pub terminator : ℤ → List ℕ
terminator (negsuc n) = []
terminator (pos n) =
    if n == 0
    then 0x0d ∷ 0x0a ∷ []
    else if n == 1
    then 0x0d ∷ []
    else if n == 2
    then 0x0a ∷ []
    else []

-- len > 0 && data[len - 1] == '?'
abbrev pub is_query : List ℕ → Bool
is_query [] = false
is_query (c ∷ []) = c == 0x3f
is_query (c ∷ d ∷ ds) = is_query (d ∷ ds)

-- (ibsta & IB_ERR) || (ibsta & IB_END) || ibcnt == 0
abbrev pub read_ends : ℕ → ℤ → Bool
read_ends sta count = has sta ib_err || has sta ib_end || is_zero count

module _ ⦃os : Os⦄ where
  unfoldable pub open_at : (pad sad : ℤ) (eoi : Bool) → G ℤ
  unfolding gateway give library timeout_code ibdev ibtmo_ms
  open_at pad sad eoi = do
    gw ← gateway
    ud ← library (ibdev (pos 0) pad sad (pos (timeout_code gw.read_tmo_ms)) eoi 0)
    if is_neg ud then give ud else (do library (ibtmo_ms ud gw.read_tmo_ms); give ud)

  unfoldable pub open_target : G ℤ
  unfolding open_at gateway
  open_target = do gw ← gateway; open_at gw.pad gw.sad gw.eoi

module _ ⦃os : Os⦄ ⦃net : Net⦄ where
  -- ibrd(ud, buf, READ_MAX), and the status after it
  unfoldable pub read_once : ℤ → G Api
  unfolding library status store_read ibrd
  read_once ud = do r ← library (ibrd ud true (pos read_max)); store_read r.1; status

  -- The loop, for so many calls of `ibrd`; a talker that never ends its message takes more.
  unfoldable pub read_loop : (rounds : ℕ) → (ud : ℤ) → G (Unit {0})
  unfolding give read_once buffered waits send_all
  read_loop zero ud = waits
  read_loop (suc left) ud = do
    after ← read_once ud
    part ← buffered after.ibcnt
    send_all part
    let rest : G (Unit {0}) = read_loop left ud
    if read_ends after.ibsta after.ibcnt then give tt else rest

module _ (rounds : ℕ) ⦃os : Os⦄ ⦃net : Net⦄ where
  -- `eos_byte` is none for a negative one.
  unfoldable pub do_read : Option ℕ → G (Unit {0})
  unfolding open_target give library read_loop ibeos ibonl
  do_read eos_byte = do
    ud ← open_target
    if is_neg ud then give tt else do
      elim eos_byte [
        | none ↦ give tt
        | some b ↦ do library (ibeos ud (bit_or (bit_or ib_reos ib_bin) (b % 256))); give tt
      ]
      read_loop rounds ud
      library (ibonl ud false)
      give tt

  unfoldable pub do_write : List ℕ → G (Unit {0})
  unfolding open_target give gateway library status do_read ibwrt ibonl
  do_write line = do
    let bytes : List ℕ = take line_max line
    gw ← gateway
    let out : List ℕ = bytes ++ terminator gw.eos
    ud ← open_target
    if is_neg ud then give tt else do
      library (ibwrt ud (some out) (pos (length out)))
      after ← status
      library (ibonl ud false)
      if not (has after.ibsta ib_err) && gw.auto_read && is_query bytes
          then do_read none
          else give tt

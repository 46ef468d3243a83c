-- ===== src/Gateway/Commands.antt =====
-- The controller commands of src/gpibsrv/gpibsrv.c and its lines. Log lines are left out.
use jornada_gpib.Prelude.{
  ◌-◌, int_of, ℕ, ◌+◌, ◌%◌, ◌^◌, bit_and, Bool, true, false, not, ◌&&◌, ◌==◌, leb, if◌then◌else◌,
  has, List, [], ◌∷◌, Option, none, some, ℤ, pos, negsuc, is_neg, gtz, sub_ℕ,
}
use jornada_gpib.Wire.{ioctl_gpib_probe, size_probe}
use jornada_gpib.Api.Codes.{ib_err, ib_no_sad}
use jornada_gpib.Api.State.{Os}
use jornada_gpib.Api.Requests.{ioctl}
use jornada_gpib.Api.Calls.{ibsic, iblines, is_zero}
use jornada_gpib.Api.Transfers.{ibclr, ibtrg, ibloc, ibllo, ibrsp, ibonl}
use jornada_gpib.Gateway.State.{
  Gateway, Net, G, ◌>>=◌, ◌>>◌, give, gateway, update, library, status, done,
}
use jornada_gpib.Gateway.Sockets.{send_text, send_number}
use jornada_gpib.Gateway.Words.{parse_int, skip_word, starts_with, c_string}
use jornada_gpib.Gateway.Transfers.{open_at, open_target, do_read, do_write}
use jornada_gpib.Gateway.Literals.{
  word_addr, word_auto, word_eoi, word_eos, word_read_tmo_ms, word_read, word_ifc, word_clr,
  word_trg, word_loc, word_llo, word_spoll, word_srq, word_ver, word_mode, word_rst, word_savecfg,
  word_help, word_quit, word_lines, version_text, help_text,
}

-- v >= low && v <= high
abbrev pub between : (low high : ℕ) → ℤ → Bool
between low high (pos n) = leb low n && leb n high
between low high (negsuc n) = false

-- b ? 1 : 0
abbrev pub flag : Bool → ℤ
flag b = pos (if b then 1 else 0)

-- parse_int(skip_word(arg), &sad) && sad >= 96 && sad <= 126 ? sad - 96 : -1
abbrev pub secondary_of : ℤ × Bool → ℤ
secondary_of (negsuc n, any) = negsuc 0
secondary_of (pos n, any) = if any && between 96 126 (pos n) then sub_ℕ n 96 else negsuc 0

-- *lines, which is 0 before the call
abbrev pub lines_or_zero : Option ℕ → ℕ
lines_or_zero none = 0
lines_or_zero (some n) = n

-- (unsigned char)stb, which is 0 before the call
abbrev pub stb_of : Option ℕ → ℤ
stb_of none = pos 0
stb_of (some n) = pos (n % 2 ^ 8)

-- (unsigned)v
abbrev pub unsigned_of : ℤ → ℕ
unsigned_of (pos n) = n
unsigned_of (negsuc n) = 2 ^ 32 - 1 - n

-- gw.stop = TRUE; PostMessageW(gw.win, WM_CLOSE, 0, 0);
unfoldable pub quit : G (Unit {0})
quit s = done tt (record s { gw = record s.gw { stop = true }; closing = true })

module _ ⦃os : Os⦄ ⦃net : Net⦄ where
  -- A setting: stored where the argument is a good number, or else sent.
  unfoldable pub setting : Bool → (Gateway → Gateway) → (Gateway → ℤ) → G (Unit {0})
  unfolding gateway update send_number
  setting good store' shown =
      if good then update store' else (do gw ← gateway; send_number (shown gw))

  -- ud = open_target(); if (ud >= 0) { call(ud); ibonl(ud, 0); }
  unfoldable pub on_target : (ℤ → G ℕ) → G (Unit {0})
  unfolding open_target give library ibonl
  on_target call = do
    ud ← open_target
    if is_neg ud then give tt else (do call ud; library (ibonl ud false); give tt)

  -- ++spoll
  unfoldable pub spoll : ℤ × Bool → G (Unit {0})
  unfolding open_at give gateway library status ibrsp ibonl send_number
  spoll (v, any) = do
    gw ← gateway
    let pad : ℤ = if any && between 0 30 v then v else gw.pad
    ud ← open_at pad ib_no_sad true
    if is_neg ud then give tt else do
      r ← library (ibrsp ud true)
      after ← status
      library (ibonl ud false)
      if has after.ibsta ib_err then give tt else send_number (stb_of r.1)

  -- iblines(0, &lines); send_number(s, shown(lines));
  unfoldable pub show_lines : (ℕ → ℤ) → G (Unit {0})
  unfolding library iblines send_number
  show_lines shown = do r ← library iblines; send_number (shown (lines_or_zero r.1))

  -- The commands from "ifc" on.
  unfoldable pub bus_command : (cmd arg : List ℕ) → G (Unit {0})
  unfolding library give on_target ibclr ibtrg ibloc ibsic ibllo spoll show_lines send_text
      send_number ioctl
  bus_command cmd arg =
      let number : ℤ × Bool = parse_int arg in
      if starts_with cmd word_ifc
      then (do library ibsic; give tt)
      else if starts_with cmd word_clr
      then on_target (λ ud. library (ibclr ud))
      else if starts_with cmd word_trg
      then on_target (λ ud. library (ibtrg ud))
      else if starts_with cmd word_loc
      then on_target (λ ud. library (ibloc ud))
      else if starts_with cmd word_llo
      then (do library ibllo; give tt)
      else if starts_with cmd word_spoll
      then spoll number
      else if starts_with cmd word_srq
      then show_lines (λ lines. flag (has lines 0x04))
      else if starts_with cmd word_ver
      then send_text version_text
      else if starts_with cmd word_mode
      then (if not number.1 then send_number (pos 1) else give tt)
      else if starts_with cmd word_rst
      then (do library (ioctl ioctl_gpib_probe none size_probe); library ibsic; give tt)
      else if starts_with cmd word_savecfg
      then give tt
      else if starts_with cmd word_help
      then send_text help_text
      else if starts_with cmd word_quit
      then quit
      else if starts_with cmd word_lines
      then show_lines (λ lines. pos (bit_and lines 0xff))
      else give tt

module _ (rounds : ℕ) ⦃os : Os⦄ ⦃net : Net⦄ where
  -- ++read
  unfoldable pub read_command : List ℕ → G (Unit {0})
  unfolding give do_read
  read_command arg =
      let number : ℤ × Bool = parse_int arg in
      let by_byte : G (Unit {0}) =
        if number.1 then do_read rounds (some (unsigned_of number.0 % 256)) else give tt in
      elim arg [
        | [] ↦ do_read rounds none
        | c ∷ cs ↦ if starts_with (c ∷ cs) word_eoi then do_read rounds none else by_byte
      ]

  unfoldable pub controller_command : List ℕ → G (Unit {0})
  unfolding setting read_command bus_command
  controller_command cmd =
      let arg : List ℕ = skip_word cmd in
      let number : ℤ × Bool = parse_int arg in
      let v : ℤ = number.0 in
      let any : Bool = number.1 in
      if starts_with cmd word_addr
      then setting (any && between 0 30 v)
          (λ gw. record gw { pad = v; sad = secondary_of (parse_int (skip_word arg)) })
          (λ gw. gw.pad)
      else if starts_with cmd word_auto
      then setting any (λ gw. record gw { auto_read = not (is_zero v) }) (λ gw. flag gw.auto_read)
      else if starts_with cmd word_eoi
      then setting any (λ gw. record gw { eoi = not (is_zero v) }) (λ gw. flag gw.eoi)
      else if starts_with cmd word_eos
      then setting (any && between 0 3 v) (λ gw. record gw { eos = v }) (λ gw. gw.eos)
      else if starts_with cmd word_read_tmo_ms
      then setting (any && gtz v 0) (λ gw. record gw { read_tmo_ms = unsigned_of v })
          (λ gw. int_of gw.read_tmo_ms)
      else if starts_with cmd word_read
      then read_command arg
      else bus_command cmd arg

  -- A complete line, its terminator removed and its escapes resolved.
  unfoldable pub handle_text : List ℕ → G (Unit {0})
  unfolding give controller_command do_write
  handle_text [] = give tt
  handle_text (a ∷ []) = do_write rounds (a ∷ [])
  handle_text (a ∷ b ∷ rest) =
      if a == 0x2b && b == 0x2b
      then controller_command (c_string rest)
      else do_write rounds (a ∷ b ∷ rest)

  unfoldable pub handle_line : List ℕ → G (Unit {0})
  unfolding update handle_text
  handle_line line = do
    update λ gw. record gw { requests = (gw.requests + 1) % 2 ^ 32 }
    handle_text line

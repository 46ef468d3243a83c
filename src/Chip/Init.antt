-- ===== src/Chip/Init.antt =====
-- What `tnt_init` brings about.
use jornada_gpib.Prelude.{
  ℕ, ◌≤◌, ◌≡◌, refl, Bool, true, false, ◌∷◌, negsuc, arith, has, ◌==◌, ◌&&◌, ◌||◌, ◌∙◌, ◌<◌, [],
  not, ap, Option, none, some, u8, bit_and, ltb, Bool-cases, inl, inr, if◌then◌else◌, holds_below,
  holds_below-at,
}
use jornada_gpib.Chip.Io.{Io, saw, wrote, History, World, done, M, ◌>>=◌, and_then-eq-done}
use jornada_gpib.Chip.Status.{Status, ok, etimeout, enolistener, enotcic, eio, einval, enotsc}
use jornada_gpib.Chip.Reg
use jornada_gpib.Chip.Bits.{tnt_s_sc, hr_ars, address_mask, aux_cr, aux_pon}
use jornada_gpib.Chip.Access.{if_ok}
use jornada_gpib.Chip.Setup.{prepare, set_address, go_online, configure, ProbeResult, probe, init}
use jornada_gpib.Chip.Protocol.Steps.{InRange}
use jornada_gpib.Chip.Protocol.Ranges.{Keeps-t1_auxrb, Keeps-t1_auxri}
use jornada_gpib.Chip.Protocol.Rules.{Traced-Steps}
use jornada_gpib.Chip.Protocol.Setup.{Traced-set_address, Traced-go_online}
use jornada_gpib.Chip.Shadow.{IsCoherent, Steps-IsCoherent}

-- The newest event is a read of STS1 with the system controller bit set.
abbrev pub saw_sc : History → Bool
saw_sc (saw off v ∷ h) = off == Reg.sts1 && has v tnt_s_sc
saw_sc h = false

-- The newest value written of those that `p` picks by register and value.
abbrev pub newest : (ℕ → ℕ → Bool) → History → Option ℕ
newest p [] = none
newest p (wrote off v ∷ h) = if p off v then some v else newest p h
newest p (e ∷ h) = newest p h

-- ADR sets the primary address, and with ARS the secondary one.
abbrev pub is_primary : ℕ → ℕ → Bool
is_primary off v = off == Reg.adr && not (has v hr_ars)

abbrev pub is_secondary : ℕ → ℕ → Bool
is_secondary off v = off == Reg.adr && has v hr_ars

abbrev pub is_mode : ℕ → ℕ → Bool
is_mode off v = off == Reg.admr

-- The auxiliary commands that take the chip offline and online.
abbrev pub is_power : ℕ → ℕ → Bool
is_power off v = off == Reg.auxmr && (v == aux_cr || v == aux_pon)

-- What was last written to the chip: the primary address `pad`, the second address register
-- disabled, the address mode of a primary address, and the command to go online.
pub record Programmed (pad : ℕ) (h : History) : Type 0 where
  pub primary : newest is_primary h ≡ some pad
  pub second : newest is_secondary h ≡ some 0xe0
  pub mode : newest is_mode h ≡ some 0x31
  pub power : newest is_power h ≡ some aux_pon

-- The chip is online as system controller at the address `pad`.
pub record IsOnline (pad : ℕ) (w : World) : Type 0 where
  pub coherent : IsCoherent w
  pub programmed : Programmed pad w.log
  pub address : w.chip.pad ≡ pad
  pub no_secondary : w.chip.sad ≡ negsuc 0
  pub small : pad ≤ 30
  pub controller : saw_sc w.log ≡ true

-- Only OK goes on.
if_ok-eq-ok :
    (rc : Status) (m : M Status) (w : World) {w' : World}
    → if_ok rc m w ≡ done ok w'
    → (rc ≡ ok) × (m w ≡ done ok w')
unfolding if_ok
if_ok-eq-ok ok m w e = (refl, e)
if_ok-eq-ok etimeout m w e = (cc, cc)
if_ok-eq-ok enolistener m w e = (cc, cc)
if_ok-eq-ok enotcic m w e = (cc, cc)
if_ok-eq-ok eio m w e = (cc, cc)
if_ok-eq-ok einval m w e = (cc, cc)
if_ok-eq-ok enotsc m w e = (cc, cc)

-- A primary address is written as it is.
primary_byte :
    (pad : ℕ)
    → pad < 31
    → (u8 (bit_and pad address_mask) == pad && not (has (u8 (bit_and pad address_mask)) hr_ars))
      ≡ true
primary_byte pad h =
    unfold holds_below in
    holds_below-at
      (λ p. u8 (bit_and p address_mask) == p && not (has (u8 (bit_and p address_mask)) hr_ars)) pad
      h refl

module _ ⦃io : Io⦄ where
  -- The writes before the address put the copies and the registers in step, from any state.
  prepare-IsCoherent : (w : World) {w' : World} → prepare w ≡ done tt w' → IsCoherent w'
  unfolding prepare
  prepare-IsCoherent w e = ground arith

  -- The writes that go online leave the address.
  go_online-newest :
      (w : World) {w' : World}
      → InRange w.chip
      → go_online w ≡ done ok w'
      → (newest is_primary w'.log ≡ newest is_primary w.log)
        × (newest is_secondary w'.log ≡ newest is_secondary w.log)
        × (newest is_mode w'.log ≡ newest is_mode w.log)
        × (newest is_power w'.log ≡ some aux_pon)
  unfolding go_online
  go_online-newest w r e =
      let b = Keeps-t1_auxrb w.chip.t1_ns w.chip.auxrb r.1 in
      let i = Keeps-t1_auxri w.chip.t1_ns w.chip.auxri r.2 in ground (arith, b, i)

  set_address-newest :
      (pad : ℕ) (w : World) {w' : World}
      → set_address pad (negsuc 0) w ≡ done ok w'
      → (newest is_primary w'.log ≡ some pad)
        × (newest is_secondary w'.log ≡ some 0xe0)
        × (newest is_mode w'.log ≡ some 0x31)
  unfolding set_address
  set_address-newest pad w e = elim (Bool-cases (ltb 30 pad)) [
    | inl big ↦ absurd (ground (arith, rw big at e))
    | inr small ↦ ground (arith, primary_byte pad (ground arith))
  ]

  go_online_lem :
      (w : World) {w' : World}
      → go_online w ≡ done ok w'
      → (w'.chip.pad ≡ w.chip.pad) × (w'.chip.sad ≡ w.chip.sad) × (saw_sc w'.log ≡ true)
  unfolding go_online
  go_online_lem w e = ground arith

  set_address_lem :
      (pad : ℕ) (w : World) {rc : Status} {w' : World}
      → set_address pad (negsuc 0) w ≡ done rc w'
      → rc ≡ ok
      → (pad ≤ 30) × (w'.chip.pad ≡ pad) × (w'.chip.sad ≡ negsuc 0)
  unfolding set_address
  set_address_lem pad w e o = ground arith

  configure-IsOnline :
      (pad : ℕ) (w : World) {w' : World} → configure pad w ≡ done ok w' → IsOnline pad w'
  unfolding configure
  configure-IsOnline pad w e =
      let (a, u, first, later) =
        and_then-eq-done (prepare w) (λ _. set_address pad (negsuc 0) >>= λ rc. if_ok rc go_online)
          e in
      let (rc, v, second, last) =
        and_then-eq-done (set_address pad (negsuc 0) u) (λ rc. if_ok rc go_online) later in
      let (isok, online) = if_ok-eq-ok rc go_online v last in
      let addressed = set_address_lem pad u second isok in
      let end = go_online_lem v online in
      let coherent =
        Steps-IsCoherent (prepare-IsCoherent w first)
          (Traced-Steps (Traced-set_address pad (negsuc 0)) second) in
      let written = set_address-newest pad u (second ∙ ap (λ c. done c v) isok) in
      let kept = go_online-newest v coherent.in_range online in
      record {
        coherent = Steps-IsCoherent coherent (Traced-Steps Traced-go_online online);
        programmed = record {
          primary = kept.0 ∙ written.0;
          second = kept.1 ∙ written.1;
          mode = kept.2 ∙ written.2;
          power = kept.3;
        };
        address = end.0 ∙ addressed.1;
        no_secondary = end.1 ∙ addressed.2;
        small = addressed.0;
        controller = end.2;
      }

  -- When `tnt_init` returns OK, the copies of the auxiliary registers are what was last written to
  -- the chip, whatever it held before; the address in the structure and the primary address last
  -- written to ADR are the one that was asked for, at most 30; the second address register was last
  -- disabled and the address mode set for a primary address; the last of the commands that reset
  -- the chip and release it (AUX_CR, AUX_PON) is the release; and the last register read showed
  -- this card as system controller.
  pub init-IsOnline : (pad : ℕ) (w : World) {w' : World} → init pad w ≡ done ok w' → IsOnline pad w'
  unfolding init
  init-IsOnline pad w e =
      let ((rc, r), u, first, later) =
        and_then-eq-done (probe w) (λ (p : Status × ProbeResult). if_ok p.0 (configure pad)) e in
      configure-IsOnline pad u (if_ok-eq-ok rc (configure pad) u later).1

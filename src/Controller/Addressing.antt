-- ===== src/Controller/Addressing.antt =====
-- The addressing sequences, seen from the bus.
use jornada_gpib.Prelude.{
  ◌∙◌, sym, subst, length-append, ◌++◌, ℕ, ◌+◌, ◌≤◌, ◌<◌, ◌≡◌, refl, Bool, true, false, ◌==◌, none,
  some, List, [], ◌∷◌, ℤ, pos, negsuc, length, arith, holds_below, holds_below-at, if◌then◌else◌,
}
use jornada_gpib.Chip.Io.{Chip}
use jornada_gpib.Controller.Bytes.{
  gpib_spe, gpib_lad, gpib_tad, gpib_sad, valid_address, secondary, build_address, build_addressed,
  build_poll, gpib_max_cmd,
}
use jornada_gpib.Controller.Bus.{
  unlisten, nobody, Pending, Address, Bus, listen, talk, second, meaning, obey, obey_all,
  to_listener, to_talker,
}

-- The address that a primary and an optional secondary address name.
abbrev pub address : ℤ → ℤ → Address
address (pos p) (pos s) = (p, some s)
address (pos p) (negsuc n) = (p, none)
address (negsuc n) sad = (0, none)

-- The own address of a chip is a valid one.
abbrev pub HasAddress : Chip → Type 0
HasAddress c = valid_address (pos c.pad) c.sad ≡ true

lad-meaning : (p : ℕ) → p < 31 → meaning (gpib_lad (pos p)) ≡ listen p
lad-meaning p h = ground (arith, value)
  where
    value : (gpib_lad (pos p) == 0x20 + p) ≡ true
    value =
        unfold gpib_lad holds_below in holds_below-at (λ k. gpib_lad (pos k) == 0x20 + k) p h refl

tad-meaning : (p : ℕ) → p < 31 → meaning (gpib_tad (pos p)) ≡ talk p
tad-meaning p h = ground (arith, value)
  where
    value : (gpib_tad (pos p) == 0x40 + p) ≡ true
    value =
        unfold gpib_tad holds_below in holds_below-at (λ k. gpib_tad (pos k) == 0x40 + k) p h refl

sad-meaning : (s : ℕ) → s < 31 → meaning (gpib_sad (pos s)) ≡ second s
sad-meaning s h = ground (arith, value)
  where
    value : (gpib_sad (pos s) == 0x60 + s) ≡ true
    value =
        unfold gpib_sad holds_below in holds_below-at (λ k. gpib_sad (pos k) == 0x60 + k) s h refl

-- A secondary address is used up by the device before it.
abbrev left_pending : ℤ → Pending → Pending
left_pending (pos s) q = nobody
left_pending (negsuc n) q = q

abbrev listening : ℕ → ℤ → Bus → Bus
listening p sad b = record b {
  listeners = address (pos p) sad ∷ b.listeners;
  pending = left_pending sad to_listener;
}

abbrev talking : ℕ → ℤ → Bus → Bus
talking p sad b = record b {
  talker = some (address (pos p) sad);
  pending = left_pending sad to_talker;
}

lad-listening :
    (p : ℕ) (sad : ℤ) (rest : List ℕ) (b : Bus)
    → valid_address (pos p) sad ≡ true
    → obey_all (gpib_lad (pos p) ∷ (secondary sad ++ rest)) b ≡ obey_all rest (listening p sad b)
lad-listening p (pos s) rest b h =
    rw (lad-meaning p (ground arith), sad-meaning s (ground arith)) refl
lad-listening p (negsuc n) rest b h = rw (lad-meaning p (ground arith)) refl

tad-talking :
    (p : ℕ) (sad : ℤ) (rest : List ℕ) (b : Bus)
    → valid_address (pos p) sad ≡ true
    → obey_all (gpib_tad (pos p) ∷ (secondary sad ++ rest)) b ≡ obey_all rest (talking p sad b)
tad-talking p (pos s) rest b h =
    rw (tad-meaning p (ground arith), sad-meaning s (ground arith)) refl
tad-talking p (negsuc n) rest b h = rw (tad-meaning p (ground arith)) refl

lad-listening_end :
    (p : ℕ) (sad : ℤ) (b : Bus)
    → valid_address (pos p) sad ≡ true
    → obey_all (gpib_lad (pos p) ∷ secondary sad) b ≡ listening p sad b
lad-listening_end p (pos s) b h =
    rw (lad-meaning p (ground arith), sad-meaning s (ground arith)) refl
lad-listening_end p (negsuc n) b h = rw (lad-meaning p (ground arith)) refl

tad-talking_end :
    (p : ℕ) (sad : ℤ) (b : Bus)
    → valid_address (pos p) sad ≡ true
    → obey_all (gpib_tad (pos p) ∷ secondary sad) b ≡ talking p sad b
tad-talking_end p (pos s) b h = rw (tad-meaning p (ground arith), sad-meaning s (ground arith)) refl
tad-talking_end p (negsuc n) b h = rw (tad-meaning p (ground arith)) refl

-- Exactly one device listens, and this one talks.
abbrev pub Connects : (talker listener : Address) → Bus → Type 0
Connects talker listener b = (b.listeners ≡ listener ∷ []) × (b.talker ≡ some talker)

-- For a device and an interface with valid addresses, whoever was addressed before: after the
-- addressing sequence the bus connects the device with this
-- interface: the one that `device_talks` says talks, and the other is the only listener.
pub build_address-Connects :
    (c : Chip) (pad sad : ℤ) (device_talks : Bool) (b : Bus)
    → valid_address pad sad ≡ true
    → HasAddress c
    → Connects
        (if device_talks then address pad sad else address (pos c.pad) c.sad)
        (if device_talks then address (pos c.pad) c.sad else address pad sad)
        (obey_all (build_address c pad sad device_talks) b)
unfolding build_address
build_address-Connects c (negsuc n) sad t b h own = cc
build_address-Connects c (pos p) sad true b h own =
    rw (tad-talking p sad _ _ h, lad-listening_end c.pad c.sad _ own) (refl, refl)
build_address-Connects c (pos p) sad false b h own =
    rw (lad-listening p sad _ _ h, tad-talking_end c.pad c.sad _ own) (refl, refl)

-- An addressed command, a byte below 0x20, to a valid address comes when the device is the only listener.
pub build_addressed-listeners :
    (pad sad : ℤ) (command : ℕ) (b : Bus)
    → valid_address pad sad ≡ true
    → command < 0x20
    → (obey_all (build_addressed pad sad command) b).listeners ≡ address pad sad ∷ []
unfolding build_addressed
build_addressed-listeners (negsuc n) sad command b h small = cc
build_addressed-listeners (pos p) sad command b h small =
    rw (lad-listening p sad (command ∷ []) _ h) (ground arith)

-- For valid addresses: after the poll sequence the polled device talks, and only this interface listens, by its primary
-- address.
pub build_poll-Connects :
    (c : Chip) (pad sad : ℤ) (b : Bus)
    → valid_address pad sad ≡ true
    → c.pad < 31
    → Connects (address pad sad) (c.pad, none) (obey_all (build_poll c pad sad) b)
unfolding build_poll
build_poll-Connects c (negsuc n) sad b h own = cc
build_poll-Connects c (pos p) sad b h own =
    let first =
      lad-listening c.pad (negsuc 0) (gpib_spe ∷ gpib_tad (pos p) ∷ secondary sad) (obey unlisten b)
        (ground arith) in
    subst (Connects (address (pos p) sad) (c.pad, none)) (sym (first ∙ tad-talking_end p sad _ h))
      (refl, refl)

length-secondary : (sad : ℤ) → length (secondary sad) ≤ 1
length-secondary (pos s) = ground arith
length-secondary (negsuc n) = ground arith

-- The command buffers of GPIB_MAX_CMD bytes are large enough for every sequence.
pub length-build :
    (c : Chip) (pad sad : ℤ) (device_talks : Bool) (command : ℕ)
    → (length (build_address c pad sad device_talks) ≤ gpib_max_cmd)
      × (length (build_addressed pad sad command) ≤ gpib_max_cmd)
      × (length (build_poll c pad sad) ≤ gpib_max_cmd)
unfolding build_address build_addressed build_poll
length-build c pad sad device_talks command = (
  omega (
    arith,
    length-append (secondary sad)
        ((if device_talks then gpib_lad (pos c.pad) else gpib_tad (pos c.pad)) ∷ secondary c.sad),
    length-secondary sad,
    length-secondary c.sad,
  ),
  omega (arith, length-append (secondary sad) (command ∷ []), length-secondary sad),
  omega (arith, length-secondary sad),
)

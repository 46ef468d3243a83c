-- ===== src/Driver/Window.antt =====
-- `pick_io_window` of src/gpib/drv_ce.c: the configuration entry of the card that is used.
use jornada_gpib.Prelude.{
  ℕ, zero, suc, ◌^◌, ◌≤◌, ◌<◌, ◌≡◌, ◌⊎◌, subst, refl, ap, sym, ◌∙◌, inl, inr, Bool, true, false,
  not, ◌&&◌, ◌||◌, ◌==◌, ltb, leb, if◌then◌else◌, get_elem?, List, [], ◌∷◌, Option, none, some,
  Option-cases, arith,
}
use jornada_gpib.Driver.Ioctls.{gpib_window_bytes}

-- The fields of `PARSED_CFTABLE` that are used; of the arrays, the first element.
pub record CfTable : Type 0 where
  pub config_index : ℕ
  pub io_access : ℕ
  pub num_io_entries : ℕ
  pub io_base : ℕ
  pub io_length : ℕ
  pub num_io_addr_lines : ℕ
  pub iface_present : Bool
  pub iface_type : ℕ

-- What is stored in the device.
pub record Window : Type 0 where
  pub io_base : ℕ
  pub io_length : ℕ
  pub config_index : ℕ
  pub io_access : ℕ

abbrev pub lines_len : CfTable → ℕ
lines_len e =
    if ltb 0 e.num_io_addr_lines && ltb e.num_io_addr_lines 16 then 2 ^ e.num_io_addr_lines else 0

abbrev window_at : (base size : ℕ) → CfTable → Window
window_at base size e = record {
  io_base = base;
  io_length = size;
  config_index = e.config_index;
  io_access = e.io_access;
}

-- The window of an entry that can be used.
unfoldable pub window_of : CfTable → Option Window
window_of e =
    if ltb 0 e.num_io_entries && leb gpib_window_bytes e.io_length
    then some (window_at e.io_base e.io_length e)
    else if e.num_io_entries == 0
        && leb gpib_window_bytes (lines_len e)
        && (not e.iface_present || e.iface_type == 1)
    then some (window_at 0 (lines_len e) e)
    else none

-- The loop over the entries, with the best one so far.
unfoldable pub pick_loop : Option Window → List CfTable → Option Window
unfolding window_of
pick_loop best [] = best
pick_loop (some w) (e ∷ es) = pick_loop (some w) es
pick_loop none (e ∷ es) = pick_loop (window_of e) es

-- `good` and `cft` are what CardGetParsedTuple gives.
unfoldable pub pick_io_window : (good : Bool) → (cft : List CfTable) → Option Window
unfolding pick_loop
pick_io_window good cft = if not good then none else pick_loop none cft

-- `w` is the window of an entry with I/O ranges, or that of an entry with none whose address lines
-- are decoded, if its interface is I/O or is not given.
pub record IsUsable (e : CfTable) (w : Window) : Type 0 where
  pub range :
      ((1 ≤ e.num_io_entries)
        × (32 ≤ e.io_length)
        × (w.io_base ≡ e.io_base)
        × (w.io_length ≡ e.io_length))
      ⊎ ((e.num_io_entries ≡ 0)
          × (1 ≤ e.num_io_addr_lines)
          × (e.num_io_addr_lines < 16)
          × (32 ≤ 2 ^ e.num_io_addr_lines)
          × ((e.iface_present ≡ false) ⊎ (e.iface_type ≡ 1))
          × (w.io_base ≡ 0)
          × (w.io_length ≡ 2 ^ e.num_io_addr_lines))
  pub config_index : w.config_index ≡ e.config_index
  pub io_access : w.io_access ≡ e.io_access

-- The first entry that can be used.
pub record IsPicked (es : List CfTable) (w : Window) : Type 0 where
  pub index : ℕ
  pub entry : CfTable
  pub within : get_elem? es index ≡ some entry
  pub usable : IsUsable entry w
  pub before :
      (i : ℕ) (e : CfTable) (v : Window) → i < index → get_elem? es i ≡ some e → ¬ IsUsable e v

window_of-IsUsable : (e : CfTable) (w : Window) → window_of e ≡ some w → IsUsable e w
unfolding window_of
window_of-IsUsable e w h = record {
  range = ground (arith, h);
  config_index = ground (arith, h);
  io_access = ground (arith, h);
}

window_of-none : (e : CfTable) (v : Window) → window_of e ≡ none → ¬ IsUsable e v
unfolding window_of
window_of-none e v h u = elim u.range [ inl r ↦ ground (arith, h) | inr r ↦ ground (arith, h) ]

pick_loop-some : (w : Window) (es : List CfTable) → pick_loop (some w) es ≡ some w
unfolding pick_loop
pick_loop-some w [] = refl
pick_loop-some w (e ∷ es) = pick_loop-some w es

some_injective : {a b : CfTable} → some a ≡ some b → a ≡ b
some_injective h = cc

IsPicked-later :
    (e : CfTable) (es : List CfTable) (w : Window)
    → window_of e ≡ none
    → IsPicked es w
    → IsPicked (e ∷ es) w
IsPicked-later e es w h p = record {
  index = suc p.index;
  entry = p.entry;
  within = p.within;
  usable = p.usable;
  before = rest;
}
  where
    rest :
        (i : ℕ) (f : CfTable) (v : Window)
        → i < suc p.index
        → get_elem? (e ∷ es) i ≡ some f
        → ¬ IsUsable f v
    rest zero f v k g =
        λ u. window_of-none e v h (subst (λ x. IsUsable x v) (sym (some_injective g)) u)
    rest (suc i) f v k g = p.before i f v (omega arith) g

pick_loop-IsPicked : (es : List CfTable) (w : Window) → pick_loop none es ≡ some w → IsPicked es w
unfolding pick_loop
pick_loop-IsPicked [] w h = absurd (ground (arith, h))
pick_loop-IsPicked (e ∷ es) w h = elim (Option-cases (window_of e)) [
  | inl n ↦ IsPicked-later e es w n (pick_loop-IsPicked es w (ap (λ o. pick_loop o es) (sym n) ∙ h))
  | inr (v, q) ↦ record {
    index = 0;
    entry = e;
    within = refl;
    usable =
        window_of-IsUsable e w
          (q ∙ sym (pick_loop-some v es) ∙ ap (λ o. pick_loop o es) (sym q) ∙ h);
    before = λ i f x k. absurd (omega arith);
  }
]

IsUsable-large : (e : CfTable) (w : Window) → IsUsable e w → 32 ≤ w.io_length
IsUsable-large e w u = elim u.range [ inl r ↦ omega arith | inr r ↦ omega arith ]

-- What is picked comes from the first entry that can be used: one with I/O ranges whose first has
-- at least 32 bytes gives that range; one with none, with 1 to 15 address lines that span at least
-- 32 bytes and an interface that is I/O or not given, gives what its lines span, from 0 on.
pub pick_io_window-IsPicked :
    (good : Bool) (cft : List CfTable) (w : Window)
    → pick_io_window good cft ≡ some w
    → IsPicked cft w × (32 ≤ w.io_length)
unfolding pick_io_window
pick_io_window-IsPicked false cft w h = absurd (cc)
pick_io_window-IsPicked true cft w h =
    let p = pick_loop-IsPicked cft w h in (p, IsUsable-large p.entry w p.usable)

-- ===== src/Chip/Protocol/Ranges.antt =====
-- What the driver stores to the copy of an auxiliary register addresses that register.
use jornada_gpib.Prelude.{
  ℕ, ◌+◌, ◌<◌, ◌≡◌, refl, Bool, true, false, not, ◌||◌, ◌&&◌, ltb, leb, bit_or, arith, has, clear,
  if◌then◌else◌, holds_below, holds_below-at,
}
use jornada_gpib.Chip.Bits.{
  hr_hlda, hr_hlde, hr_reos, hr_bin, hr_xeos, hr_tri, hr_ustd, tnt_eos_reos, tnt_eos_bin,
  tnt_eos_xeos,
}
use jornada_gpib.Chip.Access.{handshake}
use jornada_gpib.Chip.Setup.{set_if, eos_auxra, t1_auxrb, t1_auxri}
use jornada_gpib.Chip.Protocol.Steps.{is_auxra, is_auxrb, is_auxri, Keeps}

pub Keeps-table :
    (p : ℕ → Bool) (f : ℕ → ℕ)
    → ((x : ℕ) → p x ≡ true → x < 256)
    → holds_below (λ x. not (p x) || p (f x)) 256 ≡ true
    → Keeps p f
Keeps-table p f below table x h = ground (arith, below x h, checked)
  where
    checked : (not (p x) || p (f x)) ≡ true
    checked = holds_below-at (λ y. not (p y) || p (f y)) x (below x h) table

is_auxra-lt : (x : ℕ) → is_auxra x ≡ true → x < 256
is_auxra-lt x h = ground arith

is_auxrb-lt : (x : ℕ) → is_auxrb x ≡ true → x < 256
is_auxrb-lt x h = ground arith

is_auxri-lt : (x : ℕ) → is_auxri x ≡ true → x < 256
is_auxri-lt x h = ground arith

pub Keeps-handshake_hlda : Keeps is_auxra (handshake hr_hlda)
unfolding holds_below
Keeps-handshake_hlda = Keeps-table is_auxra (handshake hr_hlda) is_auxra-lt refl

pub Keeps-handshake_hlde : Keeps is_auxra (handshake hr_hlde)
unfolding holds_below
Keeps-handshake_hlde = Keeps-table is_auxra (handshake hr_hlde) is_auxra-lt refl

Keeps-clear : Keeps is_auxra (λ v. clear v (hr_reos + hr_bin + hr_xeos))
unfolding holds_below
Keeps-clear = Keeps-table is_auxra (λ v. clear v (hr_reos + hr_bin + hr_xeos)) is_auxra-lt refl

Keeps-set_if :
    (b : Bool) (mask : ℕ) → Keeps is_auxra (λ v. bit_or v mask) → Keeps is_auxra (set_if b mask)
Keeps-set_if true mask k = k
Keeps-set_if false mask k = λ x h. h

Keeps-reos : Keeps is_auxra (λ v. bit_or v hr_reos)
unfolding holds_below
Keeps-reos = Keeps-table is_auxra (λ v. bit_or v hr_reos) is_auxra-lt refl

Keeps-bin : Keeps is_auxra (λ v. bit_or v hr_bin)
unfolding holds_below
Keeps-bin = Keeps-table is_auxra (λ v. bit_or v hr_bin) is_auxra-lt refl

Keeps-xeos : Keeps is_auxra (λ v. bit_or v hr_xeos)
unfolding holds_below
Keeps-xeos = Keeps-table is_auxra (λ v. bit_or v hr_xeos) is_auxra-lt refl

pub Keeps-eos_auxra : (flags : ℕ) → Keeps is_auxra (eos_auxra flags)
Keeps-eos_auxra flags x h = Keeps-set_if (has flags tnt_eos_xeos) hr_xeos Keeps-xeos _ (
    Keeps-set_if (has flags tnt_eos_bin) hr_bin Keeps-bin _
      (Keeps-set_if (has flags tnt_eos_reos) hr_reos Keeps-reos _ (Keeps-clear x h)))

Keeps-if :
    (p : ℕ → Bool) (b : Bool) (f g : ℕ → ℕ)
    → Keeps p f
    → Keeps p g
    → Keeps p (λ v. if b then f v else g v)
Keeps-if p true f g k l = k
Keeps-if p false f g k l = l

Keeps-tri : Keeps is_auxrb (λ v. bit_or v hr_tri)
unfolding holds_below
Keeps-tri = Keeps-table is_auxrb (λ v. bit_or v hr_tri) is_auxrb-lt refl

Keeps-no_tri : Keeps is_auxrb (λ v. clear v hr_tri)
unfolding holds_below
Keeps-no_tri = Keeps-table is_auxrb (λ v. clear v hr_tri) is_auxrb-lt refl

Keeps-ustd : Keeps is_auxri (λ v. bit_or v hr_ustd)
unfolding holds_below
Keeps-ustd = Keeps-table is_auxri (λ v. bit_or v hr_ustd) is_auxri-lt refl

Keeps-no_ustd : Keeps is_auxri (λ v. clear v hr_ustd)
unfolding holds_below
Keeps-no_ustd = Keeps-table is_auxri (λ v. clear v hr_ustd) is_auxri-lt refl

pub Keeps-t1_auxrb : (ns : ℕ) → Keeps is_auxrb (t1_auxrb ns)
Keeps-t1_auxrb ns = Keeps-if is_auxrb (leb ns 500) _ _ Keeps-tri Keeps-no_tri

pub Keeps-t1_auxri : (ns : ℕ) → Keeps is_auxri (t1_auxri ns)
Keeps-t1_auxri ns = Keeps-if is_auxri (ltb 500 ns && leb ns 1100) _ _ Keeps-ustd Keeps-no_ustd

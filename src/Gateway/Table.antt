-- ===== src/Gateway/Table.antt =====
-- The descriptors in use around the operations of src/gpibsrv/gpibsrv.c: rules for functions that
-- leave as many open as there were.
use jornada_gpib.Prelude.{
  subst, ℕ, zero, suc, ◌≡◌, refl, ap, Bool, true, false, if◌then◌else◌, List, [], ◌∷◌, map, length,
  set, get_elem?, some, ℤ, pos, negsuc, arith,
}
use jornada_gpib.Api.State.{Device, C}
use jornada_gpib.Api.Unchanged.{Leaves}
use jornada_gpib.Gateway.State.{
  Gateway, Server, Run, done, busy, G, and_then, ◌>>=◌, give, waits, gateway, update, library,
  status,
}
use jornada_gpib.Gateway.Transfers.{store_read, buffered}

abbrev pub in_uses : List Device → List Bool
in_uses ds = map (λ d. d.in_use) ds

pub in_uses-get :
    (ds : List Device) (n : ℕ)
    → get_elem? (in_uses ds) n ≡ some true
    → (d : Device) × (get_elem? ds n ≡ some d) × (d.in_use ≡ true)
in_uses-get [] n e = cc
in_uses-get (d ∷ ds) zero e = (d, refl, cc)
in_uses-get (d ∷ ds) (suc n) e = in_uses-get ds n e

pub get-in_uses :
    (ds : List Device) (n : ℕ) {d : Device}
    → get_elem? ds n ≡ some d
    → get_elem? (in_uses ds) n ≡ some d.in_use
get-in_uses [] n e = cc
get-in_uses (x ∷ ds) zero e = cc
get-in_uses (x ∷ ds) (suc n) e = get-in_uses ds n e

pub in_uses-set :
    (ds : List Device) (n : ℕ) (d : Device) → in_uses (set ds n d) ≡ set (in_uses ds) n d.in_use
in_uses-set [] n d = refl
in_uses-set (x ∷ ds) zero d = refl
in_uses-set (x ∷ ds) (suc n) d = rw (in_uses-set ds n d) refl

module _ {ℓ} {A : Type ℓ} where
  pub set-set-back :
      (xs : List A) (n : ℕ) (x : A) {y : A} → get_elem? xs n ≡ some y → set (set xs n x) n y ≡ xs
  set-set-back [] n x e = cc
  set-set-back (z ∷ zs) zero x e = cc
  set-set-back (z ∷ zs) (suc n) x e = rw (set-set-back zs n x e) refl

pub length-in_uses : (ds : List Device) → length (in_uses ds) ≡ length ds
length-in_uses [] = refl
length-in_uses (d ∷ ds) = omega (arith, length-in_uses ds)

-- Where the run returns, exactly these descriptors are in use.
abbrev pub InUse : List Bool → {A : Type 0} → Run A → Type 0
InUse flags (done a u) = in_uses u.api.devices ≡ flags
InUse flags (busy u) = Unit {0}

-- Where the function returns, the same descriptors are in use as before, from any table of 16.
pub record Balanced {A : Type 0} (m : G A) : Type 0 where
  pub at : (s : Server) → length (in_uses s.api.devices) ≡ 16 → InUse (in_uses s.api.devices) (m s)

pub InUse-then :
    {A B : Type 0} (flags : List Bool) (r : Run A) (f : A → G B)
    → length flags ≡ 16
    → InUse flags r
    → ((a : A) → Balanced (f a))
    → InUse flags (and_then r f)
InUse-then flags (done a u) f full e h = subst (λ fs. InUse fs (f a u)) e ((h a).at u (rw e full))
InUse-then flags (busy u) f full e h = tt

pub Balanced-bind :
    {A B : Type 0} (m : G A) (f : A → G B)
    → Balanced m
    → ((a : A) → Balanced (f a))
    → Balanced (m >>= f)
Balanced-bind m f h k = record {
  at = λ s full. InUse-then (in_uses s.api.devices) (m s) f full (h.at s full) k;
}

pub Balanced-if :
    {A : Type 0} (b : Bool) (m n : G A) → Balanced m → Balanced n → Balanced (if b then m else n)
Balanced-if true m n h k = h
Balanced-if false m n h k = k

pub Balanced-give : {A : Type 0} (a : A) → Balanced (give a)
unfolding give
Balanced-give a = record { at = λ s full. refl }

pub Balanced-waits : {A : Type 0} → Balanced (waits {A = A})
unfolding waits
Balanced-waits = record { at = λ s full. tt }

pub Balanced-gateway : Balanced gateway
unfolding gateway
Balanced-gateway = record { at = λ s full. refl }

pub Balanced-status : Balanced status
unfolding status
Balanced-status = record { at = λ s full. refl }

pub Balanced-update : (f : Gateway → Gateway) → Balanced (update f)
unfolding update
Balanced-update f = record { at = λ s full. refl }

pub Balanced-library : {A : Type 0} (m : C A) → Leaves m → Balanced (library m)
unfolding library
Balanced-library m h = record { at = λ s full. ap in_uses (h.at s.api) }

pub Balanced-store_read : (bytes : List ℕ) → Balanced (store_read bytes)
unfolding store_read
Balanced-store_read bytes = record { at = λ s full. refl }

pub Balanced-buffered : (n : ℤ) → Balanced (buffered n)
unfolding buffered
Balanced-buffered (pos n) = record { at = λ s full. refl }
Balanced-buffered (negsuc n) = record { at = λ s full. refl }

pub ruleset balanced = (
  Balanced-bind, Balanced-if, Balanced-give, Balanced-waits, Balanced-gateway, Balanced-status,
  Balanced-update, Balanced-library, Balanced-store_read, Balanced-buffered,
)

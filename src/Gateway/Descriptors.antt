-- ===== src/Gateway/Descriptors.antt =====
-- The operations of src/gpibsrv/gpibsrv.c that open a descriptor: each closes it again.
use jornada_gpib.Prelude.{
  length-set, subst, ℕ, suc, ◌+◌, ◌<◌, ◌≡◌, ◌∙◌, sym, ap, Bool, true, false, if◌then◌else◌, List,
  length, set, get_elem?, some, ℤ, pos, negsuc, is_neg, arith,
}
use jornada_gpib.Api.State.{Device, Api, Os}
use jornada_gpib.Api.Transfers.{ibonl}
use jornada_gpib.Gateway.State.{Server, Run, done, busy, G, and_then, ◌>>=◌, ◌>>◌, library}
use jornada_gpib.Gateway.State
use jornada_gpib.Gateway.Target.{
  refused, opened, open_at-Opened, configure-devices, get_elem-below, get_elem-drop, get_elem-set,
}
use jornada_gpib.Gateway.Table.{
  in_uses, in_uses-get, get-in_uses, in_uses-set, set-set-back, length-in_uses, InUse, Balanced,
}
use jornada_gpib.Gateway.Transfers.{open_at}

-- Closing descriptor `i`, which was not in use before.
closed :
    {A B : Type 0} (flags : List Bool) (i : ℕ) (r : Run A) (tail : A → G B)
    → length flags ≡ 16
    → get_elem? flags (suc i) ≡ some false
    → InUse (set flags (suc i) true) r
    → ((a : A) → Balanced (tail a))
    → InUse flags (and_then r (λ a. library (ibonl (pos (suc i)) false) >>= λ _. tail a))
unfolding library ibonl
closed flags i (busy u) tail full free used h = tt
closed flags i (done a u) tail full free used h =
    let slot : get_elem? (in_uses u.api.devices) (suc i) ≡ some true =
      rw used (get_elem-set flags (suc i) true free) in
    let (d, there, open') = in_uses-get u.api.devices (suc i) slot in
    let small : i + 1 < 16 = omega (arith, get_elem-below flags (suc i) free, full) in
    let api' : Api = (ibonl (pos (suc i)) false u.api).1 in
    let now : in_uses api'.devices ≡ flags =
      ap in_uses (configure-devices i (λ e. record e { in_use = false }) d u.api small there open')
      ∙ in_uses-set u.api.devices (suc i) (record d { in_use = false })
      ∙ ap (λ fs. set fs (suc i) false) used
      ∙ set-set-back flags (suc i) true free in
    let u' : Server = record u { api = api' } in
    subst (λ fs. InUse fs (tail a u')) now ((h a).at u' (rw now full))

-- What comes after opening a target: `body`, closing it, and `tail`; nothing where it is not open.
abbrev pub around : {A : Type 0} → (ℤ → G A) → (A → G (Unit {0})) → ℤ → G (Unit {0})
around body tail ud =
    if is_neg ud then State.give tt else (body ud >>= λ a. library (ibonl ud false) >>= λ _. tail a)

not_opened :
    {A : Type 0} (body : ℤ → G A) (tail : A → G (Unit {0})) (flags : List Bool) (ud : ℤ)
    (u : Server)
    → is_neg ud ≡ true
    → in_uses u.api.devices ≡ flags
    → InUse flags (around body tail ud u)
unfolding State.give
not_opened body tail flags (negsuc n) u e h = h
not_opened body tail flags (pos n) u e h = cc

module _ ⦃os : Os⦄ where
  -- A function that opens a target, works with it, closes it and goes on is balanced where its parts
  -- are.
  pub around-Balanced :
      {A : Type 0} (pad sad : ℤ) (eoi : Bool) (body : ℤ → G A) (tail : A → G (Unit {0}))
      → ((ud : ℤ) → Balanced (body ud))
      → ((a : A) → Balanced (tail a))
      → Balanced (open_at pad sad eoi >>= around body tail)
  around-Balanced pad sad eoi body tail hb ht = record {
    at = λ s full.
        let ds : List Device = s.api.devices in
        let flags : List Bool = in_uses ds in
        let sixteen : length ds ≡ 16 = sym (length-in_uses ds) ∙ full in
        elim (open_at-Opened pad sad eoi s sixteen) [
          | refused ud u e negative same ↦
              subst (λ r. InUse flags (and_then r (around body tail))) (sym e)
                (not_opened body tail flags ud u negative (ap in_uses same))
          | opened i u e first now ↦
              let slot : get_elem? ds (suc i) ≡ some first.entry =
                sym (get_elem-drop ds i) ∙ first.within in
              let free : get_elem? flags (suc i) ≡ some false =
                get-in_uses ds (suc i) slot ∙ ap (λ b. some b) first.free in
              let used : in_uses u.api.devices ≡ set flags (suc i) true =
                ap in_uses now ∙ in_uses-set ds (suc i) _ in
              subst (λ r. InUse flags (and_then r (around body tail))) (sym e)
                (closed flags i (body (pos (suc i)) u) tail full free
                  (subst (λ fs. InUse fs (body (pos (suc i)) u)) used
                    ((hb (pos (suc i))).at u (rw used (length-set flags (suc i) true ∙ full))))
                  ht)
        ];
  }

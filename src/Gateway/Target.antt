-- ===== src/Gateway/Target.antt =====
-- The descriptor that src/gpibsrv/gpibsrv.c opens for its target, and its timeout.
use jornada_gpib.Prelude.{
  ◌∙◌, sym, length, some, ℕ, zero, suc, ◌+◌, ◌≤◌, ◌<◌, ◌≡◌, ◌⊎◌, refl, ap, sym, ◌∙◌, Bool, true,
  leb, List, [], ◌∷◌, drop, set, get_elem?, ℤ, pos, negsuc, is_neg, arith, inl, inr, Bool-cases,
}
use jornada_gpib.Api.Codes
use jornada_gpib.Api.State.{ok, device, Api, Device, Os}
use jornada_gpib.Api.Table.{IsFirstFree, ibdev-Opens, new_device}
use jornada_gpib.Api.Transfers.{configure, ibtmo_ms}
use jornada_gpib.Gateway.State.{gateway, give, Server, Run, done, library}
use jornada_gpib.Gateway.Transfers.{code_from, timeout_code, open_at}
use jornada_gpib.Api.Calls.{ibdev}

-- The least code from 1 on whose timeout is long enough, or the last one.
pub record IsLeastCode (ms : ℕ) (code : ℕ) : Type 0 where
  pub first : 1 ≤ code
  pub last : code ≤ 17
  pub enough : (ms ≤ Codes.timeout_ms (pos code)) ⊎ (code ≡ 17)
  pub least : (c : ℕ) → 1 ≤ c → c < code → Codes.timeout_ms (pos c) < ms

code_from-lower :
    (left code ms c : ℕ) → code ≤ c → c < code_from left code ms → Codes.timeout_ms (pos c) < ms
code_from-lower zero code ms c low high = absurd (omega arith)
code_from-lower (suc left) code ms c low high =
    elim (Bool-cases (leb ms (Codes.timeout_ms (pos code)))) [
      | inl e ↦ absurd (ground (arith, e))
      | inr e ↦ ground (arith, e, code_from-lower left (suc code) ms c)
    ]

code_from-range :
    (left code ms : ℕ) → (code ≤ code_from left code ms) × (code_from left code ms ≤ code + left)
code_from-range zero code ms = (omega arith, omega arith)
code_from-range (suc left) code ms = ground (arith, code_from-range left (suc code) ms)

code_from-enough :
    (left code ms : ℕ)
    → (ms ≤ Codes.timeout_ms (pos (code_from left code ms)))
      ⊎ (code_from left code ms ≡ code + left)
code_from-enough zero code ms = inr (omega arith)
code_from-enough (suc left) code ms = elim (Bool-cases (leb ms (Codes.timeout_ms (pos code)))) [
  | inl e ↦ rw e (inl (ground (arith, e)))
  | inr e ↦ rw e (ground (arith, code_from-enough left (suc code) ms))
]

-- The code for a timeout is the least from IB_T10us on that is at least as long, or else IB_T1000s.
pub timeout_code-IsLeastCode : (ms : ℕ) → IsLeastCode ms (timeout_code ms)
unfolding timeout_code
timeout_code-IsLeastCode ms = record {
  first = (code_from-range 16 1 ms).0;
  last = (code_from-range 16 1 ms).1;
  enough = code_from-enough 16 1 ms;
  least = λ c low high. code_from-lower 16 1 ms c low high;
}

module _ {ℓ} {A : Type ℓ} where
  pub get_elem-set :
      (xs : List A) (n : ℕ) (x : A) {y : A}
      → get_elem? xs n ≡ some y
      → get_elem? (set xs n x) n ≡ some x
  get_elem-set [] n x e = cc
  get_elem-set (z ∷ zs) zero x e = refl
  get_elem-set (z ∷ zs) (suc n) x e = get_elem-set zs n x e

  pub get_elem-drop : (xs : List A) (n : ℕ) → get_elem? (drop 1 xs) n ≡ get_elem? xs (suc n)
  get_elem-drop [] n = refl
  get_elem-drop (x ∷ xs) n = refl

  pub get_elem-below : (xs : List A) (n : ℕ) {y : A} → get_elem? xs n ≡ some y → n < length xs
  get_elem-below [] n e = cc
  get_elem-below (x ∷ xs) zero e = omega arith
  get_elem-below (x ∷ xs) (suc n) e = omega (arith, get_elem-below xs n e)

  set-set : (xs : List A) (n : ℕ) (x y : A) → set (set xs n x) n y ≡ set xs n y
  set-set [] n x y = refl
  set-set (z ∷ zs) zero x y = refl
  set-set (z ∷ zs) (suc n) x y = rw (set-set zs n x y) refl

-- A descriptor in use is found.
pub device-found :
    (n : ℕ) (d : Device) (s : Api)
    → n + 1 < 16
    → get_elem? s.devices (suc n) ≡ some d
    → d.in_use ≡ true
    → device (pos (suc n)) s ≡ (some (suc n, d), s)
unfolding device
device-found n d s small there used = ground (arith, small, there, used)

pub configure-devices :
    (n : ℕ) (f : Device → Device) (d : Device) (s : Api)
    → n + 1 < 16
    → get_elem? s.devices (suc n) ≡ some d
    → d.in_use ≡ true
    → (configure (pos (suc n)) f s).1.devices ≡ set s.devices (suc n) (f d)
unfolding configure ok
configure-devices n f d s small there used = rw (device-found n d s small there used) refl

-- The call returns. It gives a negative number and leaves the table, or the lowest free descriptor
-- from 1 on, which then is `new`, the others being as they were.
pub data Opened (ds : List Device) (new : Device) (r : Run ℤ) : Type 0 where
  refused :
      (ud : ℤ) (u : Server)
      → r ≡ done ud u
      → is_neg ud ≡ true
      → u.api.devices ≡ ds
      → Opened ds new r
  opened :
      (i : ℕ) (u : Server)
      → r ≡ done (pos (suc i)) u
      → IsFirstFree (drop 1 ds) i
      → u.api.devices ≡ set ds (suc i) new
      → Opened ds new r

-- The entry for the address, with the timeout as it was set.
abbrev pub target : (pad sad : ℤ) (eoi : Bool) (timeout : ℕ) → Device
target pad sad eoi timeout = record {
  in_use = true;
  pad = pad;
  sad = sad;
  timeout_ms = timeout;
  eot = eoi;
  eos = 0;
}

module _ ⦃os : Os⦄ where
  -- For a full table of 16 entries: opening the target fails and leaves the table, or takes the
  -- lowest free descriptor from 1 on for the address, with exactly the timeout that was set.
  pub open_at-Opened :
      (pad sad : ℤ) (eoi : Bool) (s : Server)
      → length s.api.devices ≡ 16
      → Opened s.api.devices (target pad sad eoi s.gw.read_tmo_ms) (open_at pad sad eoi s)
  unfolding open_at gateway library give ibtmo_ms
  open_at-Opened pad sad eoi s full =
      let code : ℤ = pos (timeout_code s.gw.read_tmo_ms) in
      let r = ibdev (pos 0) pad sad code eoi 0 s.api in
      elim (ibdev-Opens (pos 0) pad sad code eoi 0 s.api) [
        | inl failed ↦
            refused (negsuc 0) (record s { api = r.1 }) (rw failed.failed refl) refl failed.same
        | inr good ↦
            let i = good.index in
            let entry = new_device pad sad code eoi 0 in
            let one : 1 + i ≡ suc i = omega arith in
            let assigned : r.0 ≡ pos (suc i) = good.assigned ∙ ap (λ n. pos n) one in
            let now : r.1.devices ≡ set s.api.devices (suc i) entry =
              good.now ∙ ap (λ n. set s.api.devices n entry) one in
            let slot : get_elem? s.api.devices (suc i) ≡ some good.lowest.entry =
              sym (get_elem-drop s.api.devices i) ∙ good.lowest.within in
            let there : get_elem? r.1.devices (suc i) ≡ some entry =
              rw now (get_elem-set s.api.devices (suc i) entry slot) in
            opened i (record s { api = (ibtmo_ms (pos (suc i)) s.gw.read_tmo_ms r.1).1 })
              (rw assigned refl) good.lowest
              (configure-devices i (λ d. record d { timeout_ms = s.gw.read_tmo_ms }) entry r.1
                  (omega (arith, get_elem-below s.api.devices (suc i) slot, full)) there refl
                ∙ rw now (set-set s.api.devices (suc i) entry _))
      ]

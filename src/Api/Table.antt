-- ===== src/Api/Table.antt =====
-- The device table of src/gpibapi/ib.c: what opening a descriptor does to it.
use jornada_gpib.Api.Requests.{last_error}
use jornada_gpib.Prelude.{
  ge_minus_one, gtz, is_neg, ◌||◌, not, Bool-cases, ℕ, zero, suc, ◌+◌, ◌<◌, ◌≡◌, refl, ◌⊎◌, inl,
  inr, Bool, true, false, List, [], ◌∷◌, drop, set, get_elem?, none, some, ℤ, pos, negsuc, arith,
}
use jornada_gpib.Api.Codes
use jornada_gpib.Api.State.{opened, ok, fail, Os, Api, Device}
use jornada_gpib.Api.Calls.{is_zero, claim, ibfind_board, ibdev, first_free}

-- All entries before `n` are in use.
AreBusy : List Device → ℕ → Type 0
AreBusy ds n = (i : ℕ) (d : Device) → i < n → get_elem? ds i ≡ some d → d.in_use ≡ true

-- Entry `n` is the first one that is free.
pub record IsFirstFree (ds : List Device) (n : ℕ) : Type 0 where
  pub entry : Device
  pub within : get_elem? ds n ≡ some entry
  pub free : entry.in_use ≡ false
  pub before : (i : ℕ) (d : Device) → i < n → get_elem? ds i ≡ some d → d.in_use ≡ true

-- No entry is free.
abbrev pub IsFull : List Device → Type 0
IsFull ds = (i : ℕ) (d : Device) → get_elem? ds i ≡ some d → d.in_use ≡ true

busy-IsFull : (d : Device) (ds : List Device) → d.in_use ≡ true → IsFull ds → IsFull (d ∷ ds)
busy-IsFull d ds b f zero e h = cc
busy-IsFull d ds b f (suc i) e h = f i e h

busy-IsFirstFree :
    (d : Device) (ds : List Device) (i : ℕ)
    → d.in_use ≡ true
    → IsFirstFree ds i
    → IsFirstFree (d ∷ ds) (suc i)
busy-IsFirstFree d ds i b f = record {
  entry = f.entry;
  within = f.within;
  free = f.free;
  before = rest;
}
  where
    rest : (j : ℕ) (e : Device) → j < suc i → get_elem? (d ∷ ds) j ≡ some e → e.in_use ≡ true
    rest zero e k h = cc
    rest (suc j) e k h = f.before j e (omega arith) h

first_free-cases :
    (n : ℕ) (ds : List Device)
    → ((first_free n ds ≡ none) × IsFull ds)
      ⊎ ((i : ℕ) × (first_free n ds ≡ some (n + i)) × IsFirstFree ds i)
first_free-cases n [] = inl (refl, λ i d e. cc)
first_free-cases n (d ∷ ds) = elim (Bool-cases d.in_use) [
  | inr free ↦ inr (
    0,
    ground (arith, free),
    record { entry = d; within = refl; free = free; before = λ i e h. absurd (omega arith) },
  )
  | inl busy ↦ elim (first_free-cases (suc n) ds) [
    | inl (e, full) ↦ inl (ground (arith, busy, e), busy-IsFull d ds busy full)
    | inr (i, e, f) ↦ inr (suc i, ground (arith, busy, e), busy-IsFirstFree d ds i busy f)
  ]
]

-- The call was refused: the table is as it was, and where the code is ETAB it is full.
pub record IsRefused (ds : List Device) (result : ℤ) (s : Api) : Type 0 where
  pub failed : result ≡ negsuc 0
  pub same : s.devices ≡ ds
  pub error : s.ibsta ≡ 0x8100
  pub full : s.iberr ≡ 20 → IsFull (drop 1 ds)

-- The lowest free entry from 1 on has the settings, and the others are as they were.
pub record IsAssigned (settings : Device) (ds : List Device) (result : ℤ) (s : Api) : Type 0 where
  pub index : ℕ
  pub assigned : result ≡ pos (1 + index)
  pub lowest : IsFirstFree (drop 1 ds) index
  pub now : s.devices ≡ set ds (1 + index) settings
  pub success : s.ibsta ≡ 0x100

abbrev pub Opens : Device → List Device → ℤ × Api → Type 0
Opens d ds r = IsRefused ds r.0 r.1 ⊎ IsAssigned d ds r.0 r.1

-- The entry that `claim` makes.
abbrev pub new_device : (pad sad tmo : ℤ) (eot : Bool) (eos : ℕ) → Device
new_device pad sad tmo eot eos = record {
  in_use = true;
  pad = pad;
  sad = sad;
  timeout_ms = Codes.timeout_ms tmo;
  eot = eot;
  eos = eos;
}

module _ ⦃os : Os⦄ where
  claim-Opens :
      (pad sad tmo : ℤ) (eot : Bool) (eos : ℕ) (s : Api)
      → Opens (new_device pad sad tmo eot eos) s.devices (claim pad sad tmo eot eos s)
  unfolding claim fail ok
  claim-Opens pad sad tmo eot eos s = elim (first_free-cases 1 (drop 1 s.devices)) [
    | inl (e, full) ↦
        rw e (inl (record { failed = refl; same = refl; error = refl; full = λ h. full }))
    | inr (i, e, f) ↦
        rw e (inr (record { index = i; assigned = refl; lowest = f; now = refl; success = refl }))
  ]

  -- `ibdev` returns -1 and leaves the table, or takes the lowest free descriptor from 1 on for the
  -- given settings and leaves the others. It finds no room only if all of them are in use.
  pub ibdev-Opens :
      (board pad sad tmo : ℤ) (eot : Bool) (eos : ℕ) (s : Api)
      → Opens (new_device pad sad tmo eot eos) s.devices (ibdev board pad sad tmo eot eos s)
  unfolding ibdev fail ibfind_board last_error
  ibdev-Opens board pad sad tmo eot eos s =
      elim (Bool-cases
        (not (is_zero board) || is_neg pad || gtz pad 30 || gtz sad 30 || not (ge_minus_one sad))) [
          | inl bad ↦
              rw bad (inl (record { failed = refl; same = refl; error = refl; full = λ e. cc }))
          | inr good ↦ elim (Bool-cases s.driver) [
            | inl there ↦ rw (good, there) (claim-Opens pad sad tmo eot eos _)
            | inr missing ↦ elim (Bool-cases (os.opens (opened ∷ s.log))) [
              | inl found ↦ rw (good, missing, found) (claim-Opens pad sad tmo eot eos _)
              | inr lost ↦
                  rw (good, missing, lost)
                    (inl (record { failed = refl; same = refl; error = refl; full = λ e. cc }))
            ]
          ]
        ]

-- ===== src/Api/Reads.antt =====
-- `ibrd` of src/gpibapi/ib.c: what it stores in the caller's buffer.
use jornada_gpib.Prelude.{
  ◌==◌, Bool-cases, ℕ, zero, suc, ◌+◌, ◌≤◌, ◌≡◌, refl, sym, ap, subst, ◌⊎◌, inl, inr, Bool, true,
  false, ltb, ◌++◌, replicate, List, [], ◌∷◌, length, length-append, take, drop, Option, none, some,
  ℤ, pos, arith, int_of,
}
use jornada_gpib.Api.Codes.{ib_eabo, map_status}
use jornada_gpib.Api.Calls.{at_most, filled}
use jornada_gpib.Api.State.{allocated, asked, Device, Api, Os, device, fail, C}
use jornada_gpib.Api.Transfers.{read_request, ibrd, read_done, read_from, read_buffer, with_device}
use jornada_gpib.Wire.{ioctl_gpib_read, word_at, size_result, int_at}
use jornada_gpib.Api.Requests.{apply_device_settings}

module _ {ℓ} {A : Type ℓ} where
  length-take : (n : ℕ) (xs : List A) → n ≤ length xs → length (take n xs) ≡ n
  length-take zero xs h = refl
  length-take (suc n) [] h = absurd (omega arith)
  length-take (suc n) (x ∷ xs) h = omega (arith, length-take n xs (omega arith))

  length-replicate : (n : ℕ) (x : A) → length (replicate n x) ≡ n
  length-replicate zero x = refl
  length-replicate (suc n) x = omega (arith, length-replicate n x)

at_most_lem : (n limit : ℕ) → at_most n limit ≤ limit
at_most_lem n limit = ground arith

length-filled : (n : ℕ) (bytes : List ℕ) → length (filled n bytes) ≡ n
length-filled n bytes =
    length-take n (bytes ++ replicate n 0)
      (omega (arith, length-append bytes (replicate n 0), length-replicate {A = ℕ} n 0))

-- The stored bytes fit in a buffer of `cnt` bytes, and a call without an error has counted them.
abbrev pub Stores : (cnt : ℕ) → (ℕ × List ℕ) × Api → Type 0
Stores cnt r =
    (length r.0.1 ≤ cnt) × (ltb r.1.ibsta 0x8000 ≡ true → r.1.ibcnt ≡ int_of (length r.0.1))

module _ ⦃os : Os⦄ where
  read_done-Stores : (cnt : ℕ) (output : List ℕ) (s : Api) → Stores cnt (read_done cnt output s)
  unfolding read_done
  read_done-Stores cnt output s =
      let count = at_most (word_at output 1) cnt in
      let bytes = length-filled count (drop size_result output) in
      let few = subst (λ n. n ≤ cnt) (sym bytes) (at_most_lem (word_at output 1) cnt) in
      elim (Bool-cases (word_at output 0 == 0)) [
        | inl good ↦ rw good (few, λ _. ap int_of (sym bytes))
        | inr bad ↦ rw bad (elim (Bool-cases (map_status (int_at output 0) == ib_eabo)) [
          | inl late ↦ rw late (few, λ h. absurd (ground (arith, h)))
          | inr other ↦ rw other (few, λ h. absurd (ground (arith, h)))
        ])
      ]

  read_buffer-Stores : (d : Device) (cnt : ℕ) (s : Api) → Stores cnt (read_buffer d cnt s)
  unfolding read_buffer
  read_buffer-Stores d cnt s =
      let room = size_result + cnt in
      let asked_state = record s {
        log = asked ioctl_gpib_read (some (read_request d cnt)) room ∷ allocated room ∷ s.log;
      } in
      ground
        (arith, read_done-Stores cnt (filled room (os.control asked_state.log).output) asked_state)

  -- The settings were applied, or an error was reported.
  pub apply-error :
      (d : Device) (s : Api)
      → ((apply_device_settings d s).0 ≡ 0)
        ⊎ (((apply_device_settings d s).0 == 0 ≡ false)
            × ((apply_device_settings d s).1.ibsta ≡ 0x8100))
  unfolding apply_device_settings
  apply-error d s = ground arith

  read_from-Stores : (d : Device) (cnt : ℕ) (s : Api) → Stores cnt (read_from d cnt s)
  unfolding read_from
  read_from-Stores d cnt s = elim (apply-error d s) [
    | inl e ↦ rw e (read_buffer-Stores d cnt _)
    | inr (e, r) ↦ rw (e, r) (ground arith)
  ]

  on_found :
      (cnt : ℕ) (o : Option (ℕ × Device)) (missing : C (ℕ × List ℕ))
      (found : ℕ → Device → C (ℕ × List ℕ)) (s : Api)
      → Stores cnt (missing s)
      → ((n : ℕ) (d : Device) (u : Api) → Stores cnt (found n d u))
      → Stores cnt (with_device o missing found s)
  on_found cnt none missing found s h k = h
  on_found cnt (some (n, d)) missing found s h k = k n d s

  -- `ibrd` stores at most `cnt` bytes, and where it reports no error, `ibcnt` is their number.
  pub ibrd-Stores : (ud : ℤ) (buf : Bool) (cnt : ℕ) (s : Api) → Stores cnt (ibrd ud buf (pos cnt) s)
  unfolding ibrd fail
  ibrd-Stores ud false cnt s =
      on_found cnt (device ud s).0 _ _ (device ud s).1 (ground arith) (λ n d u. ground arith)
  ibrd-Stores ud true cnt s =
      on_found cnt (device ud s).0 _ _ (device ud s).1 (ground arith)
        (λ n d u. read_from-Stores d cnt u)

-- ===== src/Driver/Lifecycle/Held.antt =====
-- What src/gpib/drv_ce.c holds, by its calls, and what giving up a device does to that.
use jornada_gpib.Prelude.{
  ℕ, ◌==◌, ◌≡◌, refl, if◌then◌else◌, List, [], ◌∷◌, Option, none, some, Bool-cases, inl, inr, arith,
}
use jornada_gpib.Driver.Lifecycle.{
  unload, Request, allocates, creates_lock, reads_registry, binds, registers, resets, configures,
  starts_chip, requests_window, maps, stops_chip, releases_configuration, deregisters, unbinds,
  deletes_lock, frees, releases_window, Requests, System, Card, Loading, is_set, stop_chip,
  release_configuration, release_window, deregister, cs_unbind, teardown,
}

pub data Resource : Type 0 where
  memory lock library client configuration chip : Resource
  window : (handle : ℕ) → Resource

-- Only what was taken last can be given back.
abbrev pub given_back : Request → List Resource → Option (List Resource)
given_back stops_chip (chip ∷ rs) = some rs
given_back releases_configuration (configuration ∷ rs) = some rs
given_back (releases_window h) (window h' ∷ rs) = if h == h' then some rs else none
given_back deregisters (client ∷ rs) = some rs
given_back unbinds (library ∷ rs) = some rs
given_back deletes_lock (lock ∷ rs) = some rs
given_back frees (memory ∷ rs) = some rs
given_back _ rs = none

-- What is held after a call with its answer.
abbrev pub after : Request → (answer : ℕ) → List Resource → Option (List Resource)
after allocates a rs = some (if a == 0 then rs else memory ∷ rs)
after creates_lock a rs = some (lock ∷ rs)
after reads_registry a rs = some rs
after binds a rs = some (if a == 0 then rs else library ∷ rs)
after registers a rs = some (if a == 0 then rs else client ∷ rs)
after resets a rs = some rs
after (maps base size) a rs = some rs
after configures a rs = some (if a == 0 then rs else configuration ∷ rs)
after starts_chip a rs = some (if a == 0 then rs else chip ∷ rs)
after (requests_window wide size) a rs = some (if a == 0 then rs else window a ∷ rs)
after r a rs = given_back r rs

-- What is held after all calls, the last taken first; none where something is given back that was not
-- taken, or out of turn.
unfoldable pub held : Requests → Option (List Resource)
held [] = some []
held ((r, a) ∷ log) = elim (held log) [ none ↦ none | some rs ↦ after r a rs ]

-- What the device's fields say that it holds, from the top.
abbrev pub base : List Resource
base = lock ∷ memory ∷ []

abbrev pub with_library : Card → List Resource
with_library c = if c.bound then library ∷ base else base

abbrev pub with_registered : Card → List Resource
with_registered c = if is_set c.client then client ∷ with_library c else with_library c

abbrev pub with_granted : Card → List Resource
with_granted c = if is_set c.window then window c.window ∷ with_registered c else with_registered c

abbrev pub with_configured : Card → List Resource
with_configured c = if c.configured then configuration ∷ with_granted c else with_granted c

abbrev pub fields_hold : Card → List Resource
fields_hold c = if c.chip_ok then chip ∷ with_configured c else with_configured c

freed :
    (log : Requests) (x y : ℕ)
    → held log ≡ some base
    → held ((frees, y) ∷ (deletes_lock, x) ∷ log) ≡ some []
unfolding held
freed log x y h = rw h refl

module _ ⦃system : System⦄ where
  stop_chip-held :
      (s : Loading)
      → held s.log ≡ some (fields_hold s.card)
      → held (stop_chip s).1.log ≡ some (with_configured (stop_chip s).1.card)
  unfolding stop_chip held
  stop_chip-held s h = elim (Bool-cases s.card.chip_ok) [
    | inl e ↦ ground (arith, e, h)
    | inr e ↦ ground (arith, e, h)
  ]

  release_configuration-held :
      (s : Loading)
      → held s.log ≡ some (with_configured s.card)
      → held (release_configuration s).1.log ≡ some (with_granted (release_configuration s).1.card)
  unfolding release_configuration held
  release_configuration-held s h = elim (Bool-cases s.card.configured) [
    | inl e ↦ ground (arith, e, h)
    | inr e ↦ ground (arith, e, h)
  ]

  release_window-held :
      (s : Loading)
      → held s.log ≡ some (with_granted s.card)
      → held (release_window s).1.log ≡ some (with_registered (release_window s).1.card)
  unfolding release_window held
  release_window-held s h = elim (Bool-cases (is_set s.card.window)) [
    | inl e ↦ ground (arith, e, h)
    | inr e ↦ ground (arith, e, h)
  ]

  deregister-held :
      (s : Loading)
      → held s.log ≡ some (with_registered s.card)
      → held (deregister s).1.log ≡ some (with_library (deregister s).1.card)
  unfolding deregister held
  deregister-held s h = elim (Bool-cases (is_set s.card.client)) [
    | inl e ↦ ground (arith, e, h)
    | inr e ↦ ground (arith, e, h)
  ]

  cs_unbind-held :
      (s : Loading) → held s.log ≡ some (with_library s.card) → held (cs_unbind s).1.log ≡ some base
  unfolding cs_unbind held
  cs_unbind-held s h = elim (Bool-cases s.card.bound) [
    | inl e ↦ ground (arith, e, h)
    | inr e ↦ ground (arith, e, h)
  ]

  pub teardown-held :
      (s : Loading) → held s.log ≡ some (fields_hold s.card) → held (teardown s).1.log ≡ some base
  unfolding teardown
  teardown-held s h =
      let s1 : Loading = (stop_chip s).1 in
      let s2 : Loading = (release_configuration s1).1 in
      let s3 : Loading = (release_window s2).1 in
      let s4 : Loading = (deregister s3).1 in
      cs_unbind-held s4 (
        deregister-held s3
          (release_window-held s2 (release_configuration-held s1 (stop_chip-held s h))))

  pub unload-held :
      (s : Loading) → held s.log ≡ some (fields_hold s.card) → held (unload s).1.log ≡ some []
  unfolding unload held
  unload-held s h =
      let log : Requests = (teardown s).1.log in
      let x : ℕ = system.answers log deletes_lock in
      freed log x (system.answers ((deletes_lock, x) ∷ log) frees) (teardown-held s h)

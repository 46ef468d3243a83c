-- ===== src/Driver/Answers.antt =====
-- The answers of src/gpib/drv_ce.c: their size, and what a refused request touches.
use jornada_gpib.Prelude.{
  ℕ, ◌*◌, ◌≤◌, Bool-cases, inl, inr, ◌≡◌, refl, Bool, true, false, ◌==◌, ltb, if◌then◌else◌, List,
  [], ◌∷◌, length, Option, none, some, arith,
}
use jornada_gpib.Wire.{words}
use jornada_gpib.Chip.Io.{World, Run, done, spin, M, pure}
use jornada_gpib.Chip.Results.{Yields}
use jornada_gpib.Chip.Protocol.Rules.{Holds}
use jornada_gpib.Driver.State.{
  Answer, refused, answered, DriverStatus, lacks_room, put_result, with_input,
  error_invalid_parameter, error_insufficient_buffer,
}

abbrev pub room_size : Option ℕ → ℕ
room_size none = 0
room_size (some n) = n

-- The answer of an operation that went ahead.
pub record Works (room : Option ℕ) (a : Answer) : Type 0 where
  pub fits : length a.output ≤ room_size room
  pub other : a.error == error_invalid_parameter ≡ false

-- The output fits, and only what was not refused as invalid may have done anything.
pub record IsSafe (room : Option ℕ) (w : World) (a : Answer) (w' : World) : Type 0 where
  pub fits : length a.output ≤ room_size room
  pub untouched : a.error ≡ error_invalid_parameter → w' ≡ w

pub record Safe (room : Option ℕ) (m : M Answer) : Type 0 where
  pub at : (w : World) → Holds (IsSafe room w) (m w)

pub length-words : (vs : List ℕ) → length (words vs) ≡ 4 * length vs
length-words [] = omega arith
length-words (v ∷ vs) = omega (arith, length-words vs)

pub Works-answered :
    (room : Option ℕ) (bytes : List ℕ) (n : ℕ)
    → lacks_room room n ≡ false
    → length bytes ≤ n
    → Works room (answered bytes)
Works-answered none bytes n h k = record { fits = absurd (ground (arith, h)); other = refl }
Works-answered (some m) bytes n h k = record { fits = ground (arith, h); other = refl }

pub Works-put_result :
    (room : Option ℕ) (rc : DriverStatus) (count end : ℕ)
    → Works room (put_result room rc count end)
unfolding put_result
Works-put_result none rc count end = record { fits = omega arith; other = refl }
Works-put_result (some n) rc count end = record { fits = ground arith; other = ground arith }

-- With ERROR_INSUFFICIENT_BUFFER where there is no room.
pub Works-reply :
    (room : Option ℕ) (n : ℕ) (bytes : List ℕ)
    → length bytes ≤ n
    → Works room (if lacks_room room n then refused error_insufficient_buffer else answered bytes)
Works-reply none n bytes h = record { fits = omega arith; other = refl }
Works-reply (some m) n bytes h = elim (Bool-cases (ltb m n)) [
  | inl e ↦ rw e (record { fits = omega arith; other = refl })
  | inr e ↦ rw e (record { fits = ground (arith, e); other = refl })
]

Holds-IsSafe :
    (room : Option ℕ) (w : World) (r : Run Answer)
    → Holds (λ a _. Works room a) r
    → Holds (IsSafe room w) r
Holds-IsSafe room w (done a u) h = record {
  fits = h.fits;
  untouched = λ e. absurd (ground (arith, h.other, e));
}
Holds-IsSafe room w spin h = tt

pub Safe-Yields : {room : Option ℕ} {m : M Answer} → Yields (Works room) m → Safe room m
Safe-Yields {room = room} {m = m} h = record { at = λ w. Holds-IsSafe room w (m w) (h.at w) }

pub Safe-refused : {room : Option ℕ} (e : ℕ) → Safe room (pure (refused e))
unfolding pure
Safe-refused e = record { at = λ w. record { fits = omega arith; untouched = λ k. refl } }

pub Safe-if :
    {room : Option ℕ} (b : Bool) (m n : M Answer)
    → (b ≡ true → Safe room m)
    → (b ≡ false → Safe room n)
    → Safe room (if b then m else n)
Safe-if true m n f g = f refl
Safe-if false m n f g = g refl

pub Safe-with_input :
    {room : Option ℕ} (input : Option (List ℕ)) (size e : ℕ) (found : List ℕ → M Answer)
    → ((bytes : List ℕ) → Safe room (found bytes))
    → Safe room (with_input input size (pure (refused e)) found)
Safe-with_input none size e found h = Safe-refused e
Safe-with_input (some bytes) size e found h =
    Safe-if (ltb (length bytes) size) _ _ (λ _. Safe-refused e) (λ _. h bytes)

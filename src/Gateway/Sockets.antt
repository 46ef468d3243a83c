-- ===== src/Gateway/Sockets.antt =====
-- The socket helpers of src/gpibsrv/gpibsrv.c.
use jornada_gpib.Prelude.{
  ℕ, zero, suc, List, [], ◌∷◌, length, take, drop, none, some, ℤ, pos, negsuc, bits32,
}
use jornada_gpib.Runtime.Memory.{Memory}
use jornada_gpib.Runtime.Strings.{strlen}
use jornada_gpib.Runtime.Format.{Args, vfmt8}
use jornada_gpib.Gateway.State.{Net, G, ◌>>=◌, give, waits, done}

-- The first `n` bytes of memory.
abbrev pub bytes_of : (n : ℕ) → Memory → List ℕ
bytes_of zero m = []
bytes_of (suc n) m = m 0 ∷ bytes_of n (λ i. m (suc i))

-- if (n <= 0) return; or on with the data from the n-th byte, the one after `k` others.
abbrev pub after_send : ℤ → (ℕ → G (Unit {0})) → G (Unit {0})
after_send (negsuc m) rest = give tt
after_send (pos zero) rest = give tt
after_send (pos (suc k)) rest = rest k

module _ ⦃net : Net⦄ where
  unfoldable pub send : List ℕ → G ℤ
  send bytes s =
      let n : ℤ = net.sends s.sent bytes in
      done n (record s { sent = record { bytes = bytes; answer = n } ∷ s.sent })

  -- The loop, for `rounds` calls of `send` at most. Each takes a byte or more, or is the last.
  unfoldable pub send_loop : (rounds : ℕ) → List ℕ → G (Unit {0})
  unfolding send give
  send_loop rounds [] = give tt
  send_loop zero (b ∷ bs) = waits
  send_loop (suc rounds) (b ∷ bs) = do
    n ← send (b ∷ bs)
    after_send n (λ k. send_loop rounds (drop k bs))

  unfoldable pub send_all : List ℕ → G (Unit {0})
  unfolding send_loop
  send_all data' = send_loop (length data') data'

  -- `text` is the bytes from the address on.
  unfoldable pub send_text : List ℕ → G (Unit {0})
  unfolding send_all
  send_text text = send_all (take (strlen text) text)

  -- "%d\n"
  abbrev pub number_format : List ℕ
  number_format = 0x25 ∷ 0x64 ∷ 0x0a ∷ []

  -- The arguments of a call with one argument, an `int`.
  abbrev pub int_args : ℤ → Args
  int_args v = record { word = λ i. bits32 v; wide_at = λ w. []; narrow_at = λ w. [] }

  -- The contents of the 16 bytes of `buf`, before whose NUL the number stands.
  unfoldable pub number_text : ℤ → List ℕ
  unfolding vfmt8
  number_text v = elim (vfmt8 (λ i. 0) 16 number_format (int_args v)) [
    | none ↦ []
    | some (s, n) ↦ bytes_of 16 s.out
  ]

  unfoldable pub send_number : ℤ → G (Unit {0})
  unfolding send_text number_text
  send_number v = send_text (number_text v)

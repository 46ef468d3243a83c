-- ===== src/Gateway/Delivery.antt =====
-- What `send_all` of src/gpibsrv/gpibsrv.c makes the network take.
use jornada_gpib.Prelude.{
  not, ℕ, zero, suc, ◌≤◌, ◌≡◌, ◌⊎◌, refl, ◌∙◌, ap, Bool, true, false, List, [], ◌∷◌, ◌++◌, length,
  take, drop, append_assoc, append-nil, ℤ, pos, negsuc, gtz, arith, inl, inr,
}
use jornada_gpib.Gateway.State.{Offer, Net, Server, Run, done, give}
use jornada_gpib.Gateway.Sockets.{send, send_loop, send_all, after_send}

-- The bytes that one call took.
abbrev pub taken : Offer → List ℕ
taken o = elim o.answer [ negsuc n ↦ [] | pos n ↦ take n o.bytes ]

-- The bytes that all calls took, in order.
abbrev pub accepted : List Offer → List ℕ
accepted [] = []
accepted (o ∷ os) = accepted os ++ taken o

-- The newest call failed.
abbrev pub is_failed : List Offer → Bool
is_failed [] = false
is_failed (o ∷ os) = not (gtz o.answer 0)

-- The call returns; the network took the first bytes of the data, `rest` being what is left of it:
-- nothing, unless the last call failed.
pub record Delivers (data' : List ℕ) (s : Server) (r : Run (Unit {0})) : Type 0 where
  pub after : Server
  pub returned : r ≡ done tt after
  pub rest : List ℕ
  pub in_order : accepted after.sent ++ rest ≡ accepted s.sent ++ data'
  pub complete : (rest ≡ []) ⊎ (is_failed after.sent ≡ true)

take-drop : (n : ℕ) (xs : List ℕ) → take n xs ++ drop n xs ≡ xs
take-drop zero xs = refl
take-drop (suc n) [] = refl
take-drop (suc n) (x ∷ xs) = rw (take-drop n xs) refl

length-drop : (n : ℕ) (xs : List ℕ) → length (drop n xs) ≤ length xs
length-drop zero xs = omega arith
length-drop (suc n) [] = omega arith
length-drop (suc n) (x ∷ xs) = omega (arith, length-drop n xs)

-- The state after a call with the answer `n`.
abbrev after_call : List ℕ → ℤ → Server → Server
after_call bytes n s = record s { sent = record { bytes = bytes; answer = n } ∷ s.sent }

-- The call was refused: nothing of its data was taken.
after_refusal :
    (bytes : List ℕ) (n : ℤ) (s : Server)
    → taken (record { bytes = bytes; answer = n }) ≡ []
    → gtz n 0 ≡ false
    → Delivers bytes s (done tt (after_call bytes n s))
after_refusal bytes n s e f = record {
  after = after_call bytes n s;
  returned = refl;
  rest = bytes;
  in_order = rw (e, append-nil (accepted s.sent)) refl;
  complete = inr (rw f refl);
}

-- The call took some of its data, and the rest is delivered after it.
after_part :
    (b : ℕ) (bs : List ℕ) (k : ℕ) (s : Server) (r : Run (Unit {0}))
    → Delivers (drop k bs) (after_call (b ∷ bs) (pos (suc k)) s) r
    → Delivers (b ∷ bs) s r
after_part b bs k s r d = record {
  after = d.after;
  returned = d.returned;
  rest = d.rest;
  in_order =
      d.in_order
      ∙ append_assoc (accepted s.sent) (b ∷ take k bs) (drop k bs)
      ∙ ap (λ xs. accepted s.sent ++ (b ∷ xs)) (take-drop k bs);
  complete = d.complete;
}

after_send-Delivers :
    (b : ℕ) (bs : List ℕ) (n : ℤ) (s : Server) (rest : ℕ → Server → Run (Unit {0}))
    → ((k : ℕ) (u : Server) → Delivers (drop k bs) u (rest k u))
    → Delivers (b ∷ bs) s (after_send n rest (after_call (b ∷ bs) n s))
unfolding give
after_send-Delivers b bs (negsuc m) s rest h = after_refusal (b ∷ bs) (negsuc m) s refl refl
after_send-Delivers b bs (pos zero) s rest h = after_refusal (b ∷ bs) (pos 0) s refl refl
after_send-Delivers b bs (pos (suc k)) s rest h = after_part b bs k s _ (h k _)

module _ ⦃net : Net⦄ where
  send_loop-Delivers :
      (rounds : ℕ) (data' : List ℕ) (s : Server)
      → length data' ≤ rounds
      → Delivers data' s (send_loop rounds data' s)
  unfolding send_loop send give
  send_loop-Delivers rounds [] s enough = record {
    after = s;
    returned = refl;
    rest = [];
    in_order = refl;
    complete = inl refl;
  }
  send_loop-Delivers zero (b ∷ bs) s enough = absurd (omega arith)
  send_loop-Delivers (suc rounds) (b ∷ bs) s enough =
      after_send-Delivers b bs (net.sends s.sent (b ∷ bs)) s (λ k. send_loop rounds (drop k bs))
        (λ k u. send_loop-Delivers rounds (drop k bs) u (omega (arith, length-drop k bs)))

  -- `send_all` returns, whatever the network answers. What the network took is, after what it took
  -- before, the first bytes of the data, each once and in order, and all of them unless a call of
  -- `send` failed.
  pub send_all-Delivers : (data' : List ℕ) (s : Server) → Delivers data' s (send_all data' s)
  unfolding send_all
  send_all-Delivers data' s = send_loop-Delivers (length data') data' s (omega arith)

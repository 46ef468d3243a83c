-- ===== src/Controller/Delivers.antt =====
-- A message sent in one transfer or in several: how much of it went to the FIFO.
use jornada_gpib.Prelude.{
  zero, suc, ℕ, ◌≡◌, refl, ◌∙◌, sym, ap, List, [], ◌∷◌, ◌++◌, append_assoc, append-nil, map, take,
  length, u8,
}
use jornada_gpib.Chip.Io.{Io, World, Run, done, spin}
use jornada_gpib.Chip.Status.{Status, ok}
use jornada_gpib.Chip.Protocol.Rules.{Holds}
use jornada_gpib.Chip.Transfer.{transfer_out}
use jornada_gpib.Chip.Transfer.Sent.{Sent, transfer_out-Sent}
use jornada_gpib.Controller.Emits.{Emits}

abbrev pub IsPrefix : List ℕ → List ℕ → Type 0
IsPrefix xs msg = (rest : List ℕ) × (xs ++ rest ≡ msg)

-- The bytes written are a prefix of the message, and OK means all of it.
pub record Delivers (msg : List ℕ) (rc : Status) (bs : List ℕ) : Type 0 where
  pub part : IsPrefix bs msg
  pub whole : rc ≡ ok → bs ≡ msg

pub Delivers-nothing : (msg : List ℕ) (rc : Status) → (rc ≡ ok → [] ≡ msg) → Delivers msg rc []
Delivers-nothing msg rc f = record { part = (msg, refl); whole = f }

pub Delivers-all : (msg bs : List ℕ) (rc : Status) → bs ≡ msg → Delivers msg rc bs
Delivers-all msg bs rc e = record { part = ([], append-nil bs ∙ e); whole = λ _. e }

-- The first part was delivered, and then some of the rest.
pub Delivers-append :
    (xs msg : List ℕ) (bs cs : List ℕ) (rc : Status)
    → bs ≡ xs
    → Delivers msg rc cs
    → Delivers (xs ++ msg) rc (bs ++ cs)
Delivers-append xs msg bs cs rc e d = record {
  part =
      (d.part.0, append_assoc bs cs d.part.0 ∙ ap (λ l. bs ++ l) d.part.1 ∙ ap (λ l. l ++ msg) e);
  whole = λ o. ap (λ l. bs ++ l) (d.whole o) ∙ ap (λ l. l ++ msg) e;
}

-- The first part was not delivered, and the rest was not tried.
pub Delivers-stopped :
    (xs msg : List ℕ) (bs : List ℕ) (rc : Status)
    → (rc ≡ ok → ⊥)
    → Delivers xs rc bs
    → Delivers (xs ++ msg) rc bs
Delivers-stopped xs msg bs rc n d = record {
  part = (d.part.0 ++ msg, sym (append_assoc bs d.part.0 msg) ∙ ap (λ l. l ++ msg) d.part.1);
  whole = λ o. absurd (n o);
}

-- A code that is OK only where the first one was.
pub Delivers-code :
    (msg bs : List ℕ) (rc rc' : Status)
    → (rc' ≡ ok → rc ≡ ok)
    → Delivers msg rc bs
    → Delivers msg rc' bs
Delivers-code msg bs rc rc' f d = record { part = d.part; whole = λ o. d.whole (f o) }

take-IsPrefix : (k : ℕ) (buf : List ℕ) (f : ℕ → ℕ) → IsPrefix (map f (take k buf)) (map f buf)
take-IsPrefix zero buf f = (map f buf, refl)
take-IsPrefix (suc k) [] f = ([], refl)
take-IsPrefix (suc k) (x ∷ xs) f =
    let (rest, e) = take-IsPrefix k xs f in (rest, ap (λ l. f x ∷ l) e)

take-all : (buf : List ℕ) → take (length buf) buf ≡ buf
take-all [] = refl
take-all (x ∷ xs) = ap (λ l. x ∷ l) (take-all xs)

Sent-Delivers :
    {buf : List ℕ} {w : World} {rc : Status} {sent : ℕ} {w' : World} (s : Sent buf w rc sent w')
    → Delivers (map u8 buf) rc (map u8 (take s.queued buf))
Sent-Delivers {buf} s = record {
  part = take-IsPrefix s.queued buf u8;
  whole = λ o. ap (λ k. map u8 (take k buf)) (s.complete o) ∙ ap (map u8) (take-all buf);
}

returned :
    {A : Type 0} (Q : A → World → Type 0) (r : Run A)
    → ((a : A) (w' : World) → r ≡ done a w' → Q a w')
    → Holds Q r
returned Q (done a w') f = f a w' refl
returned Q spin f = tt

module _ ⦃io : Io⦄ where
  pub transfer_out-Delivers :
      (rounds : ℕ) (buf : List ℕ) (flags : ℕ) (w : World)
      → Emits w (transfer_out rounds buf flags) (λ r. Delivers (map u8 buf) r.0)
  transfer_out-Delivers rounds buf flags w = record {
    out = returned _ (transfer_out rounds buf flags w) (λ r w' e.
        let s = transfer_out-Sent rounds buf flags w e in
        (map u8 (take s.queued buf), s.bytes, Sent-Delivers s));
  }

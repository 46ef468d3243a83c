-- ===== src/Runtime/Moves.antt =====
-- What the functions on memory leave behind.
use jornada_gpib.Prelude.{
  ℕ, zero, suc, ◌+◌, ◌-◌, ◌*◌, ◌/◌, ◌%◌, ◌^◌, ◌≤◌, ◌<◌, ◌≡◌, refl, ◌∙◌, ap, ◌↔◌, inl, inr, ◌&&◌,
  ◌||◌, ◌==◌, ltb, leb, if◌then◌else◌, Bool-cases, pos, arith, u8,
}
use native.Mathlib.Nat.{div-add-mod, mod-lt}
use jornada_gpib.Runtime.Memory.{
  Memory, store, copy_up, copy_down, memmove, memset, memcmp, umodsi3,
}

-- The byte at `i` after a block of `n` bytes was moved as a whole from `src` to `dst`.
abbrev pub moved : (dst src n : ℕ) → Memory → Memory
moved dst src n m = λ i. if leb dst i && ltb i (dst + n) then m (src + (i - dst)) else m i

copy_up-moved : (n d s : ℕ) (m : Memory) (i : ℕ) → d < s → copy_up n d s m i ≡ moved d s n m i
unfolding copy_up
copy_up-moved zero d s m i h = ground arith
copy_up-moved (suc n) d s m i h =
    copy_up-moved n (d + 1) (s + 1) (store m d (m s)) i (omega arith) ∙ one
  where
    index : d < i → m (s + 1 + (i - (d + 1))) ≡ m (s + (i - d))
    index k = ap m (omega arith)

    one : moved (d + 1) (s + 1) n (store m d (m s)) i ≡ moved d s (suc n) m i
    one = ground (arith, index)

copy_down-moved :
    (n d s p q : ℕ) (m : Memory) (i : ℕ)
    → s < d
    → p ≡ d + n
    → q ≡ s + n
    → copy_down n p q m i ≡ moved d s n m i
unfolding copy_down
copy_down-moved zero d s p q m i h e f = ground arith
copy_down-moved (suc n) d s p q m i h e f =
    copy_down-moved n d s (p - 1) (q - 1) (store m (p - 1) (m (q - 1))) i h (omega arith)
      (omega arith)
    ∙ one
  where
    one : moved d s n (store m (p - 1) (m (q - 1))) i ≡ moved d s (suc n) m i
    one = ground arith

-- Also where the blocks overlap, `memmove` leaves at the destination what was at the source, and
-- nothing else changes.
pub memmove-moved :
    (dst src n : ℕ) (m : Memory) (i : ℕ) → memmove dst src n m i ≡ moved dst src n m i
unfolding memmove
memmove-moved dst src n m i = elim (Bool-cases (dst == src || n == 0)) [
  | inl idle ↦ rw idle (ground (arith, same))
  | inr busy ↦ elim (Bool-cases (ltb dst src)) [
    | inl up ↦ rw (busy, up) (copy_up-moved n dst src m i (ground (arith, up)))
    | inr down ↦
        rw (busy, down) (copy_down-moved n dst src (dst + n) (src + n) m i (ground arith) refl refl)
  ]
]
  where
    same : dst ≡ src → dst ≤ i → m (src + (i - dst)) ≡ m i
    same e k = ap m (omega arith)

-- `memset` fills exactly the block, with the byte that `c` is cast to.
pub memset_lem :
    (dst c n : ℕ) (m : Memory) (i : ℕ)
    → memset dst c n m i ≡ (if leb dst i && ltb i (dst + n) then u8 c else m i)
unfolding memset
memset_lem dst c zero m i = ground arith
memset_lem dst c (suc n) m i = memset_lem (dst + 1) c n (store m dst (u8 c)) i ∙ ground arith

Agree : (a b n : ℕ) → Memory → Type 0
Agree a b n m = (i : ℕ) → i < n → m (a + i) ≡ m (b + i)

Agree-suc : (a b n : ℕ) (m : Memory) → m a ≡ m b → Agree (a + 1) (b + 1) n m → Agree a b (suc n) m
unfolding Agree
Agree-suc a b n m e f zero h = ap m (omega arith) ∙ e ∙ ap m (omega arith)
Agree-suc a b n m e f (suc i) h = ap m (omega arith) ∙ f i (omega arith) ∙ ap m (omega arith)

Agree-tail : (a b n : ℕ) (m : Memory) → Agree a b (suc n) m → Agree (a + 1) (b + 1) n m
unfolding Agree
Agree-tail a b n m f i h = ap m (omega arith) ∙ f (suc i) (omega arith) ∙ ap m (omega arith)

Agree-head : (a b n : ℕ) (m : Memory) → Agree a b (suc n) m → m a ≡ m b
unfolding Agree
Agree-head a b n m f = ap m (omega arith) ∙ f 0 (omega arith) ∙ ap m (omega arith)

-- `memcmp` is 0 exactly if the blocks agree.
pub memcmp-eq-zero :
    (a b n : ℕ) (m : Memory) → (memcmp a b n m ≡ pos 0) ↔ ((i : ℕ) → i < n → m (a + i) ≡ m (b + i))
unfolding memcmp Agree
memcmp-eq-zero a b zero m = (λ e i h. absurd (omega arith), λ f. refl)
memcmp-eq-zero a b (suc n) m = elim (Bool-cases (m a == m b)) [
  | inl e ↦ rw e (
    λ z. Agree-suc a b n m (ground (arith, e)) ((memcmp-eq-zero (a + 1) (b + 1) n m).0 z),
    λ f. (memcmp-eq-zero (a + 1) (b + 1) n m).1 (Agree-tail a b n m f),
  )
  | inr e ↦
      rw e
        (λ z. absurd (ground (arith, e, z)), λ f. absurd (ground (arith, e, Agree-head a b n m f)))
]

-- With a quotient routine that divides, `__umodsi3` is the remainder.
pub umodsi3_lem :
    (udivsi3 : ℕ → ℕ → ℕ) (n d : ℕ)
    → n < 2 ^ 32
    → 0 < d
    → udivsi3 n d ≡ n / d
    → umodsi3 udivsi3 n d ≡ n % d
unfolding umodsi3
umodsi3_lem udivsi3 n d h p e =
    ground (arith, e, ap (λ (q : ℕ). q * d) e, div-add-mod n d, mod-lt n p)

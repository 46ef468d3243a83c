-- ===== src/Runtime/Memory.antt =====
-- src/rt/crt.c, the functions on memory. A memory gives the byte at each address; the address space
-- does not wrap around.
use jornada_gpib.Prelude.{
  ℕ, zero, suc, ◌+◌, ◌-◌, ◌*◌, ◌%◌, ◌^◌, ◌||◌, ◌==◌, ltb, if◌then◌else◌, not, u8, ℤ, pos, sub_ℕ,
}

abbrev pub Memory : Type 0
Memory = ℕ → ℕ

-- *at = v
abbrev pub store : Memory → ℕ → ℕ → Memory
store m at v = λ i. if i == at then v else m i

-- while (n--) *d++ = *s++;
unfoldable pub copy_up : (n d s : ℕ) → Memory → Memory
copy_up zero d s m = m
copy_up (suc n) d s m = copy_up n (d + 1) (s + 1) (store m d (m s))

-- while (n--) *--d = *--s;
unfoldable pub copy_down : (n d s : ℕ) → Memory → Memory
copy_down zero d s m = m
copy_down (suc n) d s m = copy_down n (d - 1) (s - 1) (store m (d - 1) (m (s - 1)))

unfoldable pub memcpy : (dst src n : ℕ) → Memory → Memory
unfolding copy_up
memcpy dst src n m = copy_up n dst src m

unfoldable pub memmove : (dst src n : ℕ) → Memory → Memory
unfolding copy_up copy_down
memmove dst src n m =
    if dst == src || n == 0
    then m
    else if ltb dst src
    then copy_up n dst src m
    else copy_down n (dst + n) (src + n) m

unfoldable pub memset : (dst c n : ℕ) → Memory → Memory
memset dst c zero m = m
memset dst c (suc n) m = memset (dst + 1) c n (store m dst (u8 c))

unfoldable pub memcmp : (a b n : ℕ) → Memory → ℤ
memcmp a b zero m = pos 0
memcmp a b (suc n) m =
    let rest = memcmp (a + 1) (b + 1) n m in if not (m a == m b) then sub_ℕ (m a) (m b) else rest

-- The quotient routines are written in assembly, and are parameters here: they take and give 32-bit
-- patterns.
unfoldable pub umodsi3 : (udivsi3 : ℕ → ℕ → ℕ) → ℕ → ℕ → ℕ
umodsi3 udivsi3 n d = if d == 0 then 0 else (n + 2 ^ 32 - (udivsi3 n d * d) % 2 ^ 32) % 2 ^ 32

unfoldable pub modsi3 : (sdivsi3 : ℕ → ℕ → ℕ) → ℕ → ℕ → ℕ
modsi3 sdivsi3 n d = if d == 0 then 0 else (n + 2 ^ 32 - (sdivsi3 n d * d) % 2 ^ 32) % 2 ^ 32

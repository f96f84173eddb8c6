-- ===== src/Strings.antt =====
-- string.c: the routines on blocks of memory and on NUL-terminated character arrays. A memory is a
-- function of the address; an array that is only read is a function of the index.
pub mod Blocks
pub mod Copies
pub mod Lengths
use os_project03_thread.Common.{
  ℕ, zero, suc, ◌+◌, ◌-◌, ◌*◌, ◌/◌, ◌%◌, ◌^◌, Bool, ◌&&◌, ◌==◌, ltb, if◌then◌else◌, update, Option,
  find_from,
}

-- `rep stosb` and `rep stosl` of x86.h; a word is stored with its low byte first.
unfoldable pub stosb : ℕ → ℕ → ℕ → (ℕ → ℕ) → ℕ → ℕ
stosb a v zero m = m
stosb a v (suc n) m = stosb (a + 1) v n (update m a (v % 256))

unfoldable pub store_word : ℕ → ℕ → (ℕ → ℕ) → ℕ → ℕ
store_word a w m =
    update
      (update (update (update m a (w % 256)) (a + 1) (w / 256 % 256)) (a + 2) (w / 65536 % 256))
      (a + 3) (w / 16777216 % 256)

unfoldable pub stosl : ℕ → ℕ → ℕ → (ℕ → ℕ) → ℕ → ℕ
stosl a w zero m = m
stosl a w (suc n) m = stosl (a + 4) w n (store_word a w m)

unfoldable pub memset : ℕ → ℕ → ℕ → (ℕ → ℕ) → ℕ → ℕ
memset dst c n m =
    let b = c % 256 in
    if (dst % 4 == 0) && (n % 4 == 0)
    then stosl dst (b * 16777216 + b * 65536 + b * 256 + b) (n / 4) m
    else stosb dst c n m

-- The value of a comparison that returns `x - y`: the pair of `x` and `y`, with (0, 0) for `return 0`.
unfoldable pub memcmp : (ℕ → ℕ) → ℕ → ℕ → ℕ → ℕ × ℕ
memcmp m a b zero = (0, 0)
memcmp m a b (suc n) =
    let rest = memcmp m (a + 1) (b + 1) n in if m a == m b then rest else (m a, m b)

-- The two loops of `memmove`: forward from the start, and backward from the end.
unfoldable pub move_up : ℕ → ℕ → ℕ → (ℕ → ℕ) → ℕ → ℕ
move_up d s zero m = m
move_up d s (suc n) m = move_up (d + 1) (s + 1) n (update m d (m s))

unfoldable pub move_down : ℕ → ℕ → ℕ → (ℕ → ℕ) → ℕ → ℕ
move_down d s zero m = m
move_down d s (suc n) m = move_down d s n (update m (d + n) (m (s + n)))

unfoldable pub memmove : ℕ → ℕ → ℕ → (ℕ → ℕ) → ℕ → ℕ
memmove d s n m = if ltb s d && ltb d (s + n) then move_down d s n m else move_up d s n m

unfoldable pub memcpy : ℕ → ℕ → ℕ → (ℕ → ℕ) → ℕ → ℕ
unfolding memmove
memcpy d s n m = memmove d s n m

unfoldable pub strncmp : (ℕ → ℕ) → ℕ → ℕ → ℕ → ℕ × ℕ
strncmp m p q zero = (0, 0)
strncmp m p q (suc n) =
    let rest = strncmp m (p + 1) (q + 1) n in
    if m p == 0 then (m p, m q) else if m p == m q then rest else (m p, m q)

-- The second loop of `strncpy`, and the first, which goes over to it behind the NUL.
unfoldable pub pad : ℕ → ℕ → (ℕ → ℕ) → ℕ → ℕ
pad zero i s = s
pad (suc n) i s = pad n (i + 1) (update s i 0)

unfoldable pub strncpy_loop : (ℕ → ℕ) → ℕ → ℕ → (ℕ → ℕ) → ℕ → ℕ
unfolding pad
strncpy_loop t zero i s = s
strncpy_loop t (suc n) i s =
    let s' = update s i (t i) in
    let rest = strncpy_loop t n (i + 1) s' in
    let padded = pad n (i + 1) s' in if t i == 0 then padded else rest

-- The loop `while(--n > 0 && (*s++ = *t++) != 0);` and the final `*s = 0`, at position `i`.
unfoldable pub safestrcpy_loop : (ℕ → ℕ) → ℕ → ℕ → (ℕ → ℕ) → ℕ → ℕ
safestrcpy_loop t zero i s = update s i 0
safestrcpy_loop t (suc n) i s =
    let s' = update s i (t i) in
    let rest = safestrcpy_loop t n (i + 1) s' in if t i == 0 then update s' (i + 1) 0 else rest

-- `n <= 0` returns at once; else `--n` leaves `n - 1` characters and the NUL.
unfoldable pub safestrcpy : (ℕ → ℕ) → (ℕ → ℕ) → ℕ → ℕ → ℕ
unfolding safestrcpy_loop
safestrcpy s t zero = s
safestrcpy s t (suc n) = safestrcpy_loop t n 0 s

-- The loop of `strlen`, with fuel.
unfoldable pub strlen : ℕ → (ℕ → ℕ) → Option ℕ
strlen fuel s = find_from (λ n. s n == 0) fuel 0

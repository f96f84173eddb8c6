-- ===== src/Strings/Blocks.antt =====
-- memset, memcmp and memmove, byte by byte.
use os_project03_thread.Common.{
  ℕ, zero, suc, ◌+◌, ◌-◌, ◌*◌, ◌/◌, ◌%◌, ◌≤◌, ◌<◌, ◌≡◌, ◌⊎◌, inl, inr, ◌∙◌, ap, arith, ◌&&◌, ◌==◌,
  ltb, leb, if◌then◌else◌, update, Bool-cases,
}
use os_project03_thread.Strings.{stosb, stosl, store_word, memset, move_up, move_down, memmove}

stosb_at :
    (v n a : ℕ) (m : ℕ → ℕ) (j : ℕ)
    → stosb a v n m j ≡ (if leb a j && ltb j (a + n) then v % 256 else m j)
unfolding stosb
stosb_at v zero a m j = ground arith
stosb_at v (suc n) a m j = ground (arith, stosb_at v n (a + 1) (update m a (v % 256)) j)

-- A word of four equal bytes.
store_word_at :
    (a b : ℕ) (m : ℕ → ℕ) (j : ℕ)
    → b < 256
    → store_word a (b * 16777216 + b * 65536 + b * 256 + b) m j
      ≡ (if leb a j && ltb j (a + 4) then b else m j)
unfolding store_word
store_word_at a b m j h = ground arith

stosl_at :
    (b n a : ℕ) (m : ℕ → ℕ) (j : ℕ)
    → b < 256
    → stosl a (b * 16777216 + b * 65536 + b * 256 + b) n m j
      ≡ (if leb a j && ltb j (a + 4 * n) then b else m j)
unfolding stosl
stosl_at b zero a m j h = ground arith
stosl_at b (suc n) a m j h =
    let w = b * 16777216 + b * 65536 + b * 256 + b in
    ground (arith, stosl_at b n (a + 4) (store_word a w m) j h, store_word_at a b m j h)

-- `memset` sets the `n` bytes from `dst` on to the low byte of `c` and no others, whether it stores
-- words or bytes.
pub memset_at :
    (dst c n : ℕ) (m : ℕ → ℕ) (j : ℕ)
    → memset dst c n m j ≡ (if leb dst j && ltb j (dst + n) then c % 256 else m j)
unfolding memset
memset_at dst c n m j = elim (Bool-cases ((dst % 4 == 0) && (n % 4 == 0))) [
  | inl e ↦ rw e (stosl_at (c % 256) (n / 4) dst m j (omega arith) ∙ ground arith)
  | inr e ↦ rw e (stosb_at c n dst m j)
]

apart_next : (d s n : ℕ) → (d ≤ s) ⊎ (s + suc n ≤ d) → (d + 1 ≤ s + 1) ⊎ (s + 1 + n ≤ d + 1)
apart_next d s n h = ground arith

shift : (d s : ℕ) (m : ℕ → ℕ) (j : ℕ) → d < j → m (s + 1 + (j - (d + 1))) ≡ m (s + (j - d))
shift d s m j h = ap m (omega arith)

start : (d s : ℕ) (m : ℕ → ℕ) (j : ℕ) → j ≡ d → m (s + (j - d)) ≡ m s
start d s m j h = ap m (omega arith)

last : (d s n : ℕ) (m : ℕ → ℕ) (j : ℕ) → j ≡ d + n → m (s + (j - d)) ≡ m (s + n)
last d s n m j h = ap m (omega arith)

move_up_at :
    (n d s : ℕ) (m : ℕ → ℕ) (j : ℕ)
    → (d ≤ s) ⊎ (s + n ≤ d)
    → move_up d s n m j ≡ (if leb d j && ltb j (d + n) then m (s + (j - d)) else m j)
unfolding move_up
move_up_at zero d s m j h = ground arith
move_up_at (suc n) d s m j h = ground (
  arith,
  move_up_at n (d + 1) (s + 1) (update m d (m s)) j (apart_next d s n h),
  shift d s m j,
  start d s m j,
)

move_down_at :
    (n d s : ℕ) (m : ℕ → ℕ) (j : ℕ)
    → s < d
    → move_down d s n m j ≡ (if leb d j && ltb j (d + n) then m (s + (j - d)) else m j)
unfolding move_down
move_down_at zero d s m j h = ground arith
move_down_at (suc n) d s m j h =
    ground (arith, move_down_at n d s (update m (d + n) (m (s + n))) j h, last d s n m j)

-- `memmove` copies the `n` bytes from `s` on to `d`, as they were before, even where the two blocks
-- overlap, and changes no other byte.
pub memmove_at :
    (d s n : ℕ) (m : ℕ → ℕ) (j : ℕ)
    → memmove d s n m j ≡ (if leb d j && ltb j (d + n) then m (s + (j - d)) else m j)
unfolding memmove
memmove_at d s n m j = elim (Bool-cases (ltb s d && ltb d (s + n))) [
  | inl e ↦ rw e (move_down_at n d s m j (ground arith))
  | inr e ↦ rw e (move_up_at n d s m j (ground arith))
]

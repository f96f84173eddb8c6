-- ===== src/Strings/Copies.antt =====
-- safestrcpy: the copy is a string and stays inside its buffer.
use os_project03_thread.Common.{
  ℕ, zero, suc, ◌+◌, ◌≤◌, ◌<◌, ◌≡◌, inl, inr, arith, ◌==◌, update, Bool-cases, update_same,
}
use os_project03_thread.Strings.{safestrcpy_loop, safestrcpy}

-- A NUL at or before the last position of the buffer.
loop_ends :
    (t : ℕ → ℕ) (n i : ℕ) (s : ℕ → ℕ)
    → (r : ℕ) × (i ≤ r) × (r ≤ i + n) × (safestrcpy_loop t n i s r ≡ 0)
unfolding safestrcpy_loop
loop_ends t zero i s = (i, omega arith, omega arith, update_same s i 0)
loop_ends t (suc n) i s = elim (Bool-cases (t i == 0)) [
  | inl e ↦ (i + 1, omega arith, omega arith, rw e (update_same (update s i (t i)) (i + 1) 0))
  | inr e ↦
      let (r, a, b, h) = loop_ends t n (i + 1) (update s i (t i)) in
      (r, omega arith, omega arith, rw e h)
]

loop_beyond :
    (t : ℕ → ℕ) (n i : ℕ) (s : ℕ → ℕ) (j : ℕ) → i + n < j → safestrcpy_loop t n i s j ≡ s j
unfolding safestrcpy_loop
loop_beyond t zero i s j h = ground arith
loop_beyond t (suc n) i s j h = ground (arith, loop_beyond t n (i + 1) (update s i (t i)) j)

-- `safestrcpy` into a buffer of `suc n` characters leaves a NUL inside the buffer, and writes
-- nothing behind it, however long the other string is.
pub safestrcpy_bounds :
    (s t : ℕ → ℕ) (n : ℕ)
    → ((r : ℕ) × (r < suc n) × (safestrcpy s t (suc n) r ≡ 0))
      × ((j : ℕ) → suc n ≤ j → safestrcpy s t (suc n) j ≡ s j)
unfolding safestrcpy
safestrcpy_bounds s t n =
    let (r, a, b, h) = loop_ends t n 0 s in
    ((r, omega arith, h), λ j g. loop_beyond t n 0 s j (omega arith))

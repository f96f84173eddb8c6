-- ===== src/Syscall/Bounds.antt =====
-- What the kernel reads for a system call lies inside the memory of the process.
use os_project03_thread.Common.{
  ℕ, ◌+◌, ◌-◌, ◌^◌, ◌≤◌, ◌<◌, ◌≡◌, ◌≢◌, inl, inr, arith, none, some, ◌==◌, Option-cases, ap, ◌∙◌,
  find_from-some, find_from_first,
}
use os_project03_thread.Kalloc.{kernbase}
use os_project03_thread.Syscall.{word_at, fetchint, find_nul, fetchstr, argptr}

-- A word that `fetchint` returns lies inside the memory of the process, and is the word there.
pub fetchint_inside :
    (mem : ℕ → ℕ) (sz addr v : ℕ)
    → sz ≤ kernbase
    → fetchint mem sz addr ≡ some v
    → (addr + 4 ≤ sz) × (v ≡ word_at mem addr)
unfolding fetchint
fetchint_inside mem sz addr v h e = ground arith

-- A block that `argptr` accepts lies inside the memory of the process, whatever the size: the sum of
-- pointer and size does not wrap.
pub argptr_inside :
    (mem : ℕ → ℕ) (sz esp n size p : ℕ)
    → sz ≤ kernbase
    → argptr mem sz esp n size ≡ some p
    → (size < 2 ^ 31) × (p < sz) × (p + size ≤ sz)
unfolding argptr
argptr_inside mem sz esp n size p h e = ground arith

refused :
    (mem : ℕ → ℕ) (sz addr : ℕ) (v : ℕ × ℕ)
    → find_nul mem addr (sz - addr) ≡ none
    → fetchstr mem sz addr ≡ some v
    → ⊥
unfolding fetchstr
refused mem sz addr v e h = ground arith

found_at :
    (mem : ℕ → ℕ) (sz addr p len r : ℕ)
    → find_nul mem addr (sz - addr) ≡ some r
    → fetchstr mem sz addr ≡ some (p, len)
    → (addr < sz) × (p ≡ addr) × (len ≡ r - addr)
unfolding fetchstr
found_at mem sz addr p len r e h = ground arith

string_at :
    (mem : ℕ → ℕ) (sz addr p len r : ℕ)
    → find_nul mem addr (sz - addr) ≡ some r
    → (addr < sz) × (p ≡ addr) × (len ≡ r - addr)
    → (p ≡ addr)
      × (p + len < sz)
      × (mem (p + len) ≡ 0)
      × ((j : ℕ) → p ≤ j → j < p + len → mem j ≢ 0)
unfolding find_nul
string_at mem sz addr p len r e (low, same, size) =
    let found = find_from-some (λ a. mem a == 0) (sz - addr) addr r e in
    let stop : p + len ≡ r = omega arith in
    (
      same,
      omega arith,
      ap mem stop ∙ ground (arith, found.2),
      λ j a b g. ground (arith, find_from_first (λ c. mem c == 0) (sz - addr) addr r j e),
    )

-- A string that `fetchstr` accepts starts at the address given, ends with a NUL inside the memory
-- of the process, and has no NUL before.
pub fetchstr_inside :
    (mem : ℕ → ℕ) (sz addr p len : ℕ)
    → fetchstr mem sz addr ≡ some (p, len)
    → (p ≡ addr)
      × (p + len < sz)
      × (mem (p + len) ≡ 0)
      × ((j : ℕ) → p ≤ j → j < p + len → mem j ≢ 0)
fetchstr_inside mem sz addr p len h = elim (Option-cases (find_nul mem addr (sz - addr))) [
  | inl e ↦ absurd (refused mem sz addr (p, len) e h)
  | inr (r, e) ↦ string_at mem sz addr p len r e (found_at mem sz addr p len r e h)
]

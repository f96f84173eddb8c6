-- ===== src/Descriptors/Dup.antt =====
-- fdalloc, and a descriptor that is copied and closed.
use os_project03_thread.Common.{
  ℕ, ◌<◌, ◌≡◌, ◌≢◌, ◌⊎◌, inl, inr, refl, arith, none, some, ◌==◌, find_from, find_from-some,
  find_from_first, find_from-none, update, Option-cases,
}
use os_project03_thread.Kernel.State.{nofile}
use os_project03_thread.Descriptors.{World, argfd, fdalloc}

-- `fd` is the lowest free descriptor.
pub record IsLowest (ofile : ℕ → ℕ) (fd : ℕ) : Type 0 where
  pub inside : fd < nofile
  pub is_free : ofile fd ≡ 0
  pub first : (j : ℕ) → j < fd → ofile j ≢ 0

-- `fdalloc` puts the file at the lowest free descriptor, and fails only if there is none.
pub fdalloc-IsLowest :
    (f : ℕ) (ofile : ℕ → ℕ)
    → (((j : ℕ) → j < nofile → ofile j ≢ 0) × (fdalloc f ofile ≡ none))
      ⊎ ((fd : ℕ) × IsLowest ofile fd × (fdalloc f ofile ≡ some (fd, update ofile fd f)))
unfolding fdalloc
fdalloc-IsLowest f ofile = elim (Option-cases (find_from (λ fd. ofile fd == 0) nofile 0)) [
  | inl e ↦ inl (
    λ j a z. ground (arith, find_from-none (λ fd. ofile fd == 0) nofile 0 j e),
    rw (fdalloc, e) refl,
  )
  | inr (fd, e) ↦
      let found = find_from-some (λ g. ofile g == 0) nofile 0 fd e in
      inr (
        fd,
        record {
          inside = omega (arith, found);
          is_free = ground (arith, found);
          first = λ j a z. ground (arith, find_from_first (λ g. ofile g == 0) nofile 0 fd j e);
        },
        rw (fdalloc, e) refl,
      )
]

-- A descriptor in range that is used is what `argfd` gives.
pub argfd-some :
    (fd : ℕ) (ofile : ℕ → ℕ)
    → fd < nofile
    → ofile fd ≢ 0
    → argfd (some fd) ofile ≡ some (fd, ofile fd)
unfolding argfd
argfd-some fd ofile a b = ground arith

-- The descriptors, files, pages and inodes of the two worlds are the same.
pub record IsSame (w w' : World) : Type 0 where
  pub ofile : (j : ℕ) → w'.ofile j ≡ w.ofile j
  pub file : (j : ℕ) → w'.file j ≡ w.file j
  pub kmem : w'.kmem ≡ w.kmem
  pub put : w'.put ≡ w.put

-- ===== src/Files/Counts.antt =====
-- The reference counts of open files.
use os_project03_thread.Common.{
  ℕ, ◌+◌, ◌-◌, ◌≤◌, ◌<◌, ◌≡◌, ◌≢◌, ◌⊎◌, inl, inr, refl, arith, none, some, ◌==◌, ltb, ◌%◌, ◌^◌,
  find_from-some, find_from-none, update, Option-cases, Bool-cases,
}
use os_project03_thread.Files.{
  File, FileType, nfile, Closing, nothing, closing, find_free, filealloc, filedup, fileclose,
}

pub filealloc-none : (t : ℕ → File) → find_free t ≡ none → filealloc t ≡ (0, t)
unfolding filealloc
filealloc-none t e = rw (filealloc, e) refl

pub filealloc-some :
    (t : ℕ → File) (f : ℕ)
    → find_free t ≡ some f
    → filealloc t ≡ (f, update t f (record (t f) { ref = 1 }))
unfolding filealloc
filealloc-some t f e = rw (filealloc, e) refl

-- `filealloc` gives out an entry of the table without references, with one reference, and changes no
-- other; it returns 0 only if every entry is referenced.
pub filealloc_fresh :
    (t : ℕ → File)
    → (((filealloc t).0 ≡ 0) × ((j : ℕ) → 1 ≤ j → j ≤ nfile → (t j).ref ≢ 0))
      ⊎ ((1 ≤ (filealloc t).0)
          × ((filealloc t).0 ≤ nfile)
          × ((t (filealloc t).0).ref ≡ 0)
          × (((filealloc t).1 (filealloc t).0).ref ≡ 1)
          × ((j : ℕ) → j ≢ (filealloc t).0 → (filealloc t).1 j ≡ t j))
unfolding find_free
filealloc_fresh t = elim (Option-cases (find_free t)) [
  | inl e ↦ inl (
    rw (filealloc-none t e) refl,
    λ j a b z. ground (arith, find_from-none (λ f. (t f).ref == 0) nfile 1 j e),
  )
  | inr (f, e) ↦
      let found = find_from-some (λ g. (t g).ref == 0) nfile 1 f e in
      inr (
        rw (filealloc-some t f e)
          (found.0, omega arith, ground (arith, found), ground arith, λ j h. ground arith))
]

-- A reference that is added and closed again leaves the table as it was, and closes nothing below.
pub fileclose-filedup :
    (f : ℕ) (t : ℕ → File)
    → 1 ≤ (t f).ref
    → (t f).ref + 1 < 2 ^ 31
    → (t₁ t₂ : ℕ → File) × (filedup f t ≡ some t₁)
      × (fileclose f t₁ ≡ some (nothing, t₂))
      × ((j : ℕ) → t₂ j ≡ t j)
unfolding filedup fileclose
fileclose-filedup f t h bound =
    let t₁ : ℕ → File = update t f (record (t f) { ref = ((t f).ref + 1) % 2 ^ 32 }) in
    (
      t₁,
      update t₁ f (record (t₁ f) { ref = (t₁ f).ref - 1 }),
      ground arith,
      ground arith,
      λ j. ground arith,
    )

-- `fileclose` passes the file on to the pipe or the inode exactly when the last reference goes: then
-- the entry has no references, and before it has one less.
pub fileclose_last :
    (f : ℕ) (t : ℕ → File)
    → 1 ≤ (t f).ref
    → (t f).ref < 2 ^ 31
    → (c : Closing) × (t' : ℕ → File) × (fileclose f t ≡ some (c, t'))
      × ((t' f).ref ≡ (t f).ref - 1)
      × ((1 < (t f).ref → c ≡ nothing) × ((t f).ref ≡ 1 → c ≡ closing (t f)))
      × ((j : ℕ) → j ≢ f → t' j ≡ t j)
unfolding fileclose
fileclose_last f t h bound = elim (Bool-cases (ltb 0 ((t f).ref - 1))) [
  | inl e ↦ (
    nothing,
    update t f (record (t f) { ref = (t f).ref - 1 }),
    ground arith,
    ground arith,
    (λ g. refl, λ g. absurd (ground arith)),
    λ j g. ground arith,
  )
  | inr e ↦ (
    closing (t f),
    update t f (record (t f) { ref = 0; type = FileType.fd_none }),
    ground arith,
    ground arith,
    (λ g. absurd (ground arith), λ g. refl),
    λ j g. ground arith,
  )
]

-- ===== src/Vm/Ends.antt =====
-- The loops of vm.c end: their fuel is never used up.
use os_project03_thread.Common.{
  ℕ, zero, suc, ◌+◌, ◌-◌, ◌*◌, ◌%◌, ◌^◌, ◌≤◌, ◌<◌, ◌≡◌, ◌≢◌, inl, inr, refl, arith, Bool, true,
  false, ◌==◌, ltb, leb, if◌then◌else◌, Option-cases,
}
use os_project03_thread.Kernel.State.{pgsize}
use os_project03_thread.Kalloc
use os_project03_thread.Kalloc.{Kmem, kernbase, phystop, kalloc}
use os_project03_thread.Vm.{
  Res, done, panics, spins, Vm, after, npdentries, pdx, pgaddr, pgroundup, pgrounddown, v2p, p2v,
  pte_addr, is_present, pte_w, pte_u, zero_page, table_of, walkpgdir, all_pages, map_from, mappages,
}
use os_project03_thread.Vm.Space.{
  kfree, dealloc_from, deallocuvm, free_tables, freevm, alloc_from, allocuvm,
}

-- The call returns or panics.
abbrev pub Ends : {A : Type 0} → Res A → Type 0
Ends r = r ≢ spins

pub done-Ends : {A : Type 0} (a : A) (k : Kmem) → Ends (done a k)
done-Ends a k e = ground arith

pub panics-Ends : {A : Type 0} → Ends {A = A} panics
panics-Ends e = ground arith

pub after-Ends :
    {A B : Type 0} (r : Res A) (f : A → Vm B)
    → Ends r
    → ((a : A) (k : Kmem) → Ends (f a k))
    → Ends (after r f)
after-Ends (done a k) f h g = g a k
after-Ends panics f h g = panics-Ends
after-Ends spins f h g = absurd (h refl)

pub if-Ends :
    {A : Type 0} (b : Bool) (x y : Res A)
    → (b ≡ true → Ends x)
    → (b ≡ false → Ends y)
    → Ends (if b then x else y)
if-Ends true x y f g = f refl
if-Ends false x y f g = g refl

-- The first page is no later than the last, and the fuel covers the pages between.
map_from-Ends :
    (fuel pgdir a last pa perm : ℕ) (k : Kmem)
    → a % pgsize ≡ 0
    → last % pgsize ≡ 0
    → a ≤ last
    → last < 2 ^ 32
    → last < a + fuel * pgsize
    → Ends (map_from fuel pgdir a last pa perm k)
unfolding map_from
map_from-Ends zero pgdir a last pa perm k p q low high enough = absurd (omega arith)
map_from-Ends (suc fuel) pgdir a last pa perm k p q low high enough =
    let pte = walkpgdir pgdir a true k in
    if-Ends (pte.0 == 0) _ _ (λ e. done-Ends _ _)
      (λ e.
        if-Ends (is_present (pte.1.word pte.0)) _ _ (λ f. panics-Ends)
          (λ f.
            if-Ends (a == last) _ _ (λ g. done-Ends _ _)
              (λ g.
                map_from-Ends fuel pgdir ((a + pgsize) % 2 ^ 32) last ((pa + pgsize) % 2 ^ 32) perm
                  _ (omega arith) q (ground arith) high (ground arith))))

-- `mappages` of a range that does not run past the end of the address space.
pub mappages-Ends :
    (pgdir va size pa perm : ℕ) (k : Kmem)
    → 0 < size
    → va + size ≤ 2 ^ 32
    → Ends (mappages pgdir va size pa perm k)
unfolding mappages
mappages-Ends pgdir va size pa perm k pos fits =
    map_from-Ends all_pages pgdir (pgrounddown va) (pgrounddown ((va + size + 2 ^ 32 - 1) % 2 ^ 32))
      pa perm k (omega arith) (omega arith) (omega arith) (omega arith) (omega arith)

module _ (end : ℕ) where
  pub kfree-Ends : (v : ℕ) (k : Kmem) → Ends (kfree end v k)
  unfolding kfree
  kfree-Ends v k = elim (Option-cases (Kalloc.kfree end v k)) [
    | inl e ↦ rw (kfree, e) panics-Ends
    | inr (k', e) ↦ rw (kfree, e) (done-Ends _ _)
  ]

  -- Where there is no page table, the loop goes on with the next one: it may jump, but not back.
  dealloc_from-Ends :
      (fuel pgdir a oldsz : ℕ) (k : Kmem)
      → a % pgsize ≡ 0
      → oldsz ≤ kernbase
      → 0 < fuel
      → oldsz + pgsize ≤ a + fuel * pgsize
      → Ends (dealloc_from end fuel pgdir a oldsz k)
  unfolding dealloc_from
  dealloc_from-Ends zero pgdir a oldsz k p high pos enough = absurd (omega arith)
  dealloc_from-Ends (suc n) pgdir a oldsz k p high pos enough =
      let pte = (walkpgdir pgdir a false k).0 in
      if-Ends (leb oldsz a) _ _ (λ e. done-Ends _ _)
        (λ e.
          let below : a < oldsz = ground arith in
          if-Ends (pte == 0) _ _
            (λ f.
              dealloc_from-Ends n pgdir
                (((pgaddr (pdx a + 1) + 2 ^ 32 - pgsize) % 2 ^ 32 + pgsize) % 2 ^ 32) oldsz k
                (omega arith) high (omega arith) (omega arith))
            (λ f.
              if-Ends (is_present (k.word pte)) _ _
                (λ g.
                  if-Ends (pte_addr (k.word pte) == 0) _ _ (λ h. panics-Ends)
                    (λ h.
                      after-Ends (kfree end (p2v (pte_addr (k.word pte))) k) _ (kfree-Ends _ k)
                        (λ u k'.
                          dealloc_from-Ends n pgdir ((a + pgsize) % 2 ^ 32) oldsz _ (omega arith)
                            high (omega arith) (omega arith))))
                (λ g.
                  dealloc_from-Ends n pgdir ((a + pgsize) % 2 ^ 32) oldsz k (omega arith) high
                    (omega arith) (omega arith))))

  -- `deallocuvm` of user memory.
  pub deallocuvm-Ends :
      (pgdir oldsz newsz : ℕ) (k : Kmem)
      → oldsz ≤ kernbase
      → Ends (deallocuvm end pgdir oldsz newsz k)
  unfolding deallocuvm
  deallocuvm-Ends pgdir oldsz newsz k high =
      if-Ends (leb oldsz newsz) _ _ (λ e. done-Ends _ _)
        (λ e.
          after-Ends (dealloc_from end (all_pages + 1) pgdir (pgroundup newsz) oldsz k) _
            (dealloc_from-Ends (all_pages + 1) pgdir (pgroundup newsz) oldsz k (omega arith) high
              (omega arith) (omega arith))
            (λ u k'. done-Ends _ _))

  free_tables-Ends : (n i pgdir : ℕ) (k : Kmem) → Ends (free_tables end n i pgdir k)
  unfolding free_tables
  free_tables-Ends zero i pgdir k = done-Ends _ _
  free_tables-Ends (suc n) i pgdir k =
      if-Ends (is_present (k.word (pgdir + 4 * i))) _ _
        (λ e.
          after-Ends (kfree end (table_of (k.word (pgdir + 4 * i))) k) _ (kfree-Ends _ k)
            (λ u k'. free_tables-Ends n (i + 1) pgdir k'))
        (λ e. free_tables-Ends n (i + 1) pgdir k)

  pub freevm-Ends : (pgdir : ℕ) (k : Kmem) → Ends (freevm end pgdir k)
  unfolding freevm
  freevm-Ends pgdir k =
      if-Ends (pgdir == 0) _ _ (λ e. panics-Ends)
        (λ e.
          after-Ends _ _
            (after-Ends (deallocuvm end pgdir kernbase 0 k) _
              (deallocuvm-Ends pgdir kernbase 0 k (omega arith))
              (λ u k'. free_tables-Ends npdentries 0 pgdir k'))
            (λ u k'. kfree-Ends pgdir k'))

  alloc_from-Ends :
      (fuel pgdir a oldsz newsz : ℕ) (k : Kmem)
      → a % pgsize ≡ 0
      → newsz < kernbase
      → 0 < fuel
      → newsz + pgsize ≤ a + fuel * pgsize
      → Ends (alloc_from end fuel pgdir a oldsz newsz k)
  unfolding alloc_from
  alloc_from-Ends zero pgdir a oldsz newsz k p high pos enough = absurd (omega arith)
  alloc_from-Ends (suc n) pgdir a oldsz newsz k p high pos enough =
      let mem = kalloc k in
      let cleared = record mem.1 { word = zero_page mem.0 mem.1.word } in
      if-Ends (leb newsz a) _ _ (λ e. done-Ends _ _)
        (λ e.
          let below : a < newsz = ground arith in
          if-Ends (mem.0 == 0) _ _
            (λ f.
              after-Ends (deallocuvm end pgdir newsz oldsz mem.1) _
                (deallocuvm-Ends pgdir newsz oldsz mem.1 (omega arith)) (λ u k'. done-Ends _ _))
            (λ f.
              after-Ends (mappages pgdir a pgsize (v2p mem.0) (pte_w + pte_u) cleared) _
                (mappages-Ends pgdir a pgsize _ _ cleared (omega arith) (omega arith))
                (λ ok k'.
                  if-Ends ok _ _
                    (λ g.
                      alloc_from-Ends n pgdir ((a + pgsize) % 2 ^ 32) oldsz newsz k' (omega arith)
                        high (omega arith) (omega arith))
                    (λ g.
                      after-Ends _ _
                        (after-Ends (deallocuvm end pgdir newsz oldsz k') _
                          (deallocuvm-Ends pgdir newsz oldsz k' (omega arith))
                          (λ u k''. kfree-Ends _ k''))
                        (λ u k''. done-Ends _ _)))))

  -- `allocuvm` ends, whatever the sizes.
  pub allocuvm-Ends : (pgdir oldsz newsz : ℕ) (k : Kmem) → Ends (allocuvm end pgdir oldsz newsz k)
  unfolding allocuvm
  allocuvm-Ends pgdir oldsz newsz k =
      if-Ends (leb kernbase newsz) _ _ (λ e. done-Ends _ _)
        (λ e.
          if-Ends (ltb newsz oldsz) _ _ (λ f. done-Ends _ _)
            (λ f.
              alloc_from-Ends (all_pages + 1) pgdir (pgroundup oldsz) oldsz newsz k (omega arith)
                (ground arith) (omega arith) (ground arith)))

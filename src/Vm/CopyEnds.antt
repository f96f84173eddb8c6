-- ===== src/Vm/CopyEnds.antt =====
-- `setupkvm`, `copyuvm` and `loaduvm` end.
use os_project03_thread.Common.{
  ℕ, zero, suc, ◌+◌, ◌-◌, ◌*◌, ◌%◌, ◌^◌, ◌≤◌, ◌<◌, ◌≡◌, inl, inr, arith, false, List, [], ◌∷◌, ◌||◌,
  not, ◌==◌, ltb, leb, if◌then◌else◌, Bool-cases,
}
use os_project03_thread.Kernel.State.{pgsize}
use os_project03_thread.Kalloc.{Kmem, kernbase, phystop, kalloc}
use os_project03_thread.Vm.{
  Vm, v2p, p2v, pte_addr, pte_flags, is_present, copy_page, walkpgdir, all_pages, mappages,
}
use os_project03_thread.Vm.Space.{
  Kmap, kmap, devspace, extmem, kfree, freevm, map_kernel, setupkvm, copy_from, copyuvm, load_from,
  loaduvm,
}
use os_project03_thread.Vm.Ends.{
  Ends, done-Ends, panics-Ends, after-Ends, if-Ends, mappages-Ends, kfree-Ends, freevm-Ends,
}

abbrev map_size : Kmap → ℕ
map_size m = (m.phys_end + 2 ^ 32 - m.phys_start) % 2 ^ 32

-- The mappings do not run past the end of the address space.
unfoldable Fit : List Kmap → Type 0
Fit [] = Unit
Fit (m ∷ ms) = (0 < map_size m) × (m.virt + map_size m ≤ 2 ^ 32) × Fit ms

module _ (end : ℕ) where
  map_kernel-Ends :
      (ms : List Kmap) (pgdir : ℕ) (k : Kmem) → Fit ms → Ends (map_kernel end ms pgdir k)
  unfolding map_kernel Fit
  map_kernel-Ends [] pgdir k h = done-Ends _ _
  map_kernel-Ends (m ∷ ms) pgdir k h =
      after-Ends (mappages pgdir m.virt (map_size m) m.phys_start m.perm k) _
        (mappages-Ends pgdir m.virt (map_size m) _ _ k h.0 h.1)
        (λ ok k'. elim (Bool-cases ok) [
          | inl e ↦ rw e (map_kernel-Ends ms pgdir k' h.2)
          | inr e ↦ rw e (
              after-Ends (freevm end pgdir k') _ (freevm-Ends end pgdir k')
                (λ u k''. done-Ends _ _))
        ])

  -- `setupkvm`, where the kernel's data starts behind KERNLINK and below PHYSTOP.
  pub setupkvm-Ends :
      (data_start : ℕ) (k : Kmem)
      → kernbase + extmem < data_start
      → data_start < kernbase + phystop
      → Ends (setupkvm end data_start k)
  unfolding setupkvm Fit
  setupkvm-Ends data_start k low high =
      if-Ends ((kalloc k).0 == 0) _ _ (λ e. done-Ends _ _)
        (λ e.
          if-Ends (ltb devspace (p2v phystop)) _ _ (λ f. panics-Ends)
            (λ f. map_kernel-Ends (kmap data_start) (kalloc k).0 _ (
              omega arith,
              omega arith,
              (
                omega arith,
                omega arith,
                (omega arith, omega arith, (omega arith, omega arith, tt)),
              ),
            )))

  copy_from-Ends :
      (fuel pgdir d i sz : ℕ) (k : Kmem)
      → i % pgsize ≡ 0
      → sz ≤ kernbase
      → 0 < fuel
      → sz + pgsize ≤ i + fuel * pgsize
      → Ends (copy_from end fuel pgdir d i sz k)
  unfolding copy_from
  copy_from-Ends zero pgdir d i sz k p high pos enough = absurd (omega arith)
  copy_from-Ends (suc n) pgdir d i sz k p high pos enough =
      let pte = (walkpgdir pgdir i false k).0 in
      let mem = kalloc k in
      let filled = record mem.1 {
        word = copy_page mem.0 (p2v (pte_addr (k.word pte))) mem.1.word;
      } in
      if-Ends (leb sz i) _ _ (λ e. done-Ends _ _)
        (λ e.
          let below : i < sz = ground arith in
          if-Ends (pte == 0 || not (is_present (k.word pte))) _ _ (λ f. panics-Ends)
            (λ f.
              if-Ends (mem.0 == 0) _ _ (λ g. done-Ends _ _)
                (λ g.
                  after-Ends (mappages d i pgsize (v2p mem.0) (pte_flags (k.word pte)) filled) _
                    (mappages-Ends d i pgsize _ _ filled (omega arith) (omega arith))
                    (λ ok k'. elim (Bool-cases ok) [
                      | inl h ↦ rw h (
                          copy_from-Ends n pgdir d ((i + pgsize) % 2 ^ 32) sz k' (omega arith) high
                            (omega arith) (omega arith))
                      | inr h ↦ rw h (
                          after-Ends (kfree end mem.0 k') _ (kfree-Ends end mem.0 k')
                            (λ u k''. done-Ends _ _))
                    ]))))

  -- `copyuvm` of a process whose memory is below KERNBASE: it returns a directory or 0, or panics.
  pub copyuvm-Ends :
      (data_start pgdir sz : ℕ) (k : Kmem)
      → kernbase + extmem < data_start
      → data_start < kernbase + phystop
      → sz ≤ kernbase
      → Ends (copyuvm end data_start pgdir sz k)
  unfolding copyuvm
  copyuvm-Ends data_start pgdir sz k low high small =
      after-Ends (setupkvm end data_start k) _ (setupkvm-Ends data_start k low high) (λ d k'.
        elim (Bool-cases (d == 0)) [
          | inl e ↦ rw e (done-Ends _ _)
          | inr e ↦ rw e (
              after-Ends (copy_from end (all_pages + 1) pgdir d 0 sz k') _
                (copy_from-Ends (all_pages + 1) pgdir d 0 sz k' (omega arith) small (omega arith)
                  (omega arith))
                (λ ok k''. elim (Bool-cases ok) [
                  | inl f ↦ rw f (done-Ends _ _)
                  | inr f ↦ rw f (
                      after-Ends (freevm end d k'') _ (freevm-Ends end d k'')
                        (λ u k3. done-Ends _ _))
                ]))
        ])

module _ (readi : ℕ → ℕ → ℕ → Vm ℕ)
    (h : (dst off n : ℕ) (k : Kmem) → Ends (readi dst off n k)) where
  load_from-Ends :
      (pgdir addr offset sz fuel i : ℕ) (k : Kmem)
      → sz ≤ kernbase
      → i % pgsize ≡ 0
      → 0 < fuel
      → sz + pgsize ≤ i + fuel * pgsize
      → Ends (load_from readi fuel pgdir addr offset i sz k)
  unfolding load_from
  load_from-Ends pgdir addr offset sz zero i k small p pos enough = absurd (omega arith)
  load_from-Ends pgdir addr offset sz (suc n) i k small p pos enough =
      let pte = (walkpgdir pgdir ((addr + i) % 2 ^ 32) false k).0 in
      let m = (if ltb (sz - i) pgsize then sz - i else pgsize) in
      if-Ends (leb sz i) _ _ (λ e. done-Ends _ _)
        (λ e.
          let below : i < sz = ground arith in
          if-Ends (pte == 0) _ _ (λ f. panics-Ends)
            (λ f.
              after-Ends (readi (p2v (pte_addr (k.word pte))) ((offset + i) % 2 ^ 32) m k) _
                (h _ _ _ k)
                (λ got k'. elim (Bool-cases (got == m)) [
                  | inl g ↦ rw g (
                      load_from-Ends pgdir addr offset sz n ((i + pgsize) % 2 ^ 32) k' small
                        (omega arith) (omega arith) (omega arith))
                  | inr g ↦ rw g (done-Ends _ _)
                ])))

  -- `loaduvm`, for a `readi` that ends.
  pub loaduvm-Ends :
      (pgdir addr offset sz : ℕ) (k : Kmem)
      → sz ≤ kernbase
      → Ends (loaduvm readi pgdir addr offset sz k)
  unfolding loaduvm
  loaduvm-Ends pgdir addr offset sz k small =
      if-Ends (addr % pgsize == 0) _ _
        (λ e.
          load_from-Ends pgdir addr offset sz (all_pages + 1) 0 k small (omega arith) (omega arith)
            (omega arith))
        (λ e. panics-Ends)

-- ===== src/Vm/Space.antt =====
-- vm.c: the functions that make, grow, shrink, copy and free an address space.
use os_project03_thread.Common.{
  ℕ, zero, suc, ◌+◌, ◌-◌, ◌*◌, ◌%◌, ◌^◌, Bool, true, false, none, some, List, [], ◌∷◌, ◌&&◌, ◌||◌,
  not, ◌==◌, ltb, leb, if◌then◌else◌,
}
use os_project03_thread.Kernel.State.{pgsize}
use os_project03_thread.Kalloc
use os_project03_thread.Kalloc.{Kmem, kernbase, phystop, kalloc}
use os_project03_thread.Vm.{
  done, panics, spins, Vm, ◌>>=◌, ◌>>◌, npdentries, pdx, pgaddr, pgroundup, v2p, p2v, pte_addr,
  pte_flags, is_present, pte_w, pte_u, zero_page, copy_page, set_word, table_of, walkpgdir,
  all_pages, mappages,
}

abbrev pub pure : {A : Type 0} → A → Vm A
pure = done

-- memlayout.h
abbrev pub extmem : ℕ
extmem = 0x100000

abbrev pub devspace : ℕ
devspace = 0xFE000000

-- `struct kmap`
pub record Kmap : Type 0 where
  pub virt : ℕ
  pub phys_start : ℕ
  pub phys_end : ℕ
  pub perm : ℕ

-- The kernel's mappings; `data` is a symbol that the linker sets.
abbrev pub kmap : ℕ → List Kmap
kmap data_start =
    record { virt = kernbase; phys_start = 0; phys_end = extmem; perm = pte_w }
    ∷ record {
      virt = kernbase + extmem;
      phys_start = v2p (kernbase + extmem);
      phys_end = v2p data_start;
      perm = 0;
    }
    ∷ record { virt = data_start; phys_start = v2p data_start; phys_end = phystop; perm = pte_w }
    ∷ record { virt = devspace; phys_start = devspace; phys_end = 0; perm = pte_w }
    ∷ []

-- `end` is one too.
module _ (end : ℕ) where
  unfoldable pub kfree : ℕ → Vm (Unit {0})
  kfree v k = elim (Kalloc.kfree end v k) [ some k' ↦ done tt k' | none ↦ panics ]

  -- The loop of `deallocuvm` from `a` on.
  unfoldable pub dealloc_from : ℕ → ℕ → ℕ → ℕ → Vm (Unit {0})
  dealloc_from zero pgdir a oldsz k = spins
  dealloc_from (suc fuel) pgdir a oldsz k =
      let pte = (walkpgdir pgdir a false k).0 in
      let pa = pte_addr (k.word pte) in
      let skip = (pgaddr (pdx a + 1) + 2 ^ 32 - pgsize) % 2 ^ 32 in
      let skipped = dealloc_from fuel pgdir ((skip + pgsize) % 2 ^ 32) oldsz k in
      let next = dealloc_from fuel pgdir ((a + pgsize) % 2 ^ 32) oldsz in
      if leb oldsz a
      then done tt k
      else (if pte == 0
          then skipped
          else (if is_present (k.word pte)
              then (if pa == 0
                  then panics
                  else (kfree (p2v pa) >>= λ _ k'. next (set_word pte 0 k')) k)
              else next k))

  unfoldable pub deallocuvm : ℕ → ℕ → ℕ → Vm ℕ
  deallocuvm pgdir oldsz newsz k =
      if leb oldsz newsz
      then done oldsz k
      else (dealloc_from (all_pages + 1) pgdir (pgroundup newsz) oldsz >> pure newsz) k

  -- The loop of `freevm` over `n` directory entries from `i` on.
  unfoldable pub free_tables : ℕ → ℕ → ℕ → Vm (Unit {0})
  free_tables zero i pgdir k = done tt k
  free_tables (suc n) i pgdir k =
      let pde = k.word (pgdir + 4 * i) in
      if is_present pde
      then (kfree (table_of pde) >> free_tables n (i + 1) pgdir) k
      else free_tables n (i + 1) pgdir k

  unfoldable pub freevm : ℕ → Vm (Unit {0})
  freevm pgdir k =
      if pgdir == 0
      then panics
      else (deallocuvm pgdir kernbase 0 >> free_tables npdentries 0 pgdir >> kfree pgdir) k

  -- The loop of `allocuvm` from `a` on.
  unfoldable pub alloc_from : ℕ → ℕ → ℕ → ℕ → ℕ → Vm ℕ
  alloc_from zero pgdir a oldsz newsz k = spins
  alloc_from (suc fuel) pgdir a oldsz newsz k =
      let mem = kalloc k in
      let cleared = record mem.1 { word = zero_page mem.0 mem.1.word } in
      let next = alloc_from fuel pgdir ((a + pgsize) % 2 ^ 32) oldsz newsz in
      if leb newsz a
      then done newsz k
      else (if mem.0 == 0
          then (deallocuvm pgdir newsz oldsz >> pure 0) mem.1
          else (mappages pgdir a pgsize (v2p mem.0) (pte_w + pte_u) >>= λ ok k'.
                if ok then next k' else (deallocuvm pgdir newsz oldsz >> kfree mem.0 >> pure 0) k')
              cleared)

  unfoldable pub allocuvm : ℕ → ℕ → ℕ → Vm ℕ
  allocuvm pgdir oldsz newsz k =
      if leb kernbase newsz
      then done 0 k
      else (if ltb newsz oldsz
          then done oldsz k
          else alloc_from (all_pages + 1) pgdir (pgroundup oldsz) oldsz newsz k)

  -- The loop of `setupkvm`: the page directory, or 0.
  unfoldable pub map_kernel : List Kmap → ℕ → Vm ℕ
  map_kernel [] pgdir k = done pgdir k
  map_kernel (m ∷ ms) pgdir k =
      (mappages pgdir m.virt ((m.phys_end + 2 ^ 32 - m.phys_start) % 2 ^ 32) m.phys_start m.perm
          >>= λ ok. if ok then map_kernel ms pgdir else (freevm pgdir >> pure 0))
        k

  unfoldable pub setupkvm : ℕ → Vm ℕ
  setupkvm data_start k =
      let pgdir = kalloc k in
      if pgdir.0 == 0
      then done 0 pgdir.1
      else (if ltb devspace (p2v phystop)
          then panics
          else map_kernel (kmap data_start) pgdir.0
              (record pgdir.1 { word = zero_page pgdir.0 pgdir.1.word }))

  -- The first program, `sz` bytes of words, goes to a page of its own at address 0. The results of
  -- `kalloc` and of `mappages` are not looked at.
  unfoldable pub inituvm : ℕ → (ℕ → ℕ) → ℕ → Vm (Unit {0})
  inituvm pgdir init sz k =
      let mem = kalloc k in
      let cleared = record mem.1 { word = zero_page mem.0 mem.1.word } in
      if leb pgsize sz
      then panics
      else (mappages pgdir 0 pgsize (v2p mem.0) (pte_w + pte_u) >>= λ _ k'. done tt (record k' {
        word = (λ a. if leb mem.0 a && ltb a (mem.0 + sz) then init (a - mem.0) else k'.word a);
      }))
          cleared

  -- The loop of `copyuvm` from page `i` on, into the directory `d`; false is the jump to `bad`.
  unfoldable pub copy_from : ℕ → ℕ → ℕ → ℕ → ℕ → Vm Bool
  copy_from zero pgdir d i sz k = spins
  copy_from (suc fuel) pgdir d i sz k =
      let pte = (walkpgdir pgdir i false k).0 in
      let pa = pte_addr (k.word pte) in
      let flags = pte_flags (k.word pte) in
      let mem = kalloc k in
      let filled = record mem.1 { word = copy_page mem.0 (p2v pa) mem.1.word } in
      let next = copy_from fuel pgdir d ((i + pgsize) % 2 ^ 32) sz in
      if leb sz i
      then done true k
      else (if pte == 0 || not (is_present (k.word pte))
          then panics
          else (if mem.0 == 0
              then done false mem.1
              else (mappages d i pgsize (v2p mem.0) flags >>= λ ok.
                    if ok then next else (kfree mem.0 >> pure false))
                  filled))

  unfoldable pub copyuvm : ℕ → ℕ → ℕ → Vm ℕ
  copyuvm data_start pgdir sz = setupkvm data_start >>= λ d.
      if d == 0
      then pure 0
      else (copy_from (all_pages + 1) pgdir d 0 sz >>= λ ok.
          if ok then pure d else (freevm d >> pure 0))

-- The loop of `loaduvm` from `i` on; `readi` reads `n` bytes of the file from an offset to an address
-- and returns their number. False is -1.
module _ (readi : ℕ → ℕ → ℕ → Vm ℕ) where
  unfoldable pub load_from : ℕ → ℕ → ℕ → ℕ → ℕ → ℕ → Vm Bool
  load_from zero pgdir addr offset i sz k = spins
  load_from (suc fuel) pgdir addr offset i sz k =
      let pte = (walkpgdir pgdir ((addr + i) % 2 ^ 32) false k).0 in
      let pa = pte_addr (k.word pte) in
      let n = (if ltb (sz - i) pgsize then sz - i else pgsize) in
      let next = load_from fuel pgdir addr offset ((i + pgsize) % 2 ^ 32) sz in
      if leb sz i
      then done true k
      else (if pte == 0
          then panics
          else (readi (p2v pa) ((offset + i) % 2 ^ 32) n >>= λ got.
                if got == n then next else pure false)
              k)

  unfoldable pub loaduvm : ℕ → ℕ → ℕ → ℕ → Vm Bool
  loaduvm pgdir addr offset sz k =
      if addr % pgsize == 0 then load_from (all_pages + 1) pgdir addr offset 0 sz k else panics

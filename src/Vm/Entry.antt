-- ===== src/Vm/Entry.antt =====
-- Writing one page table entry.
use os_project03_thread.Common.{
  ℕ, ◌+◌, ◌*◌, ◌≤◌, ◌<◌, ◌≡◌, ◌≢◌, ◌⊎◌, inl, inr, refl, arith, List, ◌==◌, update_same,
  update_other, Bool-cases,
}
use os_project03_thread.Kernel.State.{pgsize}
use os_project03_thread.Kalloc.{Kmem}
use os_project03_thread.Kalloc.Free.{IsPage, Outside, HasFree}
use os_project03_thread.Vm.{npdentries, is_present, set_word}
use os_project03_thread.Vm.Tables.{entry_at, HasTable, table_at, IsSpace, Chain-apart, apart_pages}

module _ (end : ℕ) (k : Kmem) (pgdir : ℕ) (ps : List ℕ) (i j : ℕ) (low_i : i < npdentries)
    (low_j : j < 1024) (space : IsSpace end k pgdir ps) (here : HasTable k pgdir i) (x : ℕ) where
  abbrev slot : ℕ
  slot = table_at k pgdir i + 4 * j

  abbrev wrote : Kmem
  wrote = set_word slot x k

  dir_apart : (table_at k pgdir i + pgsize ≤ pgdir) ⊎ (pgdir + pgsize ≤ table_at k pgdir i)
  dir_apart =
      apart_pages (table_at k pgdir i) pgdir (space.table i low_i here).aligned space.dir.aligned
        (space.not_dir i low_i here)

  pde_same : (a : ℕ) → a < npdentries → wrote.word (pgdir + 4 * a) ≡ k.word (pgdir + 4 * a)
  pde_same a h = update_other k.word slot (pgdir + 4 * a) x (λ e. ground (arith, dir_apart))

  each_same :
      (P : ℕ → Type 0)
      → ((a : ℕ) → a < npdentries → HasTable k pgdir a → P (table_at k pgdir a))
      → (a : ℕ) → a < npdentries
      → HasTable wrote pgdir a
      → P (table_at wrote pgdir a)
  each_same P old a h t = rw (pde_same a h) (old a h (rw (← pde_same a h) t))

  pub wrote-IsSpace : IsSpace end wrote pgdir ps
  unfolding HasFree
  wrote-IsSpace = record {
    free =
        Chain-apart end k.word wrote.word (table_at k pgdir i) k.freelist ps
          (space.table_used i low_i here) (space.table i low_i here).aligned
          (λ a h. update_other k.word slot a x (λ e. ground arith)) space.free;
    dir = space.dir;
    dir_used = space.dir_used;
    table = each_same (λ v. IsPage end v) space.table;
    table_used = each_same (λ v. Outside v ps) space.table_used;
    not_dir = each_same (λ v. v ≢ pgdir) space.not_dir;
    distinct = λ a b ha hb ne ta tb.
        rw (pde_same a ha, pde_same b hb)
          (space.distinct a b ha hb ne (rw (← pde_same a ha) ta) (rw (← pde_same b hb) tb));
  }

  pub wrote_here : entry_at wrote pgdir i j ≡ x
  wrote_here = rw (pde_same i low_i, here) (update_same k.word slot x)

  other_slot :
      (a b : ℕ)
      → a < npdentries
      → b < 1024
      → (a ≢ i) ⊎ (b ≢ j)
      → HasTable k pgdir a
      → table_at k pgdir a + 4 * b ≢ slot
  other_slot a b ha hb ne t = elim (Bool-cases (a == i)) [
    | inl e ↦ let same : a ≡ i = ground arith in rw same (λ q. ground arith)
    | inr e ↦
        let away : a ≢ i = ground arith in
        let apart =
          apart_pages (table_at k pgdir a) (table_at k pgdir i) (space.table a ha t).aligned
            (space.table i low_i here).aligned (space.distinct a i ha low_i away t here) in
        (λ q. ground (arith, apart))
  ]

  pub wrote_away :
      (a b : ℕ)
      → a < npdentries
      → b < 1024
      → (a ≢ i) ⊎ (b ≢ j)
      → entry_at wrote pgdir a b ≡ entry_at k pgdir a b
  wrote_away a b ha hb ne =
      rw (pde_same a ha) (elim (Bool-cases (is_present (k.word (pgdir + 4 * a)))) [
        | inl t ↦
            rw t
              (update_other k.word slot (table_at k pgdir a + 4 * b) x (other_slot a b ha hb ne t))
        | inr t ↦ rw t refl
      ])

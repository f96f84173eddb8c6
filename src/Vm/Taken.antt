-- ===== src/Vm/Taken.antt =====
-- A free page that is taken and cleared leaves an address space as it is.
use os_project03_thread.Common.{
  ℕ, ◌+◌, ◌*◌, ◌≤◌, ◌<◌, ◌≡◌, ◌≢◌, ◌⊎◌, inl, inr, refl, arith, List, ◌∷◌, Bool-cases,
}
use os_project03_thread.Kernel.State.{pgsize}
use os_project03_thread.Kalloc.{Kmem}
use os_project03_thread.Kalloc.Free.{IsPage, Outside, Chain, HasFree}
use os_project03_thread.Vm.{npdentries, is_present, zero_page}
use os_project03_thread.Vm.Tables.{HasTable, table_at, IsSpace, Chain-apart, apart_pages}
use os_project03_thread.Vm.Map.{SameEntries, first_page}

-- The memory after a free page is taken and cleared.
abbrev pub taken : Kmem → ℕ → Kmem
taken k p = record { word = zero_page p k.word; freelist = k.word p }

module _ (end : ℕ) (k : Kmem) (pgdir p : ℕ) (qs : List ℕ)
    (space : IsSpace end k pgdir (p ∷ qs)) where
  same_word : (a : ℕ) → (a < p) ⊎ (p + pgsize ≤ a) → (taken k p).word a ≡ k.word a
  unfolding zero_page
  same_word a h = ground arith

  dir_word : (i : ℕ) → i < npdentries → (taken k p).word (pgdir + 4 * i) ≡ k.word (pgdir + 4 * i)
  unfolding Outside
  dir_word i h =
      let apart =
        apart_pages pgdir p space.dir.aligned (first_page end k p qs space.free).aligned
          space.dir_used.0 in
      same_word (pgdir + 4 * i) (ground (arith, apart))

  each_same :
      (P : ℕ → Type 0)
      → ((a : ℕ) → a < npdentries → HasTable k pgdir a → P (table_at k pgdir a))
      → (a : ℕ) → a < npdentries
      → HasTable (taken k p) pgdir a
      → P (table_at (taken k p) pgdir a)
  each_same P old a h t = rw (dir_word a h) (old a h (rw (← dir_word a h) t))

  taken_free : HasFree end (taken k p) qs
  unfolding HasFree Chain
  taken_free =
      let (e, page, out, chain) = space.free in
      Chain-apart end k.word (zero_page p k.word) p (k.word p) qs out page.aligned
        (λ a h. same_word a h) chain

  pub taken-IsSpace : IsSpace end (taken k p) pgdir qs
  unfolding Outside
  taken-IsSpace = record {
    free = taken_free;
    dir = space.dir;
    dir_used = space.dir_used.1;
    table = each_same (λ v. IsPage end v) space.table;
    table_used = each_same (λ v. Outside v qs) (λ a h t. (space.table_used a h t).1);
    not_dir = each_same (λ v. v ≢ pgdir) space.not_dir;
    distinct = λ a b ha hb ne ta tb.
        rw (dir_word a ha, dir_word b hb)
          (space.distinct a b ha hb ne (rw (← dir_word a ha) ta) (rw (← dir_word b hb) tb));
  }

  pub taken_entry : SameEntries pgdir k (taken k p)
  unfolding Outside
  taken_entry a b ha hb =
      rw (dir_word a ha) (elim (Bool-cases (is_present (k.word (pgdir + 4 * a)))) [
        | inl t ↦
            let apart =
              apart_pages (table_at k pgdir a) p (space.table a ha t).aligned
                (first_page end k p qs space.free).aligned (space.table_used a ha t).0 in
            rw t (same_word (table_at k pgdir a + 4 * b) (ground (arith, apart)))
        | inr t ↦ rw t refl
      ])

-- ===== src/Vm/Walk.antt =====
-- What `walkpgdir` does to an address space: it may add an empty page table, and changes no entry.
use os_project03_thread.Common.{
  ℕ, ◌+◌, ◌*◌, ◌≤◌, ◌<◌, ◌≡◌, ◌≢◌, ◌⊎◌, inl, inr, refl, sym, arith, false, List, ◌∷◌, ◌==◌, update,
  update_same, update_other, Bool-cases,
}
use os_project03_thread.Kernel.State.{pgsize}
use os_project03_thread.Kalloc.{Kmem}
use os_project03_thread.Kalloc.Free.{IsPage, Outside, Chain, HasFree}
use os_project03_thread.Vm.{npdentries, v2p, is_present, pte_w, pte_u, zero_page, entry}
use os_project03_thread.Vm.Tables.{
  entry_at, HasTable, table_at, IsSpace, Chain-apart, apart_pages, new_table, new_present,
}

-- The memory after a table in the page `p` is made for index `i`.
abbrev pub with_table : Kmem → ℕ → ℕ → ℕ → Kmem
with_table k pgdir i p = record {
  word = update (zero_page p k.word) (pgdir + 4 * i) (entry (v2p p) (pte_w + pte_u));
  freelist = k.word p;
}

module _ (end : ℕ) (k : Kmem) (pgdir p : ℕ) (qs : List ℕ) (i : ℕ) (low : i < npdentries)
    (space : IsSpace end k pgdir (p ∷ qs)) where
  abbrev made : Kmem
  made = with_table k pgdir i p

  page : IsPage end p
  unfolding HasFree Chain
  page = space.free.1

  p_used : Outside p qs
  unfolding HasFree Chain
  p_used = space.free.2

  p_dir : p ≢ pgdir
  unfolding Outside
  p_dir e = space.dir_used.0 (sym e)

  dir_apart : (pgdir + pgsize ≤ p) ⊎ (p + pgsize ≤ pgdir)
  dir_apart = apart_pages pgdir p space.dir.aligned page.aligned (λ e. p_dir (sym e))

  same_word : (a : ℕ) → (a < p) ⊎ (p + pgsize ≤ a) → a ≢ pgdir + 4 * i → made.word a ≡ k.word a
  unfolding zero_page
  same_word a h ne = ground arith

  fresh_word : (a : ℕ) → p ≤ a → a < p + pgsize → made.word a ≡ 0
  unfolding zero_page
  fresh_word a h g = ground (arith, dir_apart)

  pub pde_new : made.word (pgdir + 4 * i) ≡ entry (v2p p) (pte_w + pte_u)
  pde_new = update_same (zero_page p k.word) (pgdir + 4 * i) _

  pde_other : (j : ℕ) → j < npdentries → j ≢ i → made.word (pgdir + 4 * j) ≡ k.word (pgdir + 4 * j)
  pde_other j h ne = same_word (pgdir + 4 * j) (ground (arith, dir_apart)) (λ e. ne (omega arith))

  made_free : HasFree end made qs
  unfolding HasFree Chain Outside zero_page
  made_free =
      let (e, pg, out, chain) = space.free in
      Chain-apart end (zero_page p k.word) made.word pgdir (k.word p) qs space.dir_used.1
        space.dir.aligned
        (λ a h. update_other (zero_page p k.word) (pgdir + 4 * i) a _ (λ q. ground arith))
        (Chain-apart end k.word (zero_page p k.word) p (k.word p) qs out pg.aligned
          (λ a h. ground arith) chain)

  pub table_new : table_at made pgdir i ≡ p
  table_new = rw pde_new (new_table end p page)

  HasTable-old : (j : ℕ) → j < npdentries → j ≢ i → HasTable made pgdir j → HasTable k pgdir j
  HasTable-old j h ne t = rw (← pde_other j h ne) t

  table_old : (j : ℕ) → j < npdentries → j ≢ i → table_at made pgdir j ≡ table_at k pgdir j
  table_old j h ne = rw (pde_other j h ne) refl

  -- A property of all tables that holds of the new one and of the old ones.
  each_table :
      (P : ℕ → Type 0)
      → P p
      → ((j : ℕ) → j < npdentries → HasTable k pgdir j → P (table_at k pgdir j))
      → (j : ℕ) → j < npdentries
      → HasTable made pgdir j
      → P (table_at made pgdir j)
  each_table P new old j h t = elim (Bool-cases (j == i)) [
    | inl e ↦ let same : j ≡ i = ground arith in rw (same, table_new) new
    | inr e ↦
        let ne : j ≢ i = ground arith in rw (table_old j h ne) (old j h (HasTable-old j h ne t))
  ]

  old_not_new : (j : ℕ) → j < npdentries → HasTable k pgdir j → table_at k pgdir j ≢ p
  unfolding Outside
  old_not_new j h t = (space.table_used j h t).0

  pub made-IsSpace : IsSpace end made pgdir qs
  unfolding Outside
  made-IsSpace = record {
    free = made_free;
    dir = space.dir;
    dir_used = space.dir_used.1;
    table = each_table (λ v. IsPage end v) page space.table;
    table_used = each_table (λ v. Outside v qs) p_used (λ j h t. (space.table_used j h t).1);
    not_dir = each_table (λ v. v ≢ pgdir) p_dir space.not_dir;
    distinct = λ a b ha hb ne ta tb. elim (Bool-cases (a == i)) [
      | inl e ↦
          let same : a ≡ i = ground arith in
          let other : b ≢ i = ground arith in
          rw (same, table_new, table_old b hb other)
            (λ q. old_not_new b hb (HasTable-old b hb other tb) (sym q))
      | inr e ↦
          let away : a ≢ i = ground arith in
          elim (Bool-cases (b == i)) [
            | inl f ↦
                let same : b ≡ i = ground arith in
                rw (same, table_new, table_old a ha away)
                  (old_not_new a ha (HasTable-old a ha away ta))
            | inr f ↦
                let other : b ≢ i = ground arith in
                rw (table_old a ha away, table_old b hb other)
                  (space.distinct a b ha hb ne (HasTable-old a ha away ta)
                    (HasTable-old b hb other tb))
          ]
    ];
  }

  -- The words of a table that was there before.
  old_table_word :
      (j l : ℕ)
      → j < npdentries
      → l < 1024
      → HasTable k pgdir j
      → made.word (table_at k pgdir j + 4 * l) ≡ k.word (table_at k pgdir j + 4 * l)
  old_table_word j l h g t =
      let al = (space.table j h t).aligned in
      let apart_p = apart_pages (table_at k pgdir j) p al page.aligned (old_not_new j h t) in
      let apart_d =
        apart_pages (table_at k pgdir j) pgdir al space.dir.aligned (space.not_dir j h t) in
      same_word (table_at k pgdir j + 4 * l) (ground (arith, apart_p))
        (λ q. ground (arith, apart_d))

  pub made_entry :
      is_present (k.word (pgdir + 4 * i)) ≡ false
      → (j l : ℕ) → j < npdentries
      → l < 1024
      → entry_at made pgdir j l ≡ entry_at k pgdir j l
  made_entry absent j l h g = elim (Bool-cases (j == i)) [
    | inl e ↦
        let same : j ≡ i = ground arith in
        rw (same, absent, pde_new, new_present end p page, new_table end p page)
          (fresh_word (p + 4 * l) (omega arith) (omega arith))
    | inr e ↦
        let ne : j ≢ i = ground arith in
        rw (pde_other j h ne) (elim (Bool-cases (is_present (k.word (pgdir + 4 * j)))) [
          | inl t ↦ rw t (old_table_word j l h g t)
          | inr t ↦ rw t refl
        ])
  ]

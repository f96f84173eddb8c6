-- ===== src/Vm/Tables.antt =====
-- An address space that is in order: its directory and its page tables are different pages, and none
-- of them is free.
use os_project03_thread.Common.{
  ℕ, ◌+◌, ◌*◌, ◌%◌, ◌≤◌, ◌<◌, ◌≡◌, ◌≢◌, ◌⊎◌, arith, true, List, [], ◌∷◌, if◌then◌else◌,
}
use os_project03_thread.Kernel.State.{pgsize}
use os_project03_thread.Kalloc.{Kmem}
use os_project03_thread.Kalloc.Free.{IsPage, Outside, Chain, HasFree}
use os_project03_thread.Vm.{npdentries, pdx, ptx, v2p, is_present, pte_w, pte_u, entry, table_of}

-- The page table entry at index `j` of the table at index `i` of the directory, 0 without a table.
abbrev pub entry_at : Kmem → ℕ → ℕ → ℕ → ℕ
entry_at k pgdir i j =
    if is_present (k.word (pgdir + 4 * i))
    then k.word (table_of (k.word (pgdir + 4 * i)) + 4 * j)
    else 0

abbrev pub entry_of : Kmem → ℕ → ℕ → ℕ
entry_of k pgdir va = entry_at k pgdir (pdx va) (ptx va)

abbrev pub HasTable : Kmem → ℕ → ℕ → Type 0
HasTable k pgdir i = is_present (k.word (pgdir + 4 * i)) ≡ true

abbrev pub table_at : Kmem → ℕ → ℕ → ℕ
table_at k pgdir i = table_of (k.word (pgdir + 4 * i))

-- `ps` are the free pages.
pub record IsSpace (end : ℕ) (k : Kmem) (pgdir : ℕ) (ps : List ℕ) : Type 0 where
  pub free : HasFree end k ps
  pub dir : IsPage end pgdir
  pub dir_used : Outside pgdir ps
  pub table : (i : ℕ) → i < npdentries → HasTable k pgdir i → IsPage end (table_at k pgdir i)
  pub table_used : (i : ℕ) → i < npdentries → HasTable k pgdir i → Outside (table_at k pgdir i) ps
  pub not_dir : (i : ℕ) → i < npdentries → HasTable k pgdir i → table_at k pgdir i ≢ pgdir
  pub distinct :
      (i j : ℕ)
      → i < npdentries
      → j < npdentries
      → i ≢ j
      → HasTable k pgdir i
      → HasTable k pgdir j
      → table_at k pgdir i ≢ table_at k pgdir j

-- Writes outside the pages of a free list leave the list as it is.
pub Chain-apart :
    (end : ℕ) (w w' : ℕ → ℕ) (v h : ℕ) (ps : List ℕ)
    → Outside v ps
    → v % pgsize ≡ 0
    → ((a : ℕ) → (a < v) ⊎ (v + pgsize ≤ a) → w' a ≡ w a)
    → Chain end w h ps
    → Chain end w' h ps
unfolding Chain Outside
Chain-apart end w w' v h [] out al same c = c
Chain-apart end w w' v h (p ∷ ps) (ne, out) al same (e, page, distinct, c) =
    let here : w' p ≡ w p = same p (ground (arith, page.aligned)) in
    (e, page, distinct, rw here (Chain-apart end w w' v (w p) ps out al same c))

-- Addresses in two different pages.
pub apart_pages :
    (u v : ℕ) → u % pgsize ≡ 0 → v % pgsize ≡ 0 → u ≢ v → (u + pgsize ≤ v) ⊎ (v + pgsize ≤ u)
apart_pages u v a b ne = ground arith

-- The directory entry of a new table points at it.
pub new_table : (end p : ℕ) → IsPage end p → table_of (entry (v2p p) (pte_w + pte_u)) ≡ p
new_table end p page = omega (arith, page.aligned, page.above, page.below)

pub new_present : (end p : ℕ) → IsPage end p → is_present (entry (v2p p) (pte_w + pte_u)) ≡ true
new_present end p page = ground (arith, page.aligned, page.above, page.below)

-- ===== src/Vm/Map.antt =====
-- `mappages` of one page: its entry is set, and no other entry of the address space changes.
use os_project03_thread.Common.{
  ℕ, suc, ◌+◌, ◌-◌, ◌*◌, ◌%◌, ◌^◌, ◌<◌, ◌≡◌, ◌≢◌, ◌⊎◌, inl, inr, refl, sym, arith, ◌∙◌, true, false,
  List, [], ◌∷◌, ◌==◌, if◌then◌else◌, Bool-cases, ne→==_false, ap, ==_refl,
}
use mathlib.Core.Path.{ap₂}
use os_project03_thread.Kernel.State.{pgsize}
use os_project03_thread.Kalloc.{Kmem, kalloc}
use os_project03_thread.Kalloc.Free.{IsPage, Chain, HasFree}
use os_project03_thread.Vm.{
  npdentries, pdx, ptx, is_present, set_word, entry, walkpgdir, done, panics, map_from, mappages,
  all_pages, pgrounddown,
}
use os_project03_thread.Vm.Tables.{entry_at, entry_of, HasTable, table_at, IsSpace, new_present}
use os_project03_thread.Vm.Walk.{with_table, pde_new, table_new, made-IsSpace, made_entry}
use os_project03_thread.Vm.Entry.{wrote-IsSpace, wrote_here, wrote_away}

-- The address space `k'` has the entries of `k`.
abbrev pub SameEntries : ℕ → Kmem → Kmem → Type 0
SameEntries pgdir k k' =
    (a b : ℕ) → a < npdentries → b < 1024 → entry_at k' pgdir a b ≡ entry_at k pgdir a b

-- The free pages that a walk leaves: the first one may have become a table.
abbrev pub Takes : List ℕ → List ℕ → Type 0
Takes ps qs = (ps ≡ qs) ⊎ ((p : ℕ) × (ps ≡ p ∷ qs))

-- What a walk that allocates leaves.
pub record Walked (end : ℕ) (k : Kmem) (pgdir va : ℕ) (ps : List ℕ) : Type 0 where
  pub mem : Kmem
  pub left : List ℕ
  pub result : walkpgdir pgdir va true k ≡ (table_at mem pgdir (pdx va) + 4 * ptx va, mem)
  pub takes : Takes ps left
  pub space : IsSpace end mem pgdir left
  pub here : HasTable mem pgdir (pdx va)
  pub same : SameEntries pgdir k mem

kalloc_none : (end : ℕ) (k : Kmem) → HasFree end k [] → kalloc k ≡ (0, k)
unfolding HasFree Chain kalloc
kalloc_none end k h = ground arith

pub kalloc_takes :
    (end : ℕ) (k : Kmem) (p : ℕ) (qs : List ℕ)
    → HasFree end k (p ∷ qs)
    → (kalloc k ≡ (p, record k { freelist = k.word p })) × (p ≢ 0)
unfolding HasFree Chain kalloc
kalloc_takes end k p qs (e, page, out, c) =
    let some_page : p ≢ 0 = (λ z. ground (arith, page.above)) in (rw e (ground arith), some_page)

pub first_page : (end : ℕ) (k : Kmem) (p : ℕ) (qs : List ℕ) → HasFree end k (p ∷ qs) → IsPage end p
unfolding HasFree Chain
first_page end k p qs h = h.1

-- `walkpgdir` with `alloc` set finds the entry's address, in an address space with the same entries
-- whose page tables are still in order; or there is no free page, and nothing is changed.
pub walkpgdir-IsSpace :
    (end : ℕ) (k : Kmem) (pgdir va : ℕ) (ps : List ℕ)
    → IsSpace end k pgdir ps
    → ((ps ≡ []) × (walkpgdir pgdir va true k ≡ (0, k))) ⊎ Walked end k pgdir va ps
unfolding walkpgdir
walkpgdir-IsSpace end k pgdir va ps space =
    elim (Bool-cases (is_present (k.word (pgdir + 4 * pdx va)))) [
      | inl e ↦ inr (record {
        mem = k;
        left = ps;
        result = rw e refl;
        takes = inl refl;
        space = space;
        here = e;
        same = λ a b h g. refl;
      })
      | inr e ↦ go ps space e
    ]
  where
    go :
        (ps : List ℕ)
        → IsSpace end k pgdir ps
        → is_present (k.word (pgdir + 4 * pdx va)) ≡ false
        → ((ps ≡ []) × (walkpgdir pgdir va true k ≡ (0, k))) ⊎ Walked end k pgdir va ps
    go [] space e = inl (refl, rw (e, kalloc_none end k space.free) refl)
    go (p ∷ qs) space e =
        let (r, some_page) = kalloc_takes end k p qs space.free in
        let page = first_page end k p qs space.free in
        let low : pdx va < npdentries = omega arith in
        inr (record {
          mem = with_table k pgdir (pdx va) p;
          left = qs;
          result =
              rw (e, r, ne→==_false some_page) refl
              ∙ ap (λ t. (t + 4 * ptx va, with_table k pgdir (pdx va) p))
                  (sym (table_new end k pgdir p qs (pdx va) low space));
          takes = inr (p, refl);
          space = made-IsSpace end k pgdir p qs (pdx va) low space;
          here = rw (pde_new end k pgdir p qs (pdx va) low space) (new_present end p page);
          same = made_entry end k pgdir p qs (pdx va) low space e;
        })

-- The last page of `mappages`.
map_last :
    (fuel pgdir a pa perm : ℕ) (k k' : Kmem) (q : ℕ)
    → walkpgdir pgdir a true k ≡ (q, k')
    → map_from (suc fuel) pgdir a a pa perm k ≡ (
        if q == 0
        then done false k'
        else (if is_present (k'.word q) then panics else done true (set_word q (entry pa perm) k')))
unfolding map_from
map_last fuel pgdir a pa perm k k' q e = rw (e, ==_refl a) refl

map_one :
    (pgdir va pa perm : ℕ) (k : Kmem)
    → va % pgsize ≡ 0
    → va < 2 ^ 32
    → mappages pgdir va pgsize pa perm k ≡ map_from all_pages pgdir va va pa perm k
unfolding mappages
map_one pgdir va pa perm k al low =
    let first : pgrounddown va ≡ va = omega arith in
    let last : pgrounddown ((va + pgsize + 2 ^ 32 - 1) % 2 ^ 32) ≡ va = omega arith in
    ap₂ (λ a b. map_from all_pages pgdir a b pa perm k) first last

-- The address space after the page is mapped.
pub record Mapped (end : ℕ) (k : Kmem) (pgdir va pa perm : ℕ) (ps : List ℕ) : Type 0 where
  pub mem : Kmem
  pub left : List ℕ
  pub result : mappages pgdir va pgsize pa perm k ≡ done true mem
  pub takes : Takes ps left
  pub space : IsSpace end mem pgdir left
  pub unmapped : is_present (entry_of k pgdir va) ≡ false
  pub set : entry_of mem pgdir va ≡ entry pa perm
  pub others :
      (a b : ℕ)
      → a < npdentries
      → b < 1024
      → (a ≢ pdx va) ⊎ (b ≢ ptx va)
      → entry_at mem pgdir a b ≡ entry_at k pgdir a b

-- `mappages` of one page sets that page's entry and no other, and leaves the page tables in order; it
-- panics if the page is mapped already, and fails, changing nothing, if it needs a table and there is
-- no free page.
pub mappages-IsSpace :
    (end : ℕ) (k : Kmem) (pgdir va pa perm : ℕ) (ps : List ℕ)
    → IsSpace end k pgdir ps
    → va % pgsize ≡ 0
    → va < 2 ^ 32
    → ((ps ≡ []) × (mappages pgdir va pgsize pa perm k ≡ done false k))
      ⊎ (((is_present (entry_of k pgdir va) ≡ true) × (mappages pgdir va pgsize pa perm k ≡ panics))
          ⊎ Mapped end k pgdir va pa perm ps)
mappages-IsSpace end k pgdir va pa perm ps space al low =
    elim (walkpgdir-IsSpace end k pgdir va ps space) [
      | inl (none_left, r) ↦
          inl (
            none_left,
            map_one pgdir va pa perm k al low ∙ map_last 1048575 pgdir va pa perm k k 0 r,
          )
      | inr w ↦ inr (go w)
    ]
  where
    go :
        Walked end k pgdir va ps
        → ((is_present (entry_of k pgdir va) ≡ true)
            × (mappages pgdir va pgsize pa perm k ≡ panics))
          ⊎ Mapped end k pgdir va pa perm ps
    go w =
        let i_low : pdx va < npdentries = omega arith in
        let j_low : ptx va < 1024 = omega arith in
        let q = table_at w.mem pgdir (pdx va) + 4 * ptx va in
        let here : entry_of w.mem pgdir va ≡ w.mem.word q = rw w.here refl in
        let before : entry_of k pgdir va ≡ w.mem.word q =
          sym (w.same (pdx va) (ptx va) i_low j_low) ∙ here in
        let page = w.space.table (pdx va) i_low w.here in
        let some_slot : q ≢ 0 = (λ z. ground (arith, page.above)) in
        let run =
          map_one pgdir va pa perm k al low
          ∙ map_last 1048575 pgdir va pa perm k w.mem q w.result in
        elim (Bool-cases (is_present (w.mem.word q))) [
          | inl e ↦ inl (rw before e, run ∙ rw (ne→==_false some_slot, e) refl)
          | inr e ↦ inr (record {
            mem = set_word q (entry pa perm) w.mem;
            left = w.left;
            result = run ∙ rw (ne→==_false some_slot, e) refl;
            takes = w.takes;
            space =
                wrote-IsSpace end w.mem pgdir w.left (pdx va) (ptx va) i_low j_low w.space w.here
                  (entry pa perm);
            unmapped = rw before e;
            set =
                wrote_here end w.mem pgdir w.left (pdx va) (ptx va) i_low j_low w.space w.here
                  (entry pa perm);
            others = λ a b ha hb ne.
                wrote_away end w.mem pgdir w.left (pdx va) (ptx va) i_low j_low w.space w.here
                  (entry pa perm) a b ha hb ne
                ∙ w.same a b ha hb;
          })
        ]

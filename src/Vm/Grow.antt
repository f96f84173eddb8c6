-- ===== src/Vm/Grow.antt =====
-- `allocuvm` with enough free pages: every new page of the process is mapped.
use os_project03_thread.Common.{
  ℕ, zero, suc, ◌+◌, ◌*◌, ◌/◌, ◌%◌, ◌^◌, ◌≤◌, ◌<◌, ◌≡◌, ◌≢◌, ◌⊎◌, inl, inr, refl, arith, ◌∙◌, true,
  false, List, [], ◌∷◌, ◌==◌, ltb, leb, Bool-cases, length, ap, ne→==_false,
}
use os_project03_thread.Kernel.State.{pgsize}
use os_project03_thread.Kalloc.{Kmem, kernbase, kalloc}
use os_project03_thread.Kalloc.Free.{IsPage, Outside, Chain, HasFree}
use os_project03_thread.Vm.{
  pdx, ptx, v2p, is_present, pte_w, pte_u, entry, done, mappages, all_pages, pgroundup,
}
use os_project03_thread.Vm.Space.{alloc_from, allocuvm}
use os_project03_thread.Vm.Tables.{entry_of, IsSpace}
use os_project03_thread.Vm.Map.{Takes, kalloc_takes, Mapped, mappages-IsSpace}
use os_project03_thread.Vm.Taken.{taken, taken-IsSpace, taken_entry}

-- The page is one of the list.
unfoldable pub Among : ℕ → List ℕ → Type 0
Among q [] = ⊥
Among q (p ∷ ps) = (q ≡ p) ⊎ Among q ps

-- The page table entry maps a page for the user that was one of the free pages `ps` and is none of
-- those left.
pub record Fresh (end : ℕ) (ps left : List ℕ) (pte : ℕ) : Type 0 where
  pub frame : ℕ
  pub page : IsPage end frame
  pub was_free : Among frame ps
  pub gone : Among frame left → ⊥
  pub maps : pte ≡ entry (v2p frame) (pte_w + pte_u)

-- The pages from `a` to `newsz` are mapped for the user, each to a page of its own that was free
-- before, and no other page is mapped anew.
pub record Grown (end fuel : ℕ) (k : Kmem) (ps : List ℕ) (pgdir a oldsz newsz : ℕ) : Type 0 where
  pub mem : Kmem
  pub left : List ℕ
  pub result : alloc_from end fuel pgdir a oldsz newsz k ≡ done newsz mem
  pub space : IsSpace end mem pgdir left
  pub rest_of : (q : ℕ) → Among q left → Among q ps
  pub new :
      (va : ℕ) → va % pgsize ≡ 0 → a ≤ va → va < newsz → Fresh end ps left (entry_of mem pgdir va)
  pub apart :
      (u v : ℕ)
      → u % pgsize ≡ 0
      → v % pgsize ≡ 0
      → a ≤ u
      → u < v
      → v < newsz
      → entry_of mem pgdir u ≢ entry_of mem pgdir v
  pub old :
      (va : ℕ)
      → va % pgsize ≡ 0
      → va < 2 ^ 32
      → (va < a) ⊎ (newsz ≤ va)
      → entry_of mem pgdir va ≡ entry_of k pgdir va

Outside-Among : (p q : ℕ) (ps : List ℕ) → Outside p ps → Among q ps → p ≢ q
unfolding Among Outside
Outside-Among p q [] out h = absurd h
Outside-Among p q (r ∷ ps) out (inl e) = λ z. out.0 (z ∙ e)
Outside-Among p q (r ∷ ps) out (inr h) = Outside-Among p q ps out.1 h

Takes-Among : (ps qs : List ℕ) (q : ℕ) → Takes ps qs → Among q qs → Among q ps
unfolding Among
Takes-Among ps qs q (inl e) h = rw e h
Takes-Among ps qs q (inr (p, e)) h = rw e (inr h)

free_page :
    (end : ℕ) (k : Kmem) (p : ℕ) (qs : List ℕ)
    → HasFree end k (p ∷ qs)
    → IsPage end p × Outside p qs
unfolding HasFree Chain
free_page end k p qs h = (h.1, h.2)

-- Two pages have different frames in their entries.
different :
    (end p q : ℕ)
    → IsPage end p
    → IsPage end q
    → p ≢ q
    → entry (v2p p) (pte_w + pte_u) ≢ entry (v2p q) (pte_w + pte_u)
different end p q a b ne e = ne (omega (arith, a.above, a.below, b.above, b.below))

-- Two pages have different indices.
apart_index :
    (u v : ℕ)
    → u % pgsize ≡ 0
    → v % pgsize ≡ 0
    → u < 2 ^ 32
    → v < 2 ^ 32
    → u ≢ v
    → (pdx u ≢ pdx v) ⊎ (ptx u ≢ ptx v)
apart_index u v a b c d ne = elim (Bool-cases (pdx u == pdx v)) [
  | inl e ↦ inr (λ q. ne (ground arith))
  | inr e ↦ inl (λ q. ground arith)
]

alloc_one :
    (end fuel : ℕ) (k mem : Kmem) (pgdir a oldsz newsz p : ℕ)
    → a < newsz
    → kalloc k ≡ (p, record k { freelist = k.word p })
    → p ≢ 0
    → mappages pgdir a pgsize (v2p p) (pte_w + pte_u) (taken k p) ≡ done true mem
    → alloc_from end (suc fuel) pgdir a oldsz newsz k
      ≡ alloc_from end fuel pgdir ((a + pgsize) % 2 ^ 32) oldsz newsz mem
unfolding alloc_from
alloc_one end fuel k mem pgdir a oldsz newsz p below e some_page m =
    let more : leb newsz a ≡ false = ground arith in rw (more, e, ne→==_false some_page, m) refl

alloc_done :
    (end fuel : ℕ) (k : Kmem) (pgdir a oldsz newsz : ℕ)
    → newsz ≤ a
    → alloc_from end (suc fuel) pgdir a oldsz newsz k ≡ done newsz k
unfolding alloc_from
alloc_done end fuel k pgdir a oldsz newsz h =
    let no_more : leb newsz a ≡ true = ground arith in rw no_more refl

length-Takes : (ps qs : List ℕ) → Takes ps qs → length ps ≤ length qs + 1
unfolding length
length-Takes ps qs (inl e) = rw e (omega arith)
length-Takes ps qs (inr (p, e)) = rw e (omega arith)

-- The pages of `[a, newsz)` are not mapped.
abbrev pub Unmapped : Kmem → ℕ → ℕ → ℕ → Type 0
Unmapped k pgdir a newsz =
    (va : ℕ) → va % pgsize ≡ 0 → a ≤ va → va < newsz → is_present (entry_of k pgdir va) ≡ false

module _ (end pgdir oldsz newsz : ℕ) (small : newsz < kernbase) where
  -- One page mapped, the rest grown: the whole is grown.
  Grown-more :
      (fuel a p : ℕ) (k : Kmem) (qs : List ℕ)
      → a % pgsize ≡ 0
      → a < newsz
      → (space : IsSpace end k pgdir (p ∷ qs))
      → (m : Mapped end (taken k p) pgdir a (v2p p) (pte_w + pte_u) qs)
      → Grown end fuel m.mem m.left pgdir ((a + pgsize) % 2 ^ 32) oldsz newsz
      → Grown end (suc fuel) k (p ∷ qs) pgdir a oldsz newsz
  unfolding Among
  Grown-more fuel a p k qs al below space m g =
      let (e, some_page) = kalloc_takes end k p qs space.free in
      let (page, out) = free_page end k p qs space.free in
      let within : (q : ℕ) → Among q m.left → Among q qs =
        λ q h. Takes-Among qs m.left q m.takes h in
      let here : entry_of g.mem pgdir a ≡ entry (v2p p) (pte_w + pte_u) =
        g.old a al (omega arith) (inl (omega arith)) ∙ m.set in
      record {
        mem = g.mem;
        left = g.left;
        result =
            alloc_one end fuel k m.mem pgdir a oldsz newsz p below e some_page m.result ∙ g.result;
        space = g.space;
        rest_of = λ q h. inr (within q (g.rest_of q h));
        new = λ va av low high. elim (Bool-cases (va == a)) [
          | inl q ↦
              let same : va ≡ a = ground arith in
              record {
                frame = p;
                page = page;
                was_free = inl refl;
                gone = λ h. Outside-Among p p qs out (within p (g.rest_of p h)) refl;
                maps = rw same here;
              }
          | inr q ↦
              let f = g.new va av (ground arith) high in
              record {
                frame = f.frame;
                page = f.page;
                was_free = inr (within f.frame f.was_free);
                gone = f.gone;
                maps = f.maps;
              }
        ];
        apart = λ u v au av low less high. elim (Bool-cases (u == a)) [
          | inl q ↦
              let same : u ≡ a = ground arith in
              let f = g.new v av (ground arith) high in
              rw (same, here, f.maps)
                (different end p f.frame page f.page
                  (Outside-Among p f.frame qs out (within f.frame f.was_free)))
          | inr q ↦ g.apart u v au av (ground arith) less high
        ];
        old = λ va av high out.
            let ne : va ≢ a = (λ q. ground arith) in
            g.old va av high (ground arith)
            ∙ m.others (pdx va) (ptx va) (omega arith) (omega arith)
                (apart_index va a av al high (omega arith) ne)
            ∙ taken_entry end k pgdir p qs space (pdx va) (ptx va) (omega arith) (omega arith);
      }

  Grown-none :
      (fuel a : ℕ) (k : Kmem) (ps : List ℕ)
      → a % pgsize ≡ 0
      → IsSpace end k pgdir ps
      → newsz ≤ a
      → Grown end (suc fuel) k ps pgdir a oldsz newsz
  Grown-none fuel a k ps al space h = record {
    mem = k;
    left = ps;
    result = alloc_done end fuel k pgdir a oldsz newsz h;
    space = space;
    rest_of = λ q g. g;
    new = λ va av low high. absurd (omega arith);
    apart = λ u v au av low less high. absurd (omega arith);
    old = λ va av high out. refl;
  }

  alloc_from-Grown :
      (fuel a : ℕ) (k : Kmem) (ps : List ℕ)
      → a % pgsize ≡ 0
      → 0 < fuel
      → newsz + pgsize ≤ a + fuel * pgsize
      → IsSpace end k pgdir ps
      → Unmapped k pgdir a newsz
      → newsz ≤ a + length ps / 2 * pgsize
      → Grown end fuel k ps pgdir a oldsz newsz
  unfolding length
  alloc_from-Grown zero a k ps al pos enough space un many = absurd (omega arith)
  alloc_from-Grown (suc fuel) a k [] al pos enough space un many =
      Grown-none fuel a k [] al space (omega arith)
  alloc_from-Grown (suc fuel) a k (p ∷ qs) al pos enough space un many =
      elim (Bool-cases (leb newsz a)) [
        | inl e ↦ Grown-none fuel a k (p ∷ qs) al space (ground arith)
        | inr e ↦
            let below : a < newsz = ground arith in
            let entries = taken_entry end k pgdir p qs space in
            elim (mappages-IsSpace end (taken k p) pgdir a (v2p p) (pte_w + pte_u) qs
              (taken-IsSpace end k pgdir p qs space) al (omega arith)) [
                | inl (none_left, r) ↦ absurd (omega (arith, many, ap (λ l. length l) none_left))
                | inr (inl (mapped, r)) ↦
                    let free = un a al (omega arith) below in
                    let same = entries (pdx a) (ptx a) (omega arith) (omega arith) in
                    absurd (ground (arith, same, mapped, free))
                | inr (inr m) ↦
                    let spent = length-Takes qs m.left m.takes in
                    Grown-more fuel a p k qs al below space m (
                      alloc_from-Grown fuel ((a + pgsize) % 2 ^ 32) m.mem m.left (omega arith)
                        (omega arith) (omega arith) m.space
                        (λ va av low high.
                          rw
                            (
                              m.others (pdx va) (ptx va) (omega arith) (omega arith) (
                                  apart_index va a av al (omega arith) (omega arith)
                                    (λ q. omega arith)),
                              entries (pdx va) (ptx va) (omega arith) (omega arith),
                            )
                            (un va av (omega arith) high))
                        (omega arith))
              ]
      ]

  -- In an address space in order, a process grows to `newsz`, below KERNBASE, if the pages above its
  -- old size are not mapped and there are two free pages for each: one for it, and one for a page table
  -- that it may need. Then allocuvm returns `newsz`; each new page is mapped for the user at the
  -- physical address of a page that was free before and is not any more, different ones for different
  -- pages; no other entry changes, and the space is in order.
  pub allocuvm-Grown :
      (k : Kmem) (ps : List ℕ)
      → oldsz ≤ newsz
      → IsSpace end k pgdir ps
      → Unmapped k pgdir (pgroundup oldsz) newsz
      → newsz ≤ pgroundup oldsz + length ps / 2 * pgsize
      → (g : Grown end (all_pages + 1) k ps pgdir (pgroundup oldsz) oldsz newsz) × (allocuvm end
            pgdir oldsz newsz k
          ≡ done newsz g.mem)
  unfolding allocuvm
  allocuvm-Grown k ps more space un many =
      let g =
        alloc_from-Grown (all_pages + 1) (pgroundup oldsz) k ps (omega arith) (omega arith)
          (omega arith) space un many in
      let fits : leb kernbase newsz ≡ false = ground arith in
      let grows : ltb newsz oldsz ≡ false = ground arith in (g, rw (fits, grows) g.result)

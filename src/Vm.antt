-- ===== src/Vm.antt =====
-- vm.c: page tables in the memory of the allocator. A page directory and a page table are pages of
-- 1024 words; `word` is the memory by address, as in Kalloc. A null pointer is 0.
pub mod Space
pub mod Ends
pub mod CopyEnds
pub mod Tables
pub mod Walk
pub mod Entry
pub mod Map
pub mod Taken
pub mod Grow
use os_project03_thread.Common.{
  ℕ, zero, suc, ◌+◌, ◌-◌, ◌*◌, ◌/◌, ◌%◌, ◌^◌, Bool, true, false, Option, none, some, List, [], ◌∷◌,
  ◌&&◌, not, ◌==◌, ltb, leb, if◌then◌else◌, update,
}
use os_project03_thread.Kernel.State.{pgsize}
use os_project03_thread.Kalloc.{Kmem, kernbase, phystop, kfree, kalloc}

-- A call on the memory returns, panics, or is still looping when its fuel is used up.
pub data Res (A : Type 0) : Type 0 where
  done : A → Kmem → Res A
  panics : Res A
  spins : Res A

abbrev pub Vm : Type 0 → Type 0
Vm A = Kmem → Res A

module _ {A B : Type 0} where
  abbrev pub after : Res A → (A → Vm B) → Res B
  after (done a k) f = f a k
  after panics f = panics
  after spins f = spins

  infixl 5 ◌>>=◌ ◌>>◌
  abbrev pub ◌>>=◌ : Vm A → (A → Vm B) → Vm B
  c >>= f = λ k. after (c k) f

  abbrev pub ◌>>◌ : Vm A → Vm B → Vm B
  c >> d = c >>= λ _. d

-- mmu.h and memlayout.h
abbrev pub npdentries : ℕ
npdentries = 1024

abbrev pub pdx : ℕ → ℕ
pdx va = va / 2 ^ 22 % 1024

abbrev pub ptx : ℕ → ℕ
ptx va = va / 2 ^ 12 % 1024

-- PGADDR(d, 0, 0)
abbrev pub pgaddr : ℕ → ℕ
pgaddr d = d * 2 ^ 22 % 2 ^ 32

abbrev pub pgroundup : ℕ → ℕ
pgroundup sz = (sz + pgsize - 1) % 2 ^ 32 / pgsize * pgsize

abbrev pub pgrounddown : ℕ → ℕ
pgrounddown a = a / pgsize * pgsize

abbrev pub v2p : ℕ → ℕ
v2p a = (a + 2 ^ 32 - kernbase) % 2 ^ 32

abbrev pub p2v : ℕ → ℕ
p2v a = (a + kernbase) % 2 ^ 32

abbrev pub pte_addr : ℕ → ℕ
pte_addr pte = pte / 4096 * 4096

abbrev pub pte_flags : ℕ → ℕ
pte_flags pte = pte % 4096

-- `pte & PTE_P` and `pte & PTE_U`
abbrev pub is_present : ℕ → Bool
is_present pte = pte % 2 == 1

abbrev pub is_user : ℕ → Bool
is_user pte = pte / 4 % 2 == 1

abbrev pub pte_w : ℕ
pte_w = 2

abbrev pub pte_u : ℕ
pte_u = 4

-- `pa | perm | PTE_P`, for a `pa` that is the address of a page.
abbrev pub entry : ℕ → ℕ → ℕ
entry pa perm = pa + perm / 2 * 2 + 1

-- `memset(v, 0, PGSIZE)` and `memmove(dst, src, PGSIZE)`, as words
unfoldable pub zero_page : ℕ → (ℕ → ℕ) → ℕ → ℕ
zero_page v w a = if leb v a && ltb a (v + pgsize) then 0 else w a

unfoldable pub copy_page : ℕ → ℕ → (ℕ → ℕ) → ℕ → ℕ
copy_page dst src w a = if leb dst a && ltb a (dst + pgsize) then w (src + (a - dst)) else w a

abbrev pub set_word : ℕ → ℕ → Kmem → Kmem
set_word a v k = record k { word = update k.word a v }

-- The page table that a present directory entry points at.
abbrev pub table_of : ℕ → ℕ
table_of pde = p2v (pte_addr pde)

-- The address of the page table entry of `va`, or 0; with `alloc` set, a missing table is made.
unfoldable pub walkpgdir : ℕ → ℕ → Bool → Kmem → ℕ × Kmem
walkpgdir pgdir va alloc k =
    let pde = pgdir + 4 * pdx va in
    let pgtab = kalloc k in
    if is_present (k.word pde)
    then (table_of (k.word pde) + 4 * ptx va, k)
    else (if not alloc
        then (0, k)
        else (if pgtab.0 == 0 then (0, pgtab.1) else (
          pgtab.0 + 4 * ptx va,
          record pgtab.1 {
            word =
                update (zero_page pgtab.0 pgtab.1.word) pde (entry (v2p pgtab.0) (pte_w + pte_u));
          },
        )))

-- The loop of `mappages`, one page each time round; false is -1.
unfoldable pub map_from : ℕ → ℕ → ℕ → ℕ → ℕ → ℕ → Vm Bool
map_from zero pgdir a last pa perm k = spins
map_from (suc fuel) pgdir a last pa perm k =
    let pte = walkpgdir pgdir a true k in
    let mapped = set_word pte.0 (entry pa perm) pte.1 in
    let rest =
      map_from fuel pgdir ((a + pgsize) % 2 ^ 32) last ((pa + pgsize) % 2 ^ 32) perm mapped in
    if pte.0 == 0
    then done false pte.1
    else (if is_present (pte.1.word pte.0)
        then panics
        else (if a == last then done true mapped else rest))

-- The fuel is one round for each page of the address space.
abbrev pub all_pages : ℕ
all_pages = 2 ^ 20

unfoldable pub mappages : ℕ → ℕ → ℕ → ℕ → ℕ → Vm Bool
mappages pgdir va size pa perm =
    map_from all_pages pgdir (pgrounddown va) (pgrounddown ((va + size + 2 ^ 32 - 1) % 2 ^ 32)) pa
      perm

-- `PTE_U` is cleared; a missing page table is a panic.
unfoldable pub clearpteu : ℕ → ℕ → Vm (Unit {0})
clearpteu pgdir uva k =
    let pte = walkpgdir pgdir uva false k in
    if pte.0 == 0
    then panics
    else done tt (set_word pte.0 (k.word pte.0 - 4 * (k.word pte.0 / 4 % 2)) k)

-- The kernel address of a user page, or 0. The code reads the entry whether there is a page table or
-- not: `none` where it reads through the null pointer.
unfoldable pub uva2ka : Kmem → ℕ → ℕ → Option ℕ
uva2ka k pgdir uva =
    let pte = (walkpgdir pgdir uva false k).0 in
    if pte == 0
    then none
    else (if is_present (k.word pte) && is_user (k.word pte)
        then some (p2v (pte_addr (k.word pte)))
        else some 0)

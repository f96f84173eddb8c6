-- ===== src/Kalloc.antt =====
-- kalloc.c: the allocator of physical pages. `word` is the memory as words by their address, the
-- head of a free page being its `next` pointer; 0 is null. With `use_lock` set, each function runs
-- inside kmem.lock; before that there is one CPU. `end` is the first address behind the kernel,
-- which the linker script gives.
pub mod Free
use os_project03_thread.Common.{
  ℕ, zero, suc, ◌+◌, ◌-◌, ◌*◌, ◌/◌, ◌%◌, ◌^◌, Bool, Option, none, some, ◌||◌, not, ◌==◌, ltb, leb,
  if◌then◌else◌, update,
}
use os_project03_thread.Kernel.State.{pgsize}

-- `kmem`, and the memory that its list runs through.
pub record Kmem : Type 0 where
  pub word : ℕ → ℕ
  pub freelist : ℕ

-- memlayout.h
abbrev pub kernbase : ℕ
kernbase = 0x80000000

abbrev pub phystop : ℕ
phystop = 0xE000000

-- `memset(v, 1, PGSIZE)`, as words
unfoldable pub junk : ℕ → (ℕ → ℕ) → ℕ → ℕ
junk v w a = if leb v a then (if ltb a (v + pgsize) then 0x1010101 else w a) else w a

-- The test of `kfree` on its argument; V2P subtracts KERNBASE.
unfoldable pub is_bad : ℕ → ℕ → Bool
is_bad end v = not (v % pgsize == 0) || ltb v end || leb phystop ((v + 2 ^ 32 - kernbase) % 2 ^ 32)

-- `none` is a panic.
unfoldable pub kfree : ℕ → ℕ → Kmem → Option Kmem
unfolding is_bad junk
kfree end v k =
    if v == 0
    then none
    else if is_bad end v
    then none
    else some (record { word = update (junk v k.word) v k.freelist; freelist = v })

unfoldable pub kalloc : Kmem → ℕ × Kmem
kalloc k =
    if k.freelist == 0 then (0, k) else (k.freelist, record k { freelist = k.word k.freelist })

-- The loop of `freerange` over `n` pages from `p` on.
unfoldable pub free_pages : ℕ → ℕ → ℕ → Kmem → Option Kmem
free_pages end p zero k = some k
free_pages end p (suc n) k = elim (kfree end p k) [
  | none ↦ none
  | some k' ↦ free_pages end (p + pgsize) n k'
]

-- PGROUNDUP of mmu.h
unfoldable pub round_up : ℕ → ℕ
round_up a = (a + pgsize - 1) / pgsize * pgsize

-- The pages that fit between `vstart`, rounded up, and `vend`.
unfoldable pub freerange : ℕ → ℕ → ℕ → Kmem → Option Kmem
unfolding free_pages round_up
freerange end vstart vend k = let p = round_up vstart in free_pages end p ((vend - p) / pgsize) k

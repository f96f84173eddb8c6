-- ===== src/Proc/Alloc/Grow.antt =====
-- growproc: the address space of a process grows or shrinks.
use os_project03_thread.Common.{
  ℕ, ◌+◌, ◌%◌, ◌^◌, ◌≡◌, ◌≢◌, refl, true, false, Option, some, arith, ap, ltb,
}
use os_project03_thread.Kernel.State.{Kernel}
use os_project03_thread.Kernel.Ops.{Ops}
use os_project03_thread.Kernel.Run.{
  ok, set_shared, IsOpen, IsLocked, acquire-entered, entered, release-left, left,
}
use os_project03_thread.Proc.Alloc.{growproc, switchuvm}

module _ {M : Type 0} (ops : Ops M) (cur n : ℕ) (k : Kernel M) (open_k : IsOpen k) where
  -- The address of the shared data of the process, the new size, and what vm.c answers for it.
  abbrev pub group : ℕ
  group = (k.proc cur).share_ptr

  abbrev pub target : ℕ
  target = ((k.shared group).sz + n) % 2 ^ 32

  abbrev pub answer : Option (ℕ × M)
  answer = elim (ltb n (2 ^ 31)) [
    | true ↦ ops.allocuvm (k.shared group).pgdir (k.shared group).sz target k.env
    | false ↦ ops.deallocuvm (k.shared group).pgdir (k.shared group).sz target k.env
  ]

  pub answer_up :
      ltb n (2 ^ 31) ≡ true
      → answer ≡ ops.allocuvm (k.shared group).pgdir (k.shared group).sz target k.env
  answer_up h =
      ap
        (λ b. elim b as (λ _. Option (ℕ × M)) [
          | true ↦ ops.allocuvm (k.shared group).pgdir (k.shared group).sz target k.env
          | false ↦ ops.deallocuvm (k.shared group).pgdir (k.shared group).sz target k.env
        ])
        h

  abbrev sized : ℕ → M → Kernel M
  sized sz m = set_shared group (λ s. record s { sz = sz }) (record (entered k) { env = m })

  sized-IsLocked : (sz : ℕ) (m m' : M) → IsLocked (record (sized sz m) { env = m' })
  sized-IsLocked sz m m' = ground arith

  -- `growproc` by a nonzero amount returns 0 with the lock free when vm.c answers a nonzero size
  -- and the switch of the page directory succeeds: the shared data gets that size, and no other
  -- shared data and no entry of the table changes.
  pub growproc-sized :
      (sz : ℕ) (m m' : M)
      → n ≢ 0
      → answer ≡ some (sz, m)
      → sz ≢ 0
      → ops.switchuvm (k.proc cur).kstack (k.shared group).pgdir m ≡ some m'
      → (k' : Kernel M) × (growproc ops cur n k ≡ ok true k')
        × IsOpen k'
        × ((k'.shared group).sz ≡ sz)
        × ((a : ℕ) → a ≢ group → k'.shared a ≡ k.shared a)
        × (k'.proc ≡ k.proc)
        × (k'.env ≡ m')
  unfolding growproc switchuvm
  growproc-sized sz m m' ne e z s = (
    left (record (sized sz m) { env = m' }),
    rw (acquire-entered k open_k)
        (ground (arith, release-left (record (sized sz m) { env = m' }) (sized-IsLocked sz m m'))),
    ground arith,
    ground arith,
    λ a h. ground arith,
    refl,
    refl,
  )

  -- When vm.c refuses, growproc returns -1 inside the lock: it stays held, with interrupts off.
  pub growproc_keeps_lock :
      (m : M)
      → n ≢ 0
      → answer ≡ some (0, m)
      → (k' : Kernel M) × (growproc ops cur n k ≡ ok false k') × IsLocked k'
  unfolding growproc
  growproc_keeps_lock m ne e =
      (record (entered k) { env = m }, rw (acquire-entered k open_k) (ground arith), ground arith)

-- ===== src/Proc/Alloc/Laws.antt =====
-- allocproc of proc.c: its two outcomes as equations, and what they promise.
use os_project03_thread.Common.{
  ℕ, ◌+◌, ◌%◌, ◌^◌, ◌≤◌, ◌<◌, ◌≡◌, ◌≢◌, ◌⊎◌, inl, inr, refl, false, true, none, some, arith,
  Option-cases, ne→==_false, eq→==_true, find_from-some, find_from-none,
}
use os_project03_thread.Kernel.State.{Kernel, embryo, unused, is_unused, nproc, null}
use os_project03_thread.Kernel.Ops.{Ops}
use os_project03_thread.Kernel.Run.{
  ok, set_proc, IsOpen, entered, left, acquire-entered, entered-IsLocked, release-left,
}
use os_project03_thread.Proc.Alloc.{find_unused, claim, init_stack, kalloc, alloc_stack, allocproc}

module _ {M : Type 0} (ops : Ops M) where
  -- With no UNUSED entry `allocproc` returns 0 and changes nothing but the interrupt state.
  pub allocproc-none :
      (k : Kernel M)
      → IsOpen k
      → find_unused k.proc ≡ none
      → allocproc ops k ≡ ok null (left (entered k))
  unfolding allocproc
  allocproc-none k h e =
      rw (acquire-entered k h, e, release-left (entered k) (entered-IsLocked k h))

  -- The kernel when `allocproc` asks for the stack of the entry `p`.
  abbrev pub claimed : ℕ → Kernel M → Kernel M
  unfolding claim
  claimed p k = left (claim p (entered k))

  pub allocproc-some :
      (k : Kernel M) (p : ℕ)
      → IsOpen k
      → find_unused k.proc ≡ some p
      → allocproc ops k ≡ alloc_stack ops p (claimed p k)
  unfolding allocproc claim
  allocproc-some k p h e =
      rw (acquire-entered k h, e, release-left (claim p (entered k)) (ground arith))

  -- What `allocproc` has done when it returns `p`.
  pub record Allocated (k k' : Kernel M) (p : ℕ) : Type 0 where
    pub in_table : (1 ≤ p) × (p ≤ nproc)
    pub was_unused : is_unused (k.proc p).state ≡ true
    pub first : (j : ℕ) → 1 ≤ j → j < p → is_unused (k.proc j).state ≡ false
    pub state : (k'.proc p).state ≡ embryo
    pub pid : (k'.proc p).pid ≡ k.next_pid
    pub next : k'.next_pid ≡ (k.next_pid + 1) % 2 ^ 32
    pub stack : (k'.proc p).kstack ≡ (ops.kalloc k.env).0
    pub returns_to : (k'.ctx (k'.proc p).context).eip ≡ ops.forkret
    pub others : (j : ℕ) → j ≢ p → k'.proc j ≡ k.proc j
    pub shared : k'.shared ≡ k.shared
    pub unlocked : IsOpen k'

  -- What it has done when it returns 0: no entry is free, or there is no page and the entry is free
  -- again, though a process identifier is used up.
  pub record Refused (k k' : Kernel M) : Type 0 where
    pub unlocked : IsOpen k'
    pub reason :
        ((j : ℕ) → 1 ≤ j → j ≤ nproc → is_unused (k.proc j).state ≡ false)
        ⊎ ((ops.kalloc k.env).0 ≡ 0)
    pub states : (j : ℕ) → (k'.proc j).state ≡ (k.proc j).state

  -- The kernel when `allocproc` returns `p`.
  unfoldable pub allocated : ℕ → Kernel M → Kernel M
  unfolding claim init_stack
  allocated p k = init_stack ops.forkret ops.trapret p (
      set_proc p (λ r. record r { kstack = (ops.kalloc k.env).0 })
        (record (claimed p k) { env = (ops.kalloc k.env).1 }))

  pub allocproc-allocated :
      (k : Kernel M) (p : ℕ)
      → IsOpen k
      → find_unused k.proc ≡ some p
      → (ops.kalloc k.env).0 ≢ 0
      → allocproc ops k ≡ ok p (allocated p k)
  unfolding alloc_stack kalloc init_stack claim allocated
  allocproc-allocated k p h e n = rw (allocproc-some k p h e, ne→==_false n)

  -- The kernel when there was no page for the entry `p`.
  abbrev stackless : ℕ → Kernel M → Kernel M
  unfolding claim
  stackless p k =
      set_proc p (λ r. record r { state = unused })
        (set_proc p (λ r. record r { kstack = (ops.kalloc k.env).0 })
          (record (claimed p k) { env = (ops.kalloc k.env).1 }))

  allocproc-stackless :
      (k : Kernel M) (p : ℕ)
      → IsOpen k
      → find_unused k.proc ≡ some p
      → (ops.kalloc k.env).0 ≡ 0
      → allocproc ops k ≡ ok null (stackless p k)
  unfolding alloc_stack kalloc claim
  allocproc-stackless k p h e n = rw (allocproc-some k p h e, eq→==_true n)

  full-Refused :
      (k : Kernel M)
      → IsOpen k
      → find_unused k.proc ≡ none
      → (k' : Kernel M) × (allocproc ops k ≡ ok null k') × Refused k k'
  unfolding find_unused
  full-Refused k h e = (
    left (entered k),
    allocproc-none k h e,
    record {
      unlocked = ground arith;
      reason = inl (λ j a b. find_from-none _ nproc 1 j e a (omega arith));
      states = λ j. refl;
    },
  )

  -- Without a free entry or without a page, `allocproc` returns 0 with the lock free and the state
  -- of every entry as it was.
  pub allocproc-Refused :
      (k : Kernel M)
      → IsOpen k
      → (find_unused k.proc ≡ none) ⊎ ((ops.kalloc k.env).0 ≡ 0)
      → (k' : Kernel M) × (allocproc ops k ≡ ok null k') × Refused k k'
  unfolding find_unused claim
  allocproc-Refused k h (inl e) = full-Refused k h e
  allocproc-Refused k h (inr e) = elim (Option-cases (find_unused k.proc)) [
    | inl q ↦ full-Refused k h q
    | inr (p, q) ↦ (
      stackless p k,
      allocproc-stackless k p h q e,
      record {
        unlocked = ground arith;
        reason = inr e;
        states = λ j. ground (arith, find_from-some _ nproc 1 p q);
      },
    )
  ]

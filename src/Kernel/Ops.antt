-- ===== src/Kernel/Ops.antt =====
-- What proc.c and sysproc.c call of the other components (kalloc.c, vm.c, file.c, fs.c, log.c).
use os_project03_thread.Common.{ℕ, Bool, Option, List}

-- `M` is the state of those components. `none` is a panic. An address 0 or a size 0 is the failure
-- value of the C function.
pub record Ops (M : Type 0) : Type 0 where
  -- addresses of the assembly code that a new process starts in
  pub forkret : ℕ
  pub trapret : ℕ
  pub kalloc : M → ℕ × M
  pub kfree : ℕ → M → Option M
  pub copyuvm : ℕ → ℕ → M → Option (ℕ × M)
  pub allocuvm : ℕ → ℕ → ℕ → M → Option (ℕ × M)
  pub deallocuvm : ℕ → ℕ → ℕ → M → Option (ℕ × M)
  pub freevm : ℕ → M → Option M
  pub clearpteu : ℕ → ℕ → M → Option M
  -- the words that are copied; false is the return value -1
  pub copyout : ℕ → ℕ → List ℕ → M → Bool × M
  -- by the kernel stack and the page directory of the process
  pub switchuvm : ℕ → ℕ → M → Option M
  pub filedup : ℕ → M → Option M
  pub fileclose : ℕ → M → Option M
  pub idup : ℕ → M → M
  -- begin_op, iput, end_op
  pub iput : ℕ → M → Option M

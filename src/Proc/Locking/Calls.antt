-- ===== src/Proc/Locking/Calls.antt =====
-- Each system call of proc.c and sysproc.c under the rules for the lock.
use os_project03_thread.Common.{ℕ, arith, inl, inr, Option-cases}
use os_project03_thread.Kernel.State.{Kernel, nofile}
use os_project03_thread.Kernel.Ops.{Ops}
use os_project03_thread.Kernel.Run.{IsOpen, IsLocked, acquire, release, acquire-entered}
use os_project03_thread.Kernel.Ends.{for_cmd-Ends}
use os_project03_thread.Proc.Alloc.{allocproc, alloc_stack, kalloc, claim, init_stack, find_unused}
use os_project03_thread.Proc.Alloc.Laws.{allocproc-none, allocproc-some, claimed}
use os_project03_thread.Proc.Fork.{
  fork, fork_finish, fork_space, fork_from, fork_files, fork_start, dup_file, idup, copy_proc,
}
use os_project03_thread.Proc.Exit.{close_file}
use os_project03_thread.Proc.Thread.{
  thread_create, create_start, create_fails, create_grow, join_group, launch, enlist,
}
use os_project03_thread.Proc.Locking.Rules.{then_open, Disciplined}

module _ {M : Type 0} (ops : Ops M) where
  alloc_stack-D : (p : ℕ) (k : Kernel M) → IsOpen k → Disciplined (alloc_stack ops p k)
  unfolding alloc_stack kalloc init_stack
  alloc_stack-D p k h = ground arith

  pub allocproc-Disciplined : (k : Kernel M) → IsOpen k → Disciplined (allocproc ops k)
  unfolding claim
  allocproc-Disciplined k h = elim (Option-cases (find_unused k.proc)) [
    | inl e ↦ rw (allocproc-none ops k h e) (ground arith)
    | inr (p, e) ↦
        rw (allocproc-some ops k p h e) (alloc_stack-D p (claimed ops p k) (ground arith))
  ]

  create_fails-D : (np : ℕ) (k : Kernel M) → IsLocked k → Disciplined (create_fails ops np k)
  unfolding create_fails release
  create_fails-D np k h = ground arith

  create_start-D :
      (np start arg sz : ℕ) (k : Kernel M)
      → IsLocked k
      → Disciplined (create_start ops np start arg sz k)
  unfolding create_start create_fails release launch enlist
  create_start-D np start arg sz k h = ground arith

  create_grow-D :
      (cur np start arg : ℕ) (k : Kernel M)
      → IsOpen k
      → Disciplined (create_grow ops cur np start arg k)
  unfolding create_grow join_group
  create_grow-D cur np start arg k h =
      rw (acquire-entered k h) (grind (arith, create_start-D, create_fails-D))

  pub thread_create-Disciplined :
      (cur start arg : ℕ) (k : Kernel M)
      → IsOpen k
      → Disciplined (thread_create ops cur start arg k)
  unfolding thread_create
  thread_create-Disciplined cur start arg k h =
      then_open (allocproc ops k) _ (allocproc-Disciplined k h)
        λ np k' h'. grind (arith, create_grow-D)

  fork_start-D : (cur np : ℕ) (k : Kernel M) → IsOpen k → Disciplined (fork_start ops cur np k)
  unfolding fork_start acquire release
  fork_start-D cur np k h = ground arith

  dup_file-D : (cur np i : ℕ) (k : Kernel M) → IsOpen k → Disciplined (dup_file ops cur np i k)
  unfolding dup_file
  dup_file-D cur np i k h = ground arith

  pub fork_files-D : (cur np : ℕ) (k : Kernel M) → IsOpen k → Disciplined (fork_files ops cur np k)
  unfolding fork_files idup
  fork_files-D cur np k h =
      then_open _ _
        (for_cmd-Ends IsOpen IsLocked (dup_file ops cur np) (dup_file-D cur np) nofile 0 k h)
        λ _ k' h'. ground arith

  fork_finish-D : (cur np : ℕ) (k : Kernel M) → IsOpen k → Disciplined (fork_finish ops cur np k)
  unfolding fork_finish copy_proc
  fork_finish-D cur np k h =
      then_open _ _ (fork_files-D cur np (copy_proc cur np k) (ground arith))
        λ _ k' h'. fork_start-D cur np k' h'

  fork_space-D :
      (cur np mem : ℕ) (k : Kernel M) → IsOpen k → Disciplined (fork_space ops cur np mem k)
  unfolding fork_space
  fork_space-D cur np mem k h = grind (arith, fork_finish-D)

  fork_from-D : (cur np : ℕ) (k : Kernel M) → IsOpen k → Disciplined (fork_from ops cur np k)
  unfolding fork_from kalloc
  fork_from-D cur np k h = grind (arith, fork_space-D)

  pub fork-Disciplined : (cur : ℕ) (k : Kernel M) → IsOpen k → Disciplined (fork ops cur k)
  unfolding fork
  fork-Disciplined cur k h =
      then_open (allocproc ops k) _ (allocproc-Disciplined k h)
        λ np k' h'. grind (arith, fork_from-D)

  pub close_file-D : (cur i : ℕ) (k : Kernel M) → IsOpen k → Disciplined (close_file ops cur i k)
  unfolding close_file
  close_file-D cur i k h = ground arith

-- ===== src/Proc/Pids/Unique.antt =====
-- Every call, at the level of the whole table: process identifiers stay unique.
use os_project03_thread.Common.{
  ℕ, ◌+◌, ◌^◌, ◌<◌, inl, inr, refl, ◌==◌, if◌then◌else◌, Option-cases, Option, some, none,
}
use os_project03_thread.Kernel.State.{Kernel, null}
use os_project03_thread.Kernel.Ops.{Ops}
use os_project03_thread.Kernel.Run.{Cmd, and_then, IsOpen, IsLocked, entered, acquire-entered}
use os_project03_thread.Kernel.Ends.{and_also, bind, when-Ends}
use os_project03_thread.Proc.Alloc.{claim, allocproc, find_unused}
use os_project03_thread.Proc.Alloc.Laws.{allocproc-none, allocproc-some, claimed}
use os_project03_thread.Proc.Sleep.{yield_resume}
use os_project03_thread.Proc.Kill.{sys_kill}
use os_project03_thread.Proc.Fork.{fork}
use os_project03_thread.Proc.Thread.{thread_create}
use os_project03_thread.Proc.System.{
  Call, call_fork, call_exit, call_wait, resume_wait, call_kill, call_sys_kill, call_growproc,
  call_yield, resume_yield, call_thread_create, call_thread_exit, call_thread_join, resume_join,
  perform, resumes,
}
use os_project03_thread.Proc.Locking.Calls.{allocproc-Disciplined}
use os_project03_thread.Proc.Pids.Rules.{
  HasPids, PidsEnd, PidsEnd-Keeps, then-Kept, claim-HasPids, release-Keeps,
}
use os_project03_thread.Proc.Pids.Calls.{
  alloc_stack-K, create_grow-K, fork_from-K, exit-K, wait-K, wait_resume-K, growproc-K, kill-K,
  sys_kill-K, yield-K, thread_exit-K, thread_join-K, join_resume-K,
}

module _ {M : Type 0} (ops : Ops M) where
  allocproc-PidsEnd :
      (k : Kernel M) → IsOpen k → k.next_pid + 1 < 2 ^ 32 → HasPids k → PidsEnd (allocproc ops k)
  unfolding claim
  allocproc-PidsEnd k o small h = elim (Option-cases (find_unused k.proc)) [
    | inl e ↦ rw (allocproc-none ops k o e) h
    | inr (p, e) ↦
        let k' = claimed ops p k in
        rw (allocproc-some ops k p o e) (
          PidsEnd-Keeps k' _ (claim-HasPids p (entered k) small h)
            λ q. alloc_stack-K ops q k'.next_pid (k'.proc q).pid p k' (refl, inl refl))
  ]

  -- A call that begins with allocproc: what follows keeps the identifiers.
  after_allocproc :
      (f : ℕ → Cmd M (Option ℕ)) (k : Kernel M)
      → IsOpen k
      → k.next_pid + 1 < 2 ^ 32
      → HasPids k
      → ((np : ℕ) (k' : Kernel M) → IsOpen k' → HasPids k' → PidsEnd (f np k'))
      → PidsEnd (and_then (allocproc ops k) f)
  after_allocproc f k o small h next =
      bind (λ _ k'. IsOpen k' × HasPids k') HasPids (λ _. HasPids) (allocproc ops k) f
        (and_also (λ _. IsOpen) (λ _. HasPids) IsLocked HasPids (allocproc ops k)
          (allocproc-Disciplined ops k o) (allocproc-PidsEnd k o small h))
        λ np k' g. next np k' g.0 g.1

  fork-PidsEnd :
      (cur : ℕ) (k : Kernel M)
      → IsOpen k
      → k.next_pid + 1 < 2 ^ 32
      → HasPids k
      → PidsEnd (fork ops cur k)
  unfolding fork
  fork-PidsEnd cur k o small h = after_allocproc _ k o small h λ np k' o' h'.
      when-Ends (λ _. HasPids) HasPids (np == null) _ _ k' h'
        (PidsEnd-Keeps k' _ h'
          λ q. fork_from-K ops q k'.next_pid (k'.proc q).pid cur np k' o' (refl, inl refl))

  thread_create-PidsEnd :
      (cur start arg : ℕ) (k : Kernel M)
      → IsOpen k
      → k.next_pid + 1 < 2 ^ 32
      → HasPids k
      → PidsEnd (thread_create ops cur start arg k)
  unfolding thread_create
  thread_create-PidsEnd cur start arg k o small h = after_allocproc _ k o small h λ np k' o' h'.
      when-Ends (λ _. HasPids) HasPids (np == null) _ _ k' h'
        (PidsEnd-Keeps k' _ h' λ q.
          create_grow-K ops q k'.next_pid (k'.proc q).pid cur np start arg k' o' (refl, inl refl))

  -- Every call, entered with the lock as it expects it and with a next identifier that will not wrap
  -- around, ends with the nonzero process identifiers pairwise different and below the next one, if
  -- they were so before, or panics.
  pub perform-HasPids :
      (cur : ℕ) (c : Call) (k : Kernel M)
      → (if resumes c then IsLocked k else IsOpen k)
      → k.next_pid + 1 < 2 ^ 32
      → HasPids k
      → PidsEnd (perform ops cur c k)
  unfolding perform yield_resume sys_kill
  perform-HasPids cur call_fork k o small h = fork-PidsEnd cur k o small h
  perform-HasPids cur (call_thread_create start arg) k o small h =
      thread_create-PidsEnd cur start arg k o small h
  perform-HasPids cur call_exit k o small h =
      PidsEnd-Keeps k _ h λ p. exit-K ops p _ _ cur k o (refl, inl refl)
  perform-HasPids cur call_wait k o small h =
      PidsEnd-Keeps k _ h λ p. wait-K ops p _ _ cur k o (refl, inl refl)
  perform-HasPids cur resume_wait k o small h =
      PidsEnd-Keeps k _ h λ p. wait_resume-K ops p _ _ cur k (refl, inl refl)
  perform-HasPids cur (call_kill pid) k o small h =
      PidsEnd-Keeps k _ h
        λ p. then-Kept p _ _ _ _ (kill-K ops p _ _ pid k o (refl, inl refl)) (λ _ k' h'. h')
  perform-HasPids cur (call_growproc n) k o small h =
      PidsEnd-Keeps k _ h
        λ p. then-Kept p _ _ _ _ (growproc-K ops p _ _ cur n k o (refl, inl refl)) (λ _ k' h'. h')
  perform-HasPids cur (call_sys_kill none) k o small h = rw (acquire-entered k o) h
  perform-HasPids cur (call_sys_kill (some pid)) k o small h =
      PidsEnd-Keeps k _ h
        λ p. then-Kept p _ _ _ _ (sys_kill-K ops p _ _ pid k o (refl, inl refl)) (λ _ k' h'. h')
  perform-HasPids cur call_yield k o small h =
      PidsEnd-Keeps k _ h λ p. yield-K ops p _ _ cur k o (refl, inl refl)
  perform-HasPids cur resume_yield k o small h =
      PidsEnd-Keeps k _ h
        λ p. then-Kept p _ _ _ _ (release-Keeps p _ _ k (refl, inl refl)) (λ _ k' h'. h')
  perform-HasPids cur (call_thread_exit retval) k o small h =
      PidsEnd-Keeps k _ h λ p. thread_exit-K ops p _ _ cur retval k o (refl, inl refl)
  perform-HasPids cur (call_thread_join tid) k o small h =
      PidsEnd-Keeps k _ h λ p. thread_join-K ops p _ _ cur tid k o (refl, inl refl)
  perform-HasPids cur (resume_join tid) k o small h =
      PidsEnd-Keeps k _ h λ p. join_resume-K ops p _ _ cur tid k (refl, inl refl)

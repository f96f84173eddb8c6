-- ===== src/Proc/Pids/Calls.antt =====
-- Each call of proc.c and sysproc.c keeps or clears the identifier of an entry; allocproc alone
-- gives out a new one.
use os_project03_thread.Common.{
  ℕ, inl, inr, arith, ◌==◌, Bool-cases, Option-cases, Option, some, true, false, ◌&&◌, ltb,
}
use os_project03_thread.Kernel.State.{Kernel, nproc, nofile, max_threads, runnable}
use os_project03_thread.Kernel.Ops.{Ops}
use os_project03_thread.Kernel.Run.{
  Run, Cmd, and_then, acquire, release, ◌>>◌, pure, set_proc, IsOpen, IsLocked, acquire-entered,
  entered,
}
use os_project03_thread.Kernel.Ends.{and_also, bind, called-Ends, for_cmd-Ends}
use os_project03_thread.Proc.Alloc.{growproc, switchuvm, alloc_stack, kalloc, init_stack}
use os_project03_thread.Proc.Sleep.{sleep_resume, yield}
use os_project03_thread.Proc.Fork.{
  fork_from, fork_space, fork_finish, fork_files, fork_start, dup_file, idup, copy_proc,
}
use os_project03_thread.Proc.Exit.{
  exit, exit_table, exit_locked, exit_cwd, close_file, wait, wait_pass, wait_end, wait_resume,
  reap_round, Scan, reaps, havekids, wait_scan,
}
use os_project03_thread.Proc.Kill.{kill, sys_kill, find_pid}
use os_project03_thread.Proc.Thread.{
  create_grow, create_start, create_fails, launch, enlist, join_group, thread_exit, exit_thread,
  thread_join, join_pass, join_resume, find_joinable,
}
use os_project03_thread.Proc.Locking.Rules.{Disciplined}
use os_project03_thread.Proc.Locking.Calls.{fork_files-D, close_file-D}
use os_project03_thread.Proc.Locking.Ending.{
  exit_cwd-D, asks_size, asks_size-Ends, takes_size, sized,
}
use os_project03_thread.Proc.Pids.Rules.{
  Kept, Keeps, then-Kept, kill_sharers-Kept, kill_loop-Kept, exit_table-Kept, exit_thread-Kept,
  sched-Keeps, sleep-Keeps, release-Keeps,
}

module _ {M : Type 0} (ops : Ops M) (p n v : ℕ) where
  pub alloc_stack-K : (q : ℕ) (k : Kernel M) → Kept p n v k → Keeps p n v (alloc_stack ops q k)
  unfolding alloc_stack kalloc init_stack
  alloc_stack-K q k h = ground arith

  create_fails-K : (np : ℕ) (k : Kernel M) → Kept p n v k → Keeps p n v (create_fails ops np k)
  unfolding create_fails release
  create_fails-K np k h = ground arith

  create_start-K :
      (np start arg sz : ℕ) (k : Kernel M)
      → Kept p n v k
      → Keeps p n v (create_start ops np start arg sz k)
  unfolding create_start create_fails launch enlist release
  create_start-K np start arg sz k h = ground arith

  pub create_grow-K :
      (cur np start arg : ℕ) (k : Kernel M)
      → IsOpen k
      → Kept p n v k
      → Keeps p n v (create_grow ops cur np start arg k)
  unfolding create_grow join_group
  create_grow-K cur np start arg k o h =
      rw (acquire-entered k o) (grind (arith, create_start-K, create_fails-K))

  fork_start-K :
      (cur np : ℕ) (k : Kernel M) → IsOpen k → Kept p n v k → Keeps p n v (fork_start ops cur np k)
  unfolding fork_start acquire release
  fork_start-K cur np k o h = ground arith

  dup_file-K : (cur np i : ℕ) (k : Kernel M) → Kept p n v k → Keeps p n v (dup_file ops cur np i k)
  unfolding dup_file
  dup_file-K cur np i k h = ground arith

  pub fork_files-K :
      (cur np : ℕ) (k : Kernel M) → Kept p n v k → Keeps p n v (fork_files ops cur np k)
  unfolding fork_files idup
  fork_files-K cur np k h =
      then-Kept p n v _ _
        (for_cmd-Ends (Kept p n v) (Kept p n v) (dup_file ops cur np) (dup_file-K cur np) nofile 0 k
          h)
        λ _ k' h'. ground arith

  -- One part of a call that returns with the lock free, and the next.
  open-Kept :
      {A B : Type 0} (r : Run M A) (f : A → Cmd M B)
      → Disciplined r
      → Keeps p n v r
      → ((a : A) (k : Kernel M) → IsOpen k → Kept p n v k → Keeps p n v (f a k))
      → Keeps p n v (and_then r f)
  open-Kept r f d h next =
      bind (λ _ k. IsOpen k × Kept p n v k) (Kept p n v) (λ _. Kept p n v) r f
        (and_also (λ _. IsOpen) (λ _. Kept p n v) IsLocked (Kept p n v) r d h)
        λ a k g. next a k g.0 g.1

  fork_finish-K :
      (cur np : ℕ) (k : Kernel M) → IsOpen k → Kept p n v k → Keeps p n v (fork_finish ops cur np k)
  unfolding fork_finish copy_proc
  fork_finish-K cur np k o h =
      open-Kept _ _ (fork_files-D ops cur np (copy_proc cur np k) (ground arith))
        (fork_files-K cur np (copy_proc cur np k) (ground arith))
        λ _ k' o' h'. fork_start-K cur np k' o' h'

  fork_space-K :
      (cur np mem : ℕ) (k : Kernel M)
      → IsOpen k
      → Kept p n v k
      → Keeps p n v (fork_space ops cur np mem k)
  unfolding fork_space
  fork_space-K cur np mem k o h = grind (arith, fork_finish-K)

  pub fork_from-K :
      (cur np : ℕ) (k : Kernel M) → IsOpen k → Kept p n v k → Keeps p n v (fork_from ops cur np k)
  unfolding fork_from kalloc
  fork_from-K cur np k o h = grind (arith, fork_space-K)

  close_file-K : (cur i : ℕ) (k : Kernel M) → Kept p n v k → Keeps p n v (close_file ops cur i k)
  unfolding close_file
  close_file-K cur i k h = ground arith

  exit_cwd-K : (cur : ℕ) (k : Kernel M) → Kept p n v k → Keeps p n v (exit_cwd ops cur k)
  unfolding exit_cwd
  exit_cwd-K cur k h = ground arith

  exit_locked-K :
      (cur : ℕ) (k : Kernel M)
      → IsOpen k
      → Kept p n v k
      → Keeps p n v (exit_locked {A = Option ℕ} cur k)
  unfolding exit_locked
  exit_locked-K cur k o h = rw (acquire-entered k o) (
      sched-Keeps p n v (Option ℕ) cur (exit_table cur (entered k))
        (exit_table-Kept p n v cur (entered k) h))

  pub exit-K :
      (cur : ℕ) (k : Kernel M)
      → IsOpen k
      → Kept p n v k
      → Keeps p n v (exit ops {A = Option ℕ} cur k)
  unfolding exit
  exit-K cur k o h = elim (Bool-cases (cur == k.initproc)) [
    | inl e ↦ rw e tt
    | inr e ↦ rw e (
        open-Kept _ _
          (for_cmd-Ends IsOpen IsLocked (close_file ops cur) (close_file-D ops cur) nofile 0 k o)
          (for_cmd-Ends (Kept p n v) (Kept p n v) (close_file ops cur) (close_file-K cur) nofile 0 k
            h)
          λ _ k' o' h'.
            open-Kept _ _ (exit_cwd-D ops cur k' o') (exit_cwd-K cur k' h')
              λ _ k'' o'' h''. exit_locked-K cur k'' o'' h'')
  ]

  reap_round-K : (q i : ℕ) (k : Kernel M) → Kept p n v k → Keeps p n v (reap_round ops q i k)
  unfolding reap_round
  reap_round-K q i k h = ground arith

  wait_end-K :
      (cur : ℕ) (s : Scan) (k : Kernel M) → Kept p n v k → Keeps p n v (wait_end ops cur s k)
  unfolding wait_end release
  wait_end-K cur (reaps q) k h =
      then-Kept p n v _ _
        (for_cmd-Ends (Kept p n v) (Kept p n v) (reap_round ops q) (reap_round-K q) max_threads 0 k
          h)
        λ _ k' h'. ground arith
  wait_end-K cur (havekids kids) k h = ground (arith, sleep-Keeps p n v (Option ℕ) cur cur k h)

  wait_pass-K : (cur : ℕ) (k : Kernel M) → Kept p n v k → Keeps p n v (wait_pass ops cur k)
  unfolding wait_pass
  wait_pass-K cur k h = wait_end-K cur (wait_scan k.proc cur nproc 1 false) k h

  pub wait-K : (cur : ℕ) (k : Kernel M) → IsOpen k → Kept p n v k → Keeps p n v (wait ops cur k)
  unfolding wait
  wait-K cur k o h = rw (acquire-entered k o) (wait_pass-K cur (entered k) h)

  pub wait_resume-K : (cur : ℕ) (k : Kernel M) → Kept p n v k → Keeps p n v (wait_resume ops cur k)
  unfolding wait_resume sleep_resume
  wait_resume-K cur k h = wait_pass-K cur (sleep_resume cur k) (ground arith)

  pub kill-K : (pid : ℕ) (k : Kernel M) → IsOpen k → Kept p n v k → Keeps p n v (kill pid k)
  unfolding kill release
  kill-K pid k o h = elim (Option-cases (find_pid k.proc pid)) [
    | inl e ↦ rw (acquire-entered k o, e) (ground arith)
    | inr (q, e) ↦ rw (acquire-entered k o, e) (ground (arith, kill_loop-Kept p n v q (entered k)))
  ]

  switchuvm-K : (q : ℕ) (k : Kernel M) → Kept p n v k → Keeps p n v (switchuvm ops q k)
  unfolding switchuvm
  switchuvm-K q k h = called-Ends (Kept p n v) (Kept p n v) _ k (λ m. h)

  takes_size-K :
      (cur amount sz : ℕ) (k k₁ : Kernel M)
      → Kept p n v k₁
      → Keeps p n v (takes_size ops cur amount k sz k₁)
  takes_size-K cur amount sz k k₁ g = elim (Bool-cases ((sz == 0) && ltb 0 amount)) [
    | inl e ↦ rw e g
    | inr e ↦ rw e (
        bind (λ _. Kept p n v) (Kept p n v) (λ _. Kept p n v)
          (switchuvm ops cur (sized ops cur k sz k₁)) (λ _. release >> pure true)
          (switchuvm-K cur (sized ops cur k sz k₁) g)
          (λ _ k₂ g₂. then-Kept p n v _ _ (release-Keeps p n v k₂ g₂) (λ _ k₃ g₃. g₃)))
  ]

  pub growproc-K :
      (cur amount : ℕ) (k : Kernel M)
      → IsOpen k
      → Kept p n v k
      → Keeps p n v (growproc ops cur amount k)
  unfolding growproc
  growproc-K cur amount k o h = rw (acquire-entered k o) (
      bind (λ _. Kept p n v) (Kept p n v) (λ _. Kept p n v) (asks_size ops cur amount k (entered k))
        (takes_size ops cur amount k)
        (asks_size-Ends ops (Kept p n v) cur amount k (entered k) h (λ m. h))
        (λ sz k₁ g. takes_size-K cur amount sz k k₁ g))

  pub sys_kill-K :
      (pid : ℕ) (k : Kernel M) → IsOpen k → Kept p n v k → Keeps p n v (sys_kill (some pid) k)
  unfolding sys_kill release
  sys_kill-K pid k o h = elim (Option-cases (find_pid k.proc pid)) [
    | inl e ↦ rw (acquire-entered k o, e) (ground arith)
    | inr (q, e) ↦
        rw (acquire-entered k o, e)
          (ground (arith, kill_sharers-Kept p n v ((entered k).proc q).share_ptr (entered k)))
  ]

  pub yield-K :
      (cur : ℕ) (k : Kernel M) → IsOpen k → Kept p n v k → Keeps p n v (yield {A = Option ℕ} cur k)
  unfolding yield
  yield-K cur k o h = rw (acquire-entered k o) (
      sched-Keeps p n v (Option ℕ) cur
        (set_proc cur (λ r. record r { state = runnable }) (entered k)) (ground arith))

  pub thread_exit-K :
      (cur retval : ℕ) (k : Kernel M)
      → IsOpen k
      → Kept p n v k
      → Keeps p n v (thread_exit {A = Option ℕ} cur retval k)
  unfolding thread_exit
  thread_exit-K cur retval k o h = rw (acquire-entered k o) (
      sched-Keeps p n v (Option ℕ) cur (exit_thread cur retval (entered k))
        (exit_thread-Kept p n v cur retval (entered k) h))

  join_pass-K : (cur tid : ℕ) (k : Kernel M) → Kept p n v k → Keeps p n v (join_pass ops cur tid k)
  unfolding join_pass release
  join_pass-K cur tid k h = elim (Option-cases (find_joinable k.proc cur tid)) [
    | inl e ↦ rw e (sleep-Keeps p n v (Option ℕ) cur cur k h)
    | inr (q, e) ↦ rw e (ground arith)
  ]

  pub thread_join-K :
      (cur tid : ℕ) (k : Kernel M)
      → IsOpen k
      → Kept p n v k
      → Keeps p n v (thread_join ops cur tid k)
  unfolding thread_join
  thread_join-K cur tid k o h = elim (Bool-cases ((k.proc cur).im_master == 1)) [
    | inl e ↦ rw (e, acquire-entered k o) (join_pass-K cur tid (entered k) h)
    | inr e ↦ rw e h
  ]

  pub join_resume-K :
      (cur tid : ℕ) (k : Kernel M) → Kept p n v k → Keeps p n v (join_resume ops cur tid k)
  unfolding join_resume sleep_resume release
  join_resume-K cur tid k h = ground (arith, join_pass-K cur tid (sleep_resume cur k))

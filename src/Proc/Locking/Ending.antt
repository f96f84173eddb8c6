-- ===== src/Proc/Locking/Ending.antt =====
-- exit, wait, kill and the thread calls under the rules for the lock, and all calls together.
use os_project03_thread.Common.{
  true, Bool, ◌+◌, ◌%◌, ◌^◌, ◌&&◌, ltb, leb, none, ◌≡◌, ◌⊎◌, refl, ap, ℕ, false, Option, some, ◌==◌,
  arith, inl, inr, Option-cases, Bool-cases, if◌then◌else◌,
}
use os_project03_thread.Kernel.State.{Kernel, runnable, nofile, max_threads, nproc}
use os_project03_thread.Kernel.Ops.{Ops}
use os_project03_thread.Kernel.Run.{
  Cmd, when, modify, ask_env, ◌>>◌, pure, set_proc, set_shared, IsOpen, IsLocked, acquire-entered,
  entered-IsLocked, release-left, left-IsOpen, entered, release,
}
use os_project03_thread.Kernel.Ends.{Ends, bind, asked-Ends, called-Ends, for_cmd-Ends}
use os_project03_thread.Proc.Sleep.{yield, yield_resume, sleep_resume}
use os_project03_thread.Proc.Exit.{
  exit, exit_table, exit_locked, exit_cwd, close_file, wait, wait_pass, wait_end, wait_resume,
  reap_round, Scan, reaps, havekids, wait_scan,
}
use os_project03_thread.Proc.Alloc.{growproc, switchuvm}
use os_project03_thread.Proc.Kill.Laws.{sys_kill_keeps_lock}
use os_project03_thread.Proc.Kill.{kill, sys_kill, find_pid, kill_sharers}
use os_project03_thread.Proc.Thread.{
  thread_exit, exit_thread, thread_join, join_pass, join_resume, find_joinable,
}
use os_project03_thread.Proc.System.{
  Call, call_growproc, call_fork, call_exit, call_wait, resume_wait, call_kill, call_sys_kill,
  call_yield, resume_yield, call_thread_create, call_thread_exit, call_thread_join, resume_join,
  perform, resumes, leaks, as_zero,
}
use os_project03_thread.Proc.Locking.Rules.{
  then_open, then_locked, Disciplined, Inside, release-Disciplined, sched-Disciplined,
  sleep-Disciplined,
}
use os_project03_thread.Proc.Locking.Table.{
  kill_loop-IsLocked, exit_table-IsLocked, exit_table-stops, exit_thread-IsLocked,
  exit_thread-stops,
}
use os_project03_thread.Proc.Locking.Calls.{
  fork-Disciplined, thread_create-Disciplined, close_file-D,
}

module _ {M : Type 0} (ops : Ops M) where
  exit_locked-D :
      (cur : ℕ) (k : Kernel M) → IsOpen k → Disciplined (exit_locked {A = Option ℕ} cur k)
  unfolding exit_locked
  exit_locked-D cur k h = rw (acquire-entered k h) (
      sched-Disciplined (Option ℕ) cur (exit_table cur (entered k))
        (exit_table-IsLocked cur (entered k) (entered-IsLocked k h))
        (exit_table-stops cur (entered k)))

  pub exit_cwd-D : (cur : ℕ) (k : Kernel M) → IsOpen k → Disciplined (exit_cwd ops cur k)
  unfolding exit_cwd
  exit_cwd-D cur k h = ground arith

  exit-Disciplined :
      (cur : ℕ) (k : Kernel M) → IsOpen k → Disciplined (exit ops {A = Option ℕ} cur k)
  unfolding exit
  exit-Disciplined cur k h = elim (Bool-cases (cur == k.initproc)) [
    | inl e ↦ rw e tt
    | inr e ↦ rw e (
        then_open _ _
          (for_cmd-Ends IsOpen IsLocked (close_file ops cur) (close_file-D ops cur) nofile 0 k h)
          λ _ k' h'. then_open _ _ (exit_cwd-D cur k' h') λ _ k'' h''. exit_locked-D cur k'' h'')
  ]

  reap_round-D : (p i : ℕ) (k : Kernel M) → IsLocked k → Inside (reap_round ops p i k)
  unfolding reap_round
  reap_round-D p i k h = ground arith

  wait_end-D : (cur : ℕ) (s : Scan) (k : Kernel M) → IsLocked k → Disciplined (wait_end ops cur s k)
  unfolding wait_end release
  wait_end-D cur (reaps p) k h =
      then_locked _ _
        (for_cmd-Ends IsLocked IsLocked (reap_round ops p) (reap_round-D p) max_threads 0 k h)
        λ _ k' h'. ground arith
  wait_end-D cur (havekids kids) k h = ground (arith, sleep-Disciplined (Option ℕ) cur cur k h)

  wait_pass-D : (cur : ℕ) (k : Kernel M) → IsLocked k → Disciplined (wait_pass ops cur k)
  unfolding wait_pass
  wait_pass-D cur k h = wait_end-D cur (wait_scan k.proc cur nproc 1 false) k h

  wait-Disciplined : (cur : ℕ) (k : Kernel M) → IsOpen k → Disciplined (wait ops cur k)
  unfolding wait
  wait-Disciplined cur k h =
      rw (acquire-entered k h) (wait_pass-D cur (entered k) (entered-IsLocked k h))

  wait_resume-Disciplined :
      (cur : ℕ) (k : Kernel M) → IsLocked k → Disciplined (wait_resume ops cur k)
  unfolding wait_resume sleep_resume
  wait_resume-Disciplined cur k h = wait_pass-D cur (sleep_resume cur k) (ground arith)

  kill-Disciplined : (pid : ℕ) (k : Kernel M) → IsOpen k → Disciplined (kill pid k)
  unfolding kill
  kill-Disciplined pid k h = elim (Option-cases (find_pid k.proc pid)) [
    | inl e ↦
        rw (acquire-entered k h, e, release-left (entered k) (entered-IsLocked k h)) (ground arith)
    | inr (p, e) ↦
        let locked = kill_loop-IsLocked p (entered k) (entered-IsLocked k h) in
        rw (acquire-entered k h, e, release-left _ locked) (ground arith)
  ]

  sys_kill-Disciplined : (pid : ℕ) (k : Kernel M) → IsOpen k → Disciplined (sys_kill (some pid) k)
  unfolding sys_kill kill_sharers
  sys_kill-Disciplined pid k h = elim (Option-cases (find_pid k.proc pid)) [
    | inl e ↦
        rw (acquire-entered k h, e, release-left (entered k) (entered-IsLocked k h)) (ground arith)
    | inr (p, e) ↦
        let k' = kill_sharers ((entered k).proc p).share_ptr (entered k) in
        rw (acquire-entered k h, e, release-left k' (ground arith)) (ground arith)
  ]

  yield-Disciplined : (cur : ℕ) (k : Kernel M) → IsOpen k → Disciplined (yield {A = Option ℕ} cur k)
  unfolding yield
  yield-Disciplined cur k h = rw (acquire-entered k h) (
      sched-Disciplined (Option ℕ) cur
        (set_proc cur (λ p. record p { state = runnable }) (entered k)) (ground arith)
        (ground arith))

  thread_exit-Disciplined :
      (cur retval : ℕ) (k : Kernel M)
      → IsOpen k
      → Disciplined (thread_exit {A = Option ℕ} cur retval k)
  unfolding thread_exit
  thread_exit-Disciplined cur retval k h = rw (acquire-entered k h) (
      sched-Disciplined (Option ℕ) cur (exit_thread cur retval (entered k))
        (exit_thread-IsLocked cur retval (entered k) (entered-IsLocked k h))
        (exit_thread-stops cur retval (entered k)))

  join_pass-D : (cur tid : ℕ) (k : Kernel M) → IsLocked k → Disciplined (join_pass ops cur tid k)
  unfolding join_pass release
  join_pass-D cur tid k h = elim (Option-cases (find_joinable k.proc cur tid)) [
    | inl e ↦ rw e (sleep-Disciplined (Option ℕ) cur cur k h)
    | inr (p, e) ↦ rw e (ground arith)
  ]

  thread_join-Disciplined :
      (cur tid : ℕ) (k : Kernel M) → IsOpen k → Disciplined (thread_join ops cur tid k)
  unfolding thread_join
  thread_join-Disciplined cur tid k h = elim (Bool-cases ((k.proc cur).im_master == 1)) [
    | inl e ↦ rw (e, acquire-entered k h) (join_pass-D cur tid (entered k) (entered-IsLocked k h))
    | inr e ↦ rw e h
  ]

  join_resume-Disciplined :
      (cur tid : ℕ) (k : Kernel M) → IsLocked k → Disciplined (join_resume ops cur tid k)
  unfolding join_resume sleep_resume release
  join_resume-Disciplined cur tid k h = ground (arith, join_pass-D cur tid (sleep_resume cur k))

  yield_resume-Disciplined : (k : Kernel M) → IsLocked k → Disciplined (yield_resume k)
  unfolding yield_resume
  yield_resume-Disciplined k h = release-Disciplined k h

  -- Where the lock is when a call has returned: free, but for the two calls that may leave it held.
  abbrev pub Leaving : Call → Option ℕ → Kernel M → Type 0
  Leaving c r k = if leaks c then IsOpen k ⊎ ((r ≡ none) × IsLocked k) else IsOpen k

  switchuvm-D : (cur : ℕ) (k : Kernel M) → IsLocked k → Inside (switchuvm ops cur k)
  unfolding switchuvm
  switchuvm-D cur k h = called-Ends IsLocked IsLocked _ k (λ m. ground arith)

  -- The two parts of growproc: what it asks of vm.c, and what it does with the answer.
  abbrev pub asks_size : ℕ → ℕ → Kernel M → Cmd M ℕ
  asks_size cur n k =
      let sh = k.shared (k.proc cur).share_ptr in
      when (ltb 0 n && ltb n (2 ^ 31))
        (ask_env (ops.allocuvm sh.pgdir sh.sz ((sh.sz + n) % 2 ^ 32)))
        (when (leb (2 ^ 31) n) (ask_env (ops.deallocuvm sh.pgdir sh.sz ((sh.sz + n) % 2 ^ 32)))
          (pure sh.sz))

  abbrev pub sized : ℕ → Kernel M → ℕ → Kernel M → Kernel M
  sized cur k sz = set_shared (k.proc cur).share_ptr (λ s. record s { sz = sz })

  abbrev pub takes_size : ℕ → ℕ → Kernel M → ℕ → Cmd M Bool
  takes_size cur n k sz =
      when ((sz == 0) && ltb 0 n) (pure false)
        (modify (sized cur k sz) >> (switchuvm ops cur >> (release >> pure true)))

  pub asks_size-Ends :
      (P : Kernel M → Type 0) (cur n : ℕ) (k k₁ : Kernel M)
      → P k₁
      → ((m : M) → P (record k₁ { env = m }))
      → Ends (λ _. P) P (asks_size cur n k k₁)
  asks_size-Ends P cur n k k₁ h each = elim (Bool-cases (ltb 0 n && ltb n (2 ^ 31))) [
    | inl e ↦ rw e (asked-Ends P P _ k₁ each)
    | inr e ↦ elim (Bool-cases (leb (2 ^ 31) n)) [
      | inl f ↦ rw (e, f) (asked-Ends P P _ k₁ each)
      | inr f ↦ rw (e, f) h
    ]
  ]

  takes_size-Leaving :
      (cur n sz : ℕ) (k k₁ : Kernel M)
      → IsLocked k₁
      → Ends (λ r k'. IsOpen k' ⊎ ((r ≡ false) × IsLocked k')) IsLocked (takes_size cur n k sz k₁)
  takes_size-Leaving cur n sz k k₁ g = elim (Bool-cases ((sz == 0) && ltb 0 n)) [
    | inl e ↦ rw e (inr (refl, g))
    | inr e ↦ rw e (
        bind (λ _. IsLocked) IsLocked (λ r k'. IsOpen k' ⊎ ((r ≡ false) × IsLocked k'))
          (switchuvm ops cur (sized cur k sz k₁)) (λ _. release >> pure true)
          (switchuvm-D cur (sized cur k sz k₁) (ground arith))
          (λ _ k₂ g₂. rw (release-left k₂ g₂) (inl (left-IsOpen k₂))))
  ]

  growproc-Leaving :
      (cur n : ℕ) (k : Kernel M)
      → IsOpen k
      → Ends (λ r k'. IsOpen k' ⊎ ((r ≡ false) × IsLocked k')) IsLocked (growproc ops cur n k)
  unfolding growproc
  growproc-Leaving cur n k h = rw (acquire-entered k h) (
      bind (λ _. IsLocked) IsLocked (λ r k'. IsOpen k' ⊎ ((r ≡ false) × IsLocked k'))
        (asks_size cur n k (entered k)) (takes_size cur n k)
        (asks_size-Ends (λ k'. IsLocked k') cur n k (entered k) (entered-IsLocked k h)
          (λ m. ground arith))
        (λ sz k₁ g. takes_size-Leaving cur n sz k k₁ g))

  -- Every call, entered with the lock free (or come back into with the lock held), returns with the
  -- lock free, leaves the CPU with the lock held at depth one and interrupts off, or panics; it never
  -- waits for the lock. The exceptions are growproc and a sys_kill whose argument cannot be fetched,
  -- which may also return -1 with the lock held. The calls are fork, exit, wait, kill, sys_kill,
  -- growproc, yield, thread_create, thread_exit and thread_join, and what runs of them when `sched`
  -- comes back.
  pub perform-Disciplined :
      (cur : ℕ) (c : Call) (k : Kernel M)
      → (if resumes c then IsLocked k else IsOpen k)
      → Ends (Leaving c) IsLocked (perform ops cur c k)
  unfolding perform
  perform-Disciplined cur call_fork k h = fork-Disciplined ops cur k h
  perform-Disciplined cur call_exit k h = exit-Disciplined cur k h
  perform-Disciplined cur call_wait k h = wait-Disciplined cur k h
  perform-Disciplined cur resume_wait k h = wait_resume-Disciplined cur k h
  perform-Disciplined cur (call_kill pid) k h =
      then_open _ _ (kill-Disciplined pid k h) (λ _ k' h'. h')
  perform-Disciplined cur (call_growproc n) k h =
      bind (λ r k'. IsOpen k' ⊎ ((r ≡ false) × IsLocked k')) IsLocked (Leaving (call_growproc n))
        (growproc ops cur n k) (λ r. pure (as_zero r)) (growproc-Leaving cur n k h)
        (λ r k' g. elim g [ inl o ↦ inl o | inr (e, locked) ↦ inr (ap as_zero e, locked) ])
  perform-Disciplined cur (call_sys_kill none) k h =
      let (k', e, locked) = sys_kill_keeps_lock k h in rw e (inr (refl, locked))
  perform-Disciplined cur (call_sys_kill (some pid)) k h =
      then_open _ _ (sys_kill-Disciplined pid k h) (λ _ k' h'. h')
  perform-Disciplined cur call_yield k h = yield-Disciplined cur k h
  perform-Disciplined cur resume_yield k h =
      then_open _ _ (yield_resume-Disciplined k h) (λ _ k' h'. h')
  perform-Disciplined cur (call_thread_create start arg) k h =
      thread_create-Disciplined ops cur start arg k h
  perform-Disciplined cur (call_thread_exit retval) k h = thread_exit-Disciplined cur retval k h
  perform-Disciplined cur (call_thread_join tid) k h = thread_join-Disciplined cur tid k h
  perform-Disciplined cur (resume_join tid) k h = join_resume-Disciplined cur tid k h

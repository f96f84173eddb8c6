-- ===== src/Proc/Exit.antt =====
-- proc.c: exit and wait.
pub mod Laws
pub mod Spared
pub mod Reap
pub mod Wait
use os_project03_thread.Common.{
  ℕ, zero, suc, ◌+◌, ◌-◌, ◌%◌, ◌^◌, Bool, false, Option, none, some, ◌&&◌, ◌||◌, not, ◌==◌,
  if◌then◌else◌, update, for_range,
}
use os_project03_thread.Kernel.State.{
  Kernel, Proc, unused, zombie, is_zombie, nproc, nofile, max_threads,
}
use os_project03_thread.Kernel.Ops.{Ops}
use os_project03_thread.Kernel.Run.{
  Cmd, ◌>>=◌, ◌>>◌, pure, panics, when, get, modify, call_env, set_proc, set_shared, for_cmd,
  acquire, release, sched,
}
use os_project03_thread.Proc.Sleep.{wakeup1, sleep, sleep_resume}

module _ {M : Type 0} where
  -- One round of `Pass abandoned children to init`.
  unfoldable pub pass_child : ℕ → ℕ → Kernel M → Kernel M
  pass_child cur p k =
      if (k.proc p).parent == cur
      then (let k' = set_proc p (λ r. record r { parent = k.initproc }) k in
          if is_zombie (k.proc p).state then wakeup1 k.initproc k' else k')
      else k

  -- One round of the loop over the threads of the process.
  unfoldable pub end_round : ℕ → ℕ → Kernel M → Kernel M
  end_round cur p k =
      if ((k.proc p).share_ptr == (k.proc cur).share_ptr) && not (p == cur)
      then set_proc p (λ r. record r { state = zombie }) k
      else k

  -- Everything that `exit` does to the table under the lock.
  unfoldable pub exit_table : ℕ → Kernel M → Kernel M
  exit_table cur k =
      let k₁ = wakeup1 (k.proc cur).parent k in
      let k₂ = for_range (pass_child cur) nproc 1 k₁ in
      let k₃ = for_range (end_round cur) nproc 1 k₂ in
      set_proc cur (λ p. record p { state = zombie }) k₃

  unfoldable pub exit_locked : {A : Type 0} → ℕ → Cmd M A
  exit_locked cur = do acquire; modify (exit_table cur); sched cur

module _ {M : Type 0} (ops : Ops M) where
  unfoldable pub close_file : ℕ → ℕ → Cmd M (Unit {0})
  close_file cur fd = do
    k ← get
    let a = (k.proc cur).share_ptr
    let f = (k.shared a).ofile fd
    when (f == 0) (pure tt) (do
      call_env (ops.fileclose f)
      modify (set_shared a (λ s. record s { ofile = update s.ofile fd 0 })))

  -- begin_op(), iput, end_op() and the cleared `cwd`
  unfoldable pub exit_cwd : ℕ → Cmd M (Unit {0})
  exit_cwd cur = do
    k ← get
    let a = (k.proc cur).share_ptr
    call_env (ops.iput (k.shared a).cwd)
    modify (set_shared a (λ s. record s { cwd = 0 }))

  -- Does not return: `sched` leaves for good.
  unfoldable pub exit : {A : Type 0} → ℕ → Cmd M A
  exit cur = do
    k ← get
    when (cur == k.initproc) panics
        (do for_cmd (close_file cur) nofile 0; exit_cwd cur; exit_locked cur)

-- What the scan of `wait` finds: a child to reap, or whether there are children at all.
pub data Scan : Type 0 where
  reaps : ℕ → Scan
  havekids : Bool → Scan

-- The loop over the table, from `p` on, with the flag so far.
unfoldable pub wait_scan : (ℕ → Proc) → ℕ → ℕ → ℕ → Bool → Scan
wait_scan t cur zero p kids = havekids kids
wait_scan t cur (suc n) p kids =
    let mine = (t p).parent == cur in
    let rest = wait_scan t cur n (p + 1) (kids || mine) in
    if mine && is_zombie (t p).state && ((t p).im_master == 1) then reaps p else rest

module _ {M : Type 0} (ops : Ops M) where
  -- One round of the loop that frees the threads of the child `p`.
  unfoldable pub reap_round : ℕ → ℕ → Cmd M (Unit {0})
  reap_round p i = do
    k ← get
    let q = (k.shared (k.proc p).share_ptr).threads i
    when (is_zombie (k.proc q).state && not ((k.proc q).pid == 0))
        (do
          when ((k.proc p).kstack == 0) (pure tt) (do
            call_env (ops.kfree (k.proc p).kstack)
            modify (set_proc p (λ r. record r { kstack = 0 })))
          modify (set_proc q (λ r. record r { kstack = 0 }))
          let sh = k.shared (k.proc q).share_ptr
          when (sh.num_of_thread == 1) (call_env (ops.freevm sh.pgdir)) (pure tt)
          modify (
              set_proc q (λ r. record r {
                pid = 0;
                parent = 0;
                name = update r.name 0 0;
                killed = 0;
                state = unused;
              }))
          modify (
              set_shared (k.proc p).share_ptr
                (λ s. record s { num_of_thread = (s.num_of_thread + 2 ^ 32 - 1) % 2 ^ 32 })))
        (pure tt)

  -- The end of a pass, by what the scan has found.
  unfoldable pub wait_end : ℕ → Scan → Cmd M (Option ℕ)
  wait_end cur (reaps p) = do
    k ← get
    for_cmd (reap_round p) max_threads 0
    release
    pure (some (k.proc p).pid)
  wait_end cur (havekids kids) = do
    k ← get
    when (not kids || not ((k.proc cur).killed == 0)) (do release; pure none) (sleep cur cur)

  -- One pass of the outer loop, with the lock held.
  unfoldable pub wait_pass : ℕ → Cmd M (Option ℕ)
  wait_pass cur = do k ← get; wait_end cur (wait_scan k.proc cur nproc 1 false)

  -- `none` is the return value -1.
  unfoldable pub wait : ℕ → Cmd M (Option ℕ)
  wait cur = do acquire; wait_pass cur

  -- What `wait` does when it is scheduled again.
  unfoldable pub wait_resume : ℕ → Cmd M (Option ℕ)
  wait_resume cur = do modify (sleep_resume cur); wait_pass cur

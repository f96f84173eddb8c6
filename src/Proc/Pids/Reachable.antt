-- ===== src/Proc/Pids/Reachable.antt =====
-- In every reachable kernel the lock is free or held by the book, and identifiers are unique; so a
-- kill hits one process.
use os_project03_thread.Common.{
  ℕ, ◌≤◌, ◌≡◌, ◌≢◌, ◌⊎◌, inl, inr, refl, arith, ◌==◌, some, Option, Bool-cases, Option-cases,
  find_from-some,
}
use os_project03_thread.Kernel.State.{Kernel, nproc}
use os_project03_thread.Kernel.Ops.{Ops}
use os_project03_thread.Kernel.Run.{
  IsOpen, IsLocked, entered, entered-IsLocked, acquire, release, acquire-entered, release-left,
  left-IsOpen,
}
use os_project03_thread.Kernel.Ends.{Ends}
use os_project03_thread.Proc.Alloc.{switchuvm}
use os_project03_thread.Proc.Sleep.{scheduler, next_runnable, wakeup, wakeup1}
use os_project03_thread.Proc.System.{Call, leaks}
use os_project03_thread.Proc.Kill.{find_pid}
use os_project03_thread.Proc.System.Reach.{
  Step, Reach, returns, leaves, starts, picks, wakes, others, here, next,
}
use os_project03_thread.Proc.Locking.Rules.{Disciplined, acquire-Inside}
use os_project03_thread.Proc.Locking.Ending.{Leaving, perform-Disciplined}
use os_project03_thread.Proc.Pids.Rules.{HasPids, PidsEnd, Kept, Keeps, PidsEnd-Keeps, wakeup1-Kept}
use os_project03_thread.Proc.Pids.Unique.{perform-HasPids}

-- The lock is free, or held by this CPU with interrupts off at depth one; and the identifiers.
pub record IsSound {M : Type 0} (k : Kernel M) : Type 0 where
  pub lock : IsOpen k ⊎ IsLocked k
  pub pids : HasPids k

wakeup1-IsLocked : {M : Type 0} (chan : ℕ) (k : Kernel M) → IsLocked k → IsLocked (wakeup1 chan k)
unfolding wakeup1
wakeup1-IsLocked chan k h = ground arith

module _ {M : Type 0} (ops : Ops M) where
  scheduler-Keeps :
      (p n v from : ℕ) (k : Kernel M) → Kept p n v k → Keeps p n v (scheduler ops from k)
  unfolding scheduler switchuvm release
  scheduler-Keeps p n v from k h = elim (Option-cases (next_runnable k.proc from)) [
    | inl e ↦ rw e (ground arith)
    | inr (q, e) ↦ rw e (ground arith)
  ]

  scheduler-lock :
      (from : ℕ) (k : Kernel M)
      → IsLocked k
      → Ends
          (λ _ k'. IsOpen k' ⊎ IsLocked k')
          (λ k'. IsOpen k' ⊎ IsLocked k')
          (scheduler ops from k)
  unfolding scheduler switchuvm
  scheduler-lock from k h = elim (Option-cases (next_runnable k.proc from)) [
    | inl e ↦ rw (e, release-left k h) (inl (left-IsOpen k))
    | inr (q, e) ↦ rw e (ground arith)
  ]

  acquire-PidsEnd : (k : Kernel M) → IsOpen k → HasPids k → PidsEnd (acquire k)
  acquire-PidsEnd k o h = rw (acquire-entered k o) h

  returns-lock :
      (c : Call) (r : Option ℕ) (k : Kernel M) → Leaving ops c r k → IsOpen k ⊎ IsLocked k
  returns-lock c r k h = elim (Bool-cases (leaks c)) [
    | inl e ↦ elim (rw e at h) [ inl o ↦ inl o | inr g ↦ inr g.1 ]
    | inr e ↦ inl (rw e at h)
  ]

  wakeup-lock : (chan : ℕ) (k : Kernel M) → IsOpen k → Disciplined (wakeup chan k)
  unfolding wakeup
  wakeup-lock chan k o =
      let locked : IsLocked (wakeup1 chan (entered k)) =
        wakeup1-IsLocked chan (entered k) (entered-IsLocked k o) in
      rw (acquire-entered k o, release-left (wakeup1 chan (entered k)) locked)
        (left-IsOpen (wakeup1 chan (entered k)))

  wakeup-Keeps :
      (p n v chan : ℕ) (k : Kernel M) → IsOpen k → Kept p n v k → Keeps p n v (wakeup chan k)
  unfolding wakeup
  wakeup-Keeps p n v chan k o h =
      let locked : IsLocked (wakeup1 chan (entered k)) =
        wakeup1-IsLocked chan (entered k) (entered-IsLocked k o) in
      rw (acquire-entered k o, release-left (wakeup1 chan (entered k)) locked)
        (wakeup1-Kept p n v chan (entered k) h)

  pub Step-IsSound : {k k' : Kernel M} → Step ops k k' → IsSound k → IsSound k'
  Step-IsSound {k} {k'} (returns cur c r ready e) s = record {
    lock = returns-lock c r k' (rw e at (perform-Disciplined ops cur c k ready.mode));
    pids = rw e at (perform-HasPids ops cur c k ready.mode ready.small s.pids);
  }
  Step-IsSound {k} (leaves cur c ready e) s = record {
    lock = inr (rw e at (perform-Disciplined ops cur c k ready.mode));
    pids = rw e at (perform-HasPids ops cur c k ready.mode ready.small s.pids);
  }
  Step-IsSound {k} (starts o e) s = record {
    lock = inr (rw e at (acquire-Inside k o));
    pids = rw e at (acquire-PidsEnd k o s.pids);
  }
  Step-IsSound {k} (picks from o locked e) s = record {
    lock = rw e at (scheduler-lock from k locked);
    pids = rw e at (
        PidsEnd-Keeps k (scheduler ops from k) s.pids
          λ p. scheduler-Keeps p k.next_pid (k.proc p).pid from k (refl, inl refl));
  }
  Step-IsSound {k} (wakes chan o e) s = record {
    lock = inl (rw e at (wakeup-lock chan k o));
    pids = rw e at (
        PidsEnd-Keeps k (wakeup chan k) s.pids
          λ p. wakeup-Keeps p k.next_pid (k.proc p).pid chan k o (refl, inl refl));
  }
  Step-IsSound {k} (others m e) s = rw e (record { lock = ground arith; pids = s.pids })

  -- From a sound kernel, whatever calls of `Call` the processes make, in whatever order the scheduler
  -- runs them and other components wake sleepers, while the next identifier does not wrap around: the
  -- lock is free, or held by this CPU at depth one with interrupts off, as it is inside a call, in the
  -- scheduler, and where growproc or sys_kill has returned without a release; no two entries of the
  -- table have the same nonzero identifier, and all are below the next one. Not among the calls are
  -- sleep on another lock, userinit and exec.
  pub Reach-IsSound : {k k' : Kernel M} → Reach ops k k' → IsSound k → IsSound k'
  Reach-IsSound here s = s
  Reach-IsSound (next r st) s = Step-IsSound st (Reach-IsSound r s)

  -- In a kernel that is reachable from a sound one, the search of `kill` and of `sys_kill` for a
  -- nonzero identifier finds the only entry of the table that has it.
  pub find_pid_unique :
      {k k' : Kernel M}
      → Reach ops k k'
      → IsSound k
      → (pid p q : ℕ) → pid ≢ 0
      → find_pid k'.proc pid ≡ some p
      → 1 ≤ q
      → q ≤ nproc
      → (k'.proc q).pid ≡ pid
      → q ≡ p
  unfolding find_pid
  find_pid_unique {k} {k'} r s pid p q ne e a b c =
      let sound : IsSound k' = Reach-IsSound r s in
      let found = find_from-some (λ j. (k'.proc j).pid == pid) nproc 1 p e in
      ground (arith, found, sound.pids.distinct q p)

-- ===== src/Proc/Locking/Table.antt =====
-- The changes of the table under the lock leave the lock alone.
use os_project03_thread.Common.{ℕ, ◌≡◌, false, arith, for_range, for_range_inv}
use os_project03_thread.Kernel.State.{Kernel, nproc, max_threads, is_running}
use os_project03_thread.Kernel.Run.{set_proc, IsLocked}
use os_project03_thread.Proc.Sleep.{wakeup1}
use os_project03_thread.Proc.Exit.{exit_table, pass_child, end_round}
use os_project03_thread.Proc.Kill.{kill_round}
use os_project03_thread.Proc.Thread.{exit_thread}

module _ {M : Type 0} where
  pub wakeup1-IsLocked : (chan : ℕ) (k : Kernel M) → IsLocked k → IsLocked (wakeup1 chan k)
  unfolding wakeup1
  wakeup1-IsLocked chan k h = ground arith

  pub kill_round-IsLocked : (p i : ℕ) (k : Kernel M) → IsLocked k → IsLocked (kill_round p i k)
  unfolding kill_round
  kill_round-IsLocked p i k h = ground arith

  pub kill_loop-IsLocked :
      (p : ℕ) (k : Kernel M) → IsLocked k → IsLocked (for_range (kill_round p) max_threads 0 k)
  kill_loop-IsLocked p k h =
      for_range_inv IsLocked (kill_round p) max_threads 0 k (kill_round-IsLocked p) h

  pass_child-IsLocked : (cur p : ℕ) (k : Kernel M) → IsLocked k → IsLocked (pass_child cur p k)
  unfolding pass_child
  pass_child-IsLocked cur p k h =
      ground
        (arith, wakeup1-IsLocked k.initproc (set_proc p (λ r. record r { parent = k.initproc }) k))

  end_round-IsLocked : (cur p : ℕ) (k : Kernel M) → IsLocked k → IsLocked (end_round cur p k)
  unfolding end_round
  end_round-IsLocked cur p k h = ground arith

  pub exit_table-IsLocked : (cur : ℕ) (k : Kernel M) → IsLocked k → IsLocked (exit_table cur k)
  unfolding exit_table
  exit_table-IsLocked cur k h = grind (arith, ended)
    where
      woken : IsLocked (wakeup1 (k.proc cur).parent k)
      woken = wakeup1-IsLocked _ k h

      passed : IsLocked (for_range (pass_child cur) nproc 1 (wakeup1 (k.proc cur).parent k))
      passed = for_range_inv IsLocked (pass_child cur) nproc 1 _ (pass_child-IsLocked cur) woken

      ended : IsLocked (
          for_range
            (end_round cur)
            nproc
            1
            (for_range (pass_child cur) nproc 1 (wakeup1 (k.proc cur).parent k)))
      ended = for_range_inv IsLocked (end_round cur) nproc 1 _ (end_round-IsLocked cur) passed

  pub exit_table-stops :
      (cur : ℕ) (k : Kernel M) → is_running ((exit_table cur k).proc cur).state ≡ false
  unfolding exit_table
  exit_table-stops cur k = ground arith

  pub exit_thread-IsLocked :
      (cur retval : ℕ) (k : Kernel M) → IsLocked k → IsLocked (exit_thread cur retval k)
  unfolding exit_thread wakeup1
  exit_thread-IsLocked cur retval k h = ground arith

  pub exit_thread-stops :
      (cur retval : ℕ) (k : Kernel M)
      → is_running ((exit_thread cur retval k).proc cur).state ≡ false
  unfolding exit_thread
  exit_thread-stops cur retval k = ground arith

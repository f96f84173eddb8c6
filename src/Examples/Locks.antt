-- ===== src/Examples/Locks.antt =====
-- The lock and the process identifiers on the small kernel.
use os_project03_thread.Common.{ℕ, ◌≡◌, refl, some, find_from, arith}
use os_project03_thread.Kernel.Run.{entered, acquire-entered}
use os_project03_thread.Proc.Kill.{find_pid}
use os_project03_thread.Proc.System.{call_fork, perform}
use os_project03_thread.Proc.System.Reach.{Reach, here, next, starts}
use os_project03_thread.Proc.Locking.Rules.{Disciplined}
use os_project03_thread.Proc.Locking.Ending.{perform-Disciplined}
use os_project03_thread.Proc.Pids.Rules.{PidsEnd}
use os_project03_thread.Proc.Pids.Unique.{perform-HasPids}
use os_project03_thread.Proc.Pids.Reachable.{IsSound, Reach-IsSound, find_pid_unique}
use os_project03_thread.Examples.Boot.{page_ops, boot, boot-IsOpen, boot-HasPids, boot-IsSound}

perform-Disciplined_example : Disciplined (perform page_ops 2 call_fork boot)
perform-Disciplined_example = perform-Disciplined page_ops 2 call_fork boot boot-IsOpen

perform-HasPids_example : PidsEnd (perform page_ops 2 call_fork boot)
perform-HasPids_example =
    perform-HasPids page_ops 2 call_fork boot boot-IsOpen (omega arith) boot-HasPids

-- The scheduler has just taken the lock.
scheduling : Reach page_ops boot (entered boot)
scheduling = next here (starts boot-IsOpen (acquire-entered boot boot-IsOpen))

Reach-IsSound_example : IsSound (entered boot)
Reach-IsSound_example = Reach-IsSound page_ops scheduling boot-IsSound

find_pid_3 : find_pid (entered boot).proc 3 ≡ some 3
unfolding find_pid find_from
find_pid_3 = refl

find_pid_unique_example : ◌≡◌ {A = ℕ} 3 3
find_pid_unique_example =
    find_pid_unique page_ops scheduling boot-IsSound 3 3 3 (λ h. ground arith) find_pid_3
      (omega arith) (omega arith) refl

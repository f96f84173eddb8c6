-- ===== src/Examples/Calls.antt =====
-- Calls of proc.c on the small kernel: allocproc, sleep, scheduler, exit, wait, kill.
use os_project03_thread.Common.{
  ℕ, ◌≤◌, ◌<◌, ◌≡◌, ◌≢◌, refl, true, false, find_from, Option, none, some, arith,
}
use os_project03_thread.Kernel.State.{Kernel, runnable, sleeping, nproc, max_threads}
use os_project03_thread.Kernel.Run.{ok, switched, IsOpen, IsLocked, entered, entered-IsLocked, left}
use os_project03_thread.Proc.Alloc.{find_unused, growproc}
use os_project03_thread.Proc.Alloc.Grow.{growproc_keeps_lock}
use os_project03_thread.Proc.Sleep.{sleep, wakeup}
use os_project03_thread.Proc.Sleep.Laws.{sleep-wakeup}
use os_project03_thread.Proc.Exit.{exit_locked, wait_scan, havekids}
use os_project03_thread.Proc.Exit.Laws.{Ended, exit-Ended}
use os_project03_thread.Proc.Fork.{fork}
use os_project03_thread.Proc.Fork.Laws.{Forked, fork-Forked}
use os_project03_thread.Proc.Kill.{find_pid, kill, sys_kill}
use os_project03_thread.Proc.Kill.Laws.{
  IsDoomed, thread_of, kill-IsDoomed, sys_kill-sharers, sys_kill_keeps_lock,
}
use os_project03_thread.Examples.Boot.{page_ops, stuck_ops, boot, boot-IsOpen}

boot_unused : find_unused boot.proc ≡ some 5
unfolding find_unused find_from
boot_unused = refl

growproc_keeps_lock_example :
    (k' : Kernel ℕ) × (growproc stuck_ops 2 4096 boot ≡ ok false k') × IsLocked k'
growproc_keeps_lock_example =
    growproc_keeps_lock stuck_ops 2 4096 boot boot-IsOpen 1 (λ h. ground arith) refl

sleep-wakeup_example :
    (k₁ k₂ : Kernel ℕ) × (sleep {A = Option ℕ} 3 77 (entered boot) ≡ switched k₁)
    × IsLocked k₁
    × (((k₁.proc 3).state ≡ sleeping) × ((k₁.proc 3).chan ≡ 77))
    × (wakeup 77 (left k₁) ≡ ok tt k₂)
    × IsOpen k₂
    × (k₂.proc 3 ≡ record (boot.proc 3) { chan = 77; state = runnable })
sleep-wakeup_example =
    sleep-wakeup 3 77 (entered boot) (omega arith) (omega arith) (entered-IsLocked boot boot-IsOpen)

exit-Ended_example :
    (k' : Kernel ℕ) × (exit_locked {A = Option ℕ} 2 boot ≡ switched k') × Ended 2 boot k'
exit-Ended_example = exit-Ended (Option ℕ) 2 boot boot-IsOpen (λ h. ground arith)

-- On the small kernel kfree does not panic but at 0, and freevm never.
abbrev AnyTime : ℕ → ℕ → ℕ → Type 0
AnyTime n stack e = Unit

no_children : wait_scan boot.proc 3 nproc 1 false ≡ havekids false
unfolding wait_scan
no_children = refl

busy_children : wait_scan boot.proc 1 nproc 1 false ≡ havekids true
unfolding wait_scan
busy_children = refl

finds_shell : find_pid boot.proc 2 ≡ some 2
unfolding find_pid find_from
finds_shell = refl

kill-IsDoomed_example :
    (k' : Kernel ℕ) × (kill 2 boot ≡ ok true k')
    × IsOpen k'
    × ((m : ℕ)
        → m < max_threads
        → (boot.proc (thread_of 2 boot m)).pid ≢ 0
        → IsDoomed (boot.proc (thread_of 2 boot m)) (k'.proc (thread_of 2 boot m)))
    × ((j : ℕ)
        → ((m : ℕ) → m < max_threads → thread_of 2 boot m ≡ j → (boot.proc j).pid ≡ 0)
        → k'.proc j ≡ boot.proc j)
kill-IsDoomed_example = kill-IsDoomed boot 2 boot-IsOpen 2 finds_shell

sys_kill-sharers_example :
    (k' : Kernel ℕ) × (sys_kill (some 2) boot ≡ ok true k')
    × IsOpen k'
    × ((j : ℕ)
        → 1 ≤ j
        → j ≤ nproc
        → (boot.proc j).share_ptr ≡ 20
        → IsDoomed (boot.proc j) (k'.proc j))
    × ((j : ℕ) → (boot.proc j).share_ptr ≢ 20 → k'.proc j ≡ boot.proc j)
sys_kill-sharers_example = sys_kill-sharers boot 2 boot-IsOpen 2 finds_shell

sys_kill_keeps_lock_example : (k' : Kernel ℕ) × (sys_kill none boot ≡ ok false k') × IsLocked k'
sys_kill_keeps_lock_example = sys_kill_keeps_lock boot boot-IsOpen

-- The shell forks: its child is at 5, with the kernel stack in the page 8192 and the shared data in
-- the page 12288.
fork-Forked_example :
    (k' : Kernel ℕ) × (fork page_ops 2 boot ≡ ok (some 5) k') × Forked 2 5 12288 16384 boot k'
fork-Forked_example =
    fork-Forked page_ops 2 5 12288 boot boot-IsOpen boot_unused (λ h. ground arith)
      (λ h. ground arith) (λ h. ground arith) 3 refl (λ h. ground arith) (λ h. ground arith) 16384 4
      refl (λ h. ground arith) (λ j e. Unit) (λ j e a b c. (e, refl, tt)) (λ j e a b c. tt) tt

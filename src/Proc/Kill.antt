-- ===== src/Proc/Kill.antt =====
-- proc.c: kill; sysproc.c: sys_kill.
pub mod Laws
use os_project03_thread.Common.{
  ℕ, Bool, true, false, Option, ◌==◌, if◌then◌else◌, find_from, sweep, for_range,
}
use os_project03_thread.Kernel.State.{
  Kernel, Proc, ProcState, runnable, is_sleeping, nproc, max_threads,
}
use os_project03_thread.Kernel.Run.{
  Cmd, ◌>>=◌, ◌>>◌, pure, search_or, get, modify, set_proc, acquire, release,
}

-- `if (p->state == SLEEPING) p->state = RUNNABLE;`
abbrev pub roused : ProcState → ProcState
roused s = if is_sleeping s then runnable else s

-- `p->killed = 1;` and the wake-up after it.
unfoldable pub mark_killed : Proc → Proc
mark_killed p = record p { killed = 1; state = roused p.state }

-- `for(p = ptable.proc; …) if (p->pid == pid)`
unfoldable pub find_pid : (ℕ → Proc) → ℕ → Option ℕ
find_pid t pid = find_from (λ p. (t p).pid == pid) nproc 1

-- What the loop of `sys_kill` does to one entry.
unfoldable pub kill_sharer : ℕ → Proc → Proc
kill_sharer share q = if q.share_ptr == share then mark_killed q else q

module _ {M : Type 0} where
  -- One round of the loop over the threads of the process at `p`.
  unfoldable pub kill_round : ℕ → ℕ → Kernel M → Kernel M
  kill_round p i k =
      let q = (k.shared (k.proc p).share_ptr).threads i in
      if (k.proc q).pid == 0 then k else set_proc q mark_killed k

  -- `false` is the return value -1.
  unfoldable pub kill : ℕ → Cmd M Bool
  kill pid = do
    acquire
    k ← get
    search_or (find_pid k.proc pid) (do release; pure false)
        (λ p. do modify (for_range (kill_round p) max_threads 0); release; pure true)

  unfoldable pub kill_sharers : ℕ → Kernel M → Kernel M
  kill_sharers share k = record k { proc = sweep (kill_sharer share) nproc 1 k.proc }

  -- The argument is what `argint` reads; its failure returns at once.
  unfoldable pub sys_kill : Option ℕ → Cmd M Bool
  sys_kill arg = do
    acquire
    k ← get
    search_or arg (pure false) (λ pid.
        search_or (find_pid k.proc pid) (do release; pure false)
          (λ p. do modify (kill_sharers (k.proc p).share_ptr); release; pure true))

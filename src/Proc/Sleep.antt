-- ===== src/Proc/Sleep.antt =====
-- proc.c: wakeup1, wakeup, sleep (on ptable.lock), yield, and the scheduler's choice.
pub mod Laws
use os_project03_thread.Common.{
  ℕ, ◌+◌, ◌-◌, Option, none, some, ◌&&◌, ◌==◌, if◌then◌else◌, find_from, sweep,
}
use os_project03_thread.Kernel.State.{
  Kernel, Proc, runnable, running, sleeping, is_sleeping, is_runnable, nproc, null,
}
use os_project03_thread.Kernel.Ops.{Ops}
use os_project03_thread.Kernel.Run.{
  Cmd, ◌>>=◌, ◌>>◌, pure, panics, when, search_or, get, modify, set_proc, acquire, release, sched,
}
use os_project03_thread.Proc.Alloc.{switchuvm}

-- What the loop of `wakeup1` does to one entry.
unfoldable pub wake : ℕ → Proc → Proc
wake chan p = if is_sleeping p.state && (p.chan == chan) then record p { state = runnable } else p

module _ {M : Type 0} where
  unfoldable pub wakeup1 : ℕ → Kernel M → Kernel M
  wakeup1 chan k = record k { proc = sweep (wake chan) nproc 1 k.proc }

  unfoldable pub wakeup : ℕ → Cmd M (Unit {0})
  wakeup chan = do acquire; modify (wakeup1 chan); release

  -- sleep(chan, &ptable.lock), up to the switch to the scheduler and after it.
  unfoldable pub sleep : {A : Type 0} → ℕ → ℕ → Cmd M A
  sleep cur chan =
      when (cur == null) panics
        (do modify (set_proc cur (λ p. record p { chan = chan; state = sleeping })); sched cur)

  unfoldable pub sleep_resume : ℕ → Kernel M → Kernel M
  sleep_resume cur = set_proc cur (λ p. record p { chan = null })

  unfoldable pub yield : {A : Type 0} → ℕ → Cmd M A
  yield cur = do acquire; modify (set_proc cur (λ p. record p { state = runnable })); sched cur

  unfoldable pub yield_resume : Cmd M (Unit {0})
  yield_resume = release

-- The loop of `scheduler` from the entry `from` on: the next RUNNABLE process.
unfoldable pub next_runnable : (ℕ → Proc) → ℕ → Option ℕ
next_runnable t from = find_from (λ p. is_runnable (t p).state) (nproc + 1 - from) from

module _ {M : Type 0} (ops : Ops M) where
  -- From there to the `swtch`, which runs the process returned; `none` ends the pass over the table.
  unfoldable pub scheduler : ℕ → Cmd M (Option ℕ)
  scheduler from = do
    k ← get
    search_or (next_runnable k.proc from) (do release; pure none)
        (λ p. do
          switchuvm ops p
          modify (set_proc p (λ r. record r { state = running }))
          pure (some p))

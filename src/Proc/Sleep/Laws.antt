-- ===== src/Proc/Sleep/Laws.antt =====
-- sleep and wakeup, and the choice of the scheduler.
use os_project03_thread.Common.{
  ℕ, ◌+◌, ◌-◌, ◌≤◌, ◌<◌, ◌≡◌, ◌≢◌, ◌∙◌, refl, true, false, some, arith, Option, ne→==_false,
  sweep_lem, find_from-some, find_from_first,
}
use os_project03_thread.Kernel.State.{
  Kernel, runnable, running, sleeping, is_sleeping, is_runnable, nproc, null,
}
use os_project03_thread.Kernel.Ops.{Ops}
use os_project03_thread.Kernel.Run.{
  ok, switched, set_proc, IsOpen, IsLocked, acquire-entered, entered, entered-IsLocked,
  release-left, left, sched-switched,
}
use os_project03_thread.Proc.Alloc.{switchuvm}
use os_project03_thread.Proc.Sleep.{wake, wakeup1, wakeup, sleep, next_runnable, scheduler}

module _ {M : Type 0} (k : Kernel M) (chan : ℕ) where
  -- The rows of the table after `wakeup1`.
  pub record Woken (k' : Kernel M) : Type 0 where
    pub sleepers :
        (j : ℕ)
        → 1 ≤ j
        → j ≤ nproc
        → (k.proc j).state ≡ sleeping
        → (k.proc j).chan ≡ chan
        → k'.proc j ≡ record (k.proc j) { state = runnable }
    pub awake : (j : ℕ) → is_sleeping (k.proc j).state ≡ false → k'.proc j ≡ k.proc j
    pub elsewhere : (j : ℕ) → (k.proc j).chan ≢ chan → k'.proc j ≡ k.proc j

  pub wakeup1-Woken : Woken (wakeup1 chan k)
  unfolding wakeup1 wake
  wakeup1-Woken = record {
    sleepers = λ j a b s c. ground (arith, sweep_lem (wake chan) nproc 1 k.proc j);
    awake = λ j s. ground (arith, sweep_lem (wake chan) nproc 1 k.proc j);
    elsewhere = λ j c. ground (arith, sweep_lem (wake chan) nproc 1 k.proc j);
  }

module _ {M : Type 0} (cur chan : ℕ) (k : Kernel M) where
  -- while asleep, with the lock held
  abbrev asleep : Kernel M
  asleep = set_proc cur (λ p. record p { chan = chan; state = sleeping }) k

  wakeup1-IsLocked : (t : Kernel M) → IsLocked t → IsLocked (wakeup1 chan t)
  unfolding wakeup1
  wakeup1-IsLocked t h = ground arith

  wakeup-left : (t : Kernel M) → IsOpen t → wakeup chan t ≡ ok tt (left (wakeup1 chan (entered t)))
  unfolding wakeup
  wakeup-left t h =
      rw
        (
          acquire-entered t h,
          release-left (wakeup1 chan (entered t))
              (wakeup1-IsLocked (entered t) (entered-IsLocked t h)),
        )
        refl

  -- `sleep` called inside the lock leaves the CPU with the process SLEEPING on the channel; a
  -- `wakeup` of that channel by another process, once the scheduler has freed the lock, makes it
  -- RUNNABLE again, and it has lost nothing but its old channel. `cur` is an entry of the table.
  pub sleep-wakeup :
      1 ≤ cur
      → cur ≤ nproc
      → IsLocked k
      → (k₁ k₂ : Kernel M) × (sleep {A = Option ℕ} cur chan k ≡ switched k₁)
        × IsLocked k₁
        × (((k₁.proc cur).state ≡ sleeping) × ((k₁.proc cur).chan ≡ chan))
        × (wakeup chan (left k₁) ≡ ok tt k₂)
        × IsOpen k₂
        × (k₂.proc cur ≡ record (k.proc cur) { chan = chan; state = runnable })
  unfolding sleep
  sleep-wakeup a b locked = (
    asleep,
    left (wakeup1 chan (entered (left asleep))),
    rw
        (
          ne→==_false {a = cur} {b = null} (omega arith),
          sched-switched {A = Option ℕ} cur asleep (ground arith) (ground arith),
        )
        refl,
    ground arith,
    (ground arith, ground arith),
    wakeup-left (left asleep) (ground arith),
    ground arith,
    woken.sleepers cur a b (ground arith) (ground arith) ∙ ground arith,
  )
    where
      woken : Woken (entered (left asleep)) chan (wakeup1 chan (entered (left asleep)))
      woken = wakeup1-Woken (entered (left asleep)) chan

module _ {M : Type 0} (ops : Ops M) (k : Kernel M) (from : ℕ) where
  -- The scheduler, inside the lock, runs the first RUNNABLE entry from `from` on, when its page
  -- directory can be switched to: that entry becomes RUNNING, and no other changes.
  pub scheduler-runs :
      (p : ℕ) (m : M)
      → next_runnable k.proc from ≡ some p
      → ops.switchuvm (k.proc p).kstack (k.shared (k.proc p).share_ptr).pgdir k.env ≡ some m
      → (((k.proc p).state ≡ runnable)
          × (from ≤ p)
          × (p ≤ nproc)
          × ((j : ℕ) → from ≤ j → j < p → is_runnable (k.proc j).state ≡ false))
        × ((k' : Kernel M) × (scheduler ops from k ≡ ok (some p) k')
            × ((k'.proc p).state ≡ running)
            × ((j : ℕ) → j ≢ p → k'.proc j ≡ k.proc j))
  unfolding scheduler switchuvm next_runnable
  scheduler-runs p m e s = (
    (
      ground (arith, found),
      found.0,
      ground (arith, found),
      λ j a b.
          find_from_first (λ q. is_runnable (k.proc q).state) (nproc + 1 - from) from p j e a b,
    ),
    (
      set_proc p (λ r. record r { state = running }) (record k { env = m }),
      rw (e, s) refl,
      ground arith,
      λ j h. ground arith,
    ),
  )
    where
      found : (from ≤ p) × (p < from + (nproc + 1 - from)) × (is_runnable (k.proc p).state ≡ true)
      found = find_from-some (λ q. is_runnable (k.proc q).state) (nproc + 1 - from) from p e

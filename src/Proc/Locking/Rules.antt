-- ===== src/Proc/Locking/Rules.antt =====
-- What acquire, release, sched and sleep do to the lock, as rules for `Ends`.
use os_project03_thread.Common.{ℕ, ◌≡◌, false, arith}
use os_project03_thread.Kernel.State.{Kernel, is_running, sleeping}
use os_project03_thread.Kernel.Run.{
  Run, Cmd, and_then, set_proc, IsOpen, IsLocked, acquire, release, sched, acquire-entered,
  entered-IsLocked, release-left, left-IsOpen, sched-switched,
}
use os_project03_thread.Kernel.Ends.{Ends, bind}
use os_project03_thread.Proc.Sleep.{sleep}

-- The call returns with the lock free, or leaves the CPU with the lock held.
abbrev pub Disciplined : {M A : Type 0} → Run M A → Type 0
Disciplined = Ends (λ _. IsOpen) IsLocked

-- The call comes back inside the lock.
abbrev pub Inside : {M A : Type 0} → Run M A → Type 0
Inside = Ends (λ _. IsLocked) IsLocked

module _ {M A B : Type 0} (r : Run M A) (f : A → Cmd M B) where
  -- One part of a call after another, with the lock free or held in between.
  pub then_open :
      Disciplined r
      → ((a : A) (k : Kernel M) → IsOpen k → Disciplined (f a k))
      → Disciplined (and_then r f)
  then_open = bind (λ _. IsOpen) IsLocked (λ _. IsOpen) r f

  pub then_locked :
      Inside r
      → ((a : A) (k : Kernel M) → IsLocked k → Disciplined (f a k))
      → Disciplined (and_then r f)
  then_locked = bind (λ _. IsLocked) IsLocked (λ _. IsOpen) r f

module _ {M : Type 0} where
  pub acquire-Inside : (k : Kernel M) → IsOpen k → Inside (acquire k)
  acquire-Inside k h = rw (acquire-entered k h) (entered-IsLocked k h)

  pub release-Disciplined : (k : Kernel M) → IsLocked k → Disciplined (release k)
  release-Disciplined k h = rw (release-left k h) (left-IsOpen k)

  pub sched-Disciplined :
      (A : Type 0) (cur : ℕ) (k : Kernel M)
      → IsLocked k
      → is_running (k.proc cur).state ≡ false
      → Disciplined (sched {A = A} cur k)
  sched-Disciplined A cur k h s = rw (sched-switched cur k h s) h

  pub sleep-Disciplined :
      (A : Type 0) (cur chan : ℕ) (k : Kernel M)
      → IsLocked k
      → Disciplined (sleep {A = A} cur chan k)
  unfolding sleep
  sleep-Disciplined A cur chan k h = ground (
    arith,
    sched-Disciplined A cur (set_proc cur (λ p. record p { chan = chan; state = sleeping }) k),
  )

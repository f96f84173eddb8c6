-- ===== src/Proc/System/Reach.antt =====
-- The kernel as a transition system: the calls of the processes, the turns of the scheduler, and
-- the work of the other components, in any order.
use os_project03_thread.Common.{ℕ, ◌+◌, ◌^◌, ◌<◌, ◌≡◌, Option, if◌then◌else◌}
use os_project03_thread.Kernel.State.{Kernel}
use os_project03_thread.Kernel.Ops.{Ops}
use os_project03_thread.Kernel.Run.{ok, switched, IsOpen, IsLocked, acquire}
use os_project03_thread.Proc.Sleep.{scheduler, wakeup}
use os_project03_thread.Proc.System.{Call, perform, resumes}

-- The lock is as the call expects it, and the next process identifier does not wrap.
pub record IsReady {M : Type 0} (c : Call) (k : Kernel M) : Type 0 where
  pub mode : if resumes c then IsLocked k else IsOpen k
  pub small : k.next_pid + 1 < 2 ^ 32

pub data Step {M : Type 0} (ops : Ops M) (k k' : Kernel M) : Type 0 where
  -- a call of the process `cur` returns, or leaves for the scheduler
  returns :
      (cur : ℕ) (c : Call) (r : Option ℕ)
      → IsReady c k
      → perform ops cur c k ≡ ok r k'
      → Step ops k k'
  leaves : (cur : ℕ) (c : Call) → IsReady c k → perform ops cur c k ≡ switched k' → Step ops k k'
  -- the scheduler takes the lock, picks a process or ends its pass
  starts : IsOpen k → acquire k ≡ ok tt k' → Step ops k k'
  picks : (from : ℕ) (o : Option ℕ) → IsLocked k → scheduler ops from k ≡ ok o k' → Step ops k k'
  -- another component wakes the sleepers of a channel, or works on its own state
  wakes : (chan : ℕ) → IsOpen k → wakeup chan k ≡ ok tt k' → Step ops k k'
  others : (m : M) → k' ≡ record k { env = m } → Step ops k k'

pub data Reach {M : Type 0} (ops : Ops M) (k : Kernel M) : Kernel M → Type 0 where
  here : Reach ops k k
  next : {k' k'' : Kernel M} → Reach ops k k' → Step ops k' k'' → Reach ops k k''

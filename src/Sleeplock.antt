-- ===== src/Sleeplock.antt =====
-- sleeplock.c: a lock that a process sleeps for. Each function runs inside the spin lock `lk->lk`.
use os_project03_thread.Common.{ℕ, Bool, true, false, Option, none, some, ◌&&◌, ◌==◌, if◌then◌else◌}

-- `struct sleeplock`, without its spin lock and its name.
pub record Sleeplock : Type 0 where
  pub locked : Bool
  pub pid : ℕ

unfoldable pub initsleeplock : Sleeplock
initsleeplock = record { locked = false; pid = 0 }

-- What process `pid` does each time round the loop of `acquiresleep`: `none` where it sleeps.
unfoldable pub acquiresleep : ℕ → Sleeplock → Option Sleeplock
acquiresleep pid lk = if lk.locked then none else some (record { locked = true; pid = pid })

-- `releasesleep`, which wakes all that sleep for the lock.
unfoldable pub releasesleep : Sleeplock → Sleeplock
releasesleep lk = record { locked = false; pid = 0 }

unfoldable pub holdingsleep : ℕ → Sleeplock → Bool
holdingsleep pid lk = lk.locked && (lk.pid == pid)

-- ===== src/Proc/System.antt =====
-- The calls of proc.c, and sys_kill, that a process makes, and the pieces that run when it is scheduled again, as
-- one type: what one turn of a process does to the kernel.
pub mod Reach
use os_project03_thread.Common.{ℕ, Bool, Option, none, some}
use os_project03_thread.Kernel.State.{Kernel}
use os_project03_thread.Kernel.Ops.{Ops}
use os_project03_thread.Kernel.Run.{
  Cmd, Run, ok, switched, spinning, panic, ◌>>=◌, ◌>>◌, pure, modify,
}
use os_project03_thread.Proc.Alloc.{growproc}
use os_project03_thread.Proc.Sleep.{yield, yield_resume}
use os_project03_thread.Proc.Fork.{fork}
use os_project03_thread.Proc.Exit.{exit, wait, wait_resume}
use os_project03_thread.Proc.Kill.{kill, sys_kill}
use os_project03_thread.Proc.Thread.{thread_create, thread_exit, thread_join, join_resume}

-- `resume_…` is the rest of a call whose `sched` comes back.
pub data Call : Type 0 where
  call_fork : Call
  call_exit : Call
  call_wait : Call
  resume_wait : Call
  call_kill : ℕ → Call
  call_sys_kill : Option ℕ → Call
  call_growproc : ℕ → Call
  call_yield : Call
  resume_yield : Call
  call_thread_create : ℕ → ℕ → Call
  call_thread_exit : ℕ → Call
  call_thread_join : ℕ → Call
  resume_join : ℕ → Call

abbrev pub as_zero : Bool → Option ℕ
as_zero Bool.true = some 0
as_zero Bool.false = none

module _ {M : Type 0} (ops : Ops M) where
  -- `none` is the return value -1.
  unfoldable pub perform : ℕ → Call → Cmd M (Option ℕ)
  perform cur call_fork = fork ops cur
  perform cur call_exit = exit ops cur
  perform cur call_wait = wait ops cur
  perform cur resume_wait = wait_resume ops cur
  perform cur (call_kill pid) = do r ← kill pid; pure (as_zero r)
  perform cur (call_sys_kill arg) = do r ← sys_kill arg; pure (as_zero r)
  perform cur (call_growproc n) = do r ← growproc ops cur n; pure (as_zero r)
  perform cur call_yield = yield cur
  perform cur resume_yield = do yield_resume; pure (some 0)
  perform cur (call_thread_create start arg) = thread_create ops cur start arg
  perform cur (call_thread_exit retval) = thread_exit cur retval
  perform cur (call_thread_join tid) = thread_join ops cur tid
  perform cur (resume_join tid) = join_resume ops cur tid

-- The lock is free when a process enters a call, and held when `sched` comes back into one.
abbrev pub resumes : Call → Bool
resumes resume_wait = Bool.true
resumes resume_yield = Bool.true
resumes (resume_join _) = Bool.true
resumes _ = Bool.false

-- The calls that may return -1 with the lock still held.
abbrev pub leaks : Call → Bool
leaks (call_sys_kill none) = Bool.true
leaks (call_growproc _) = Bool.true
leaks _ = Bool.false

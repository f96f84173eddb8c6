-- ===== src/Proc/Entry/Refused.antt =====
-- System calls of a thread that are refused for their arguments.
use os_project03_thread.Common.{ℕ, ◌≤◌, ◌≡◌, refl, arith, none, some}
use os_project03_thread.Kernel.State.{Kernel}
use os_project03_thread.Kernel.Run.{ok}
use os_project03_thread.Syscall.{argint, argptr}
use os_project03_thread.Proc.Entry.{arg_int, user_size, user_esp, sys_thread_exit}

no_pointer :
    (user : ℕ → ℕ) (sz esp n v : ℕ)
    → argint user sz esp n ≡ some v
    → sz ≤ v
    → argptr user sz esp n 4 ≡ none
unfolding argptr
no_pointer user sz esp n v e h = ground arith

-- `sys_thread_exit` fetches the value as a pointer: with a value that is no address below the size of
-- the process the call returns -1, the thread goes on, and nothing changes.
pub sys_thread_exit_refused :
    {M : Type 0} (user : ℕ → ℕ) (cur v : ℕ) (k : Kernel M)
    → arg_int user cur 0 k ≡ some v
    → user_size user cur k ≤ v
    → sys_thread_exit user cur k ≡ ok none k
unfolding sys_thread_exit
sys_thread_exit_refused user cur v k e h =
    rw (no_pointer user (user_size user cur k) (user_esp user cur k) 0 v e h) refl

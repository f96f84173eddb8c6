-- ===== src/Examples/Args.antt =====
-- Runs of the argument checks.
use os_project03_thread.Common.{
  ℕ, ◌+◌, ◌^◌, ◌≤◌, ◌<◌, ◌≡◌, refl, arith, none, some, find_from, ◌==◌, if◌then◌else◌,
}
use os_project03_thread.Syscall.{word_at, fetchint, find_nul, fetchstr, argint, argptr}
use os_project03_thread.Kernel.Run.{ok}
use os_project03_thread.Proc.Entry.{arg_int, sys_thread_exit}
use os_project03_thread.Proc.Entry.Refused.{sys_thread_exit_refused}
use os_project03_thread.Examples.Boot.{boot}
use os_project03_thread.Syscall.Bounds.{argptr_inside}

-- The stack pointer is 100, and the first argument, at 104, is 200; at 200 stands a string of two
-- characters.
abbrev memory : ℕ → ℕ
memory a = if a == 104 then 200 else if a == 200 then 104 else if a == 201 then 105 else 0

pointed : argptr memory 4096 100 0 16 ≡ some 200
unfolding argptr argint fetchint word_at
pointed = refl

argptr_inside_example : (16 < 2 ^ 31) × (200 < 4096) × (200 + 16 ≤ 4096)
argptr_inside_example = argptr_inside memory 4096 100 0 16 200 (omega arith) pointed

string_of_two : fetchstr memory 4096 200 ≡ some (200, 2)
unfolding fetchstr find_nul find_from
string_of_two = refl

-- The first argument is 0xffffffff.
abbrev ones : ℕ → ℕ
ones a = 255

bad_value : arg_int ones 2 0 boot ≡ some 4294967295
unfolding argint fetchint word_at
bad_value = refl

sys_thread_exit_refused_example : sys_thread_exit ones 2 boot ≡ ok none boot
sys_thread_exit_refused_example =
    sys_thread_exit_refused ones 2 4294967295 boot bad_value (omega arith)

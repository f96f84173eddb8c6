-- ===== src/Proc/Entry.antt =====
-- sysproc.c: the system calls on processes and threads, which fetch their arguments and call proc.c.
-- `user` is the memory of the process byte by byte.
pub mod Refused
use os_project03_thread.Common.{ℕ, Bool, Option, none, some}
use os_project03_thread.Kernel.State.{Kernel}
use os_project03_thread.Kernel.Ops.{Ops}
use os_project03_thread.Kernel.Run.{Cmd, ◌>>=◌, pure, when, search_or, get}
use os_project03_thread.Syscall.{argint, argptr}
use os_project03_thread.Proc.Alloc.{growproc}
use os_project03_thread.Proc.Thread.{thread_create, thread_exit, thread_join}

module _ {M : Type 0} (user : ℕ → ℕ) (cur : ℕ) where
  -- The size and the stack pointer of the process.
  abbrev pub user_size : Kernel M → ℕ
  user_size k = (k.shared (k.proc cur).share_ptr).sz

  abbrev pub user_esp : Kernel M → ℕ
  user_esp k = (k.frame (k.proc cur).tf).esp

  -- The argument `n` as an int, and as a pointer to 4 bytes.
  abbrev pub arg_int : ℕ → Kernel M → Option ℕ
  arg_int n k = argint user (user_size k) (user_esp k) n

  abbrev pub arg_ptr : ℕ → Kernel M → Option ℕ
  arg_ptr n k = argptr user (user_size k) (user_esp k) n 4

  unfoldable pub sys_getpid : Cmd M ℕ
  sys_getpid = do k ← get; pure (k.proc cur).pid

  unfoldable pub sys_thread_exit : Cmd M (Option ℕ)
  sys_thread_exit = do
    k ← get
    search_or (arg_ptr 0 k) (pure none) (λ retval. thread_exit cur retval)

module _ {M : Type 0} (ops : Ops M) (user : ℕ → ℕ) (cur : ℕ) where
  -- The old size, or -1.
  unfoldable pub sys_sbrk : Cmd M (Option ℕ)
  sys_sbrk = do
    k ← get
    search_or (arg_int user cur 0 k) (pure none) (λ n. do
      grown ← growproc ops cur n
      when grown (pure (some (user_size user cur k))) (pure none))

  -- The pointer that the thread identifier is stored through, and the identifier.
  unfoldable pub sys_thread_create : Cmd M (Option (ℕ × ℕ))
  sys_thread_create = do
    k ← get
    search_or (arg_ptr user cur 0 k) (pure none) (λ thread.
        search_or (arg_ptr user cur 1 k) (pure none) (λ start.
          search_or (arg_ptr user cur 2 k) (pure none) (λ arg. do
            made ← thread_create ops cur start arg
            search_or made (pure none) (λ i. pure (some (thread, i))))))

  -- The pointer that the value is stored through, and the value.
  unfoldable pub sys_thread_join : Cmd M (Option (ℕ × ℕ))
  sys_thread_join = do
    k ← get
    search_or (arg_int user cur 0 k) (pure none) (λ thread.
        search_or (arg_ptr user cur 1 k) (pure none) (λ retval. do
          joined ← thread_join ops cur thread
          search_or joined (pure none) (λ v. pure (some (retval, v)))))

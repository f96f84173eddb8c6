-- ===== src/Kernel/State.antt =====
-- proc.h: `struct proc`, `struct sharedData` and the process table, with the kernel objects that
-- they point at. A pointer is a number with 0 for null; `&ptable.proc[i]` is the number `i + 1`.
use os_project03_thread.Common.{ℕ, Bool, true, false, List}
use os_project03_thread.Spinlock.{Cpu, Spinlock}

-- param.h
abbrev pub nproc : ℕ
nproc = 64

abbrev pub nofile : ℕ
nofile = 16

abbrev pub kstacksize : ℕ
kstacksize = 4096

abbrev pub pgsize : ℕ
pgsize = 4096

-- the length of `threads` and `isThere`
abbrev pub max_threads : ℕ
max_threads = 6

abbrev pub null : ℕ
null = 0

-- `enum procstate`
pub data ProcState : Type 0 where
  unused embryo sleeping runnable running zombie : ProcState

abbrev pub is_unused : ProcState → Bool
is_unused unused = true
is_unused _ = false

abbrev pub is_sleeping : ProcState → Bool
is_sleeping sleeping = true
is_sleeping _ = false

abbrev pub is_runnable : ProcState → Bool
is_runnable runnable = true
is_runnable _ = false

abbrev pub is_running : ProcState → Bool
is_running running = true
is_running _ = false

abbrev pub is_zombie : ProcState → Bool
is_zombie zombie = true
is_zombie _ = false

-- `struct trapframe` of x86.h: the registers that proc.c writes, and the rest, which it copies.
pub record TrapFrame : Type 0 where
  pub eax : ℕ
  pub eip : ℕ
  pub esp : ℕ
  pub rest : List ℕ

-- `struct context`
pub record Context : Type 0 where
  pub edi : ℕ
  pub esi : ℕ
  pub ebx : ℕ
  pub ebp : ℕ
  pub eip : ℕ

-- `struct proc`; the character array `name` is a function of the index.
pub record Proc : Type 0 where
  pub kstack : ℕ
  pub state : ProcState
  pub pid : ℕ
  pub parent : ℕ
  pub tf : ℕ
  pub context : ℕ
  pub chan : ℕ
  pub killed : ℕ
  pub name : ℕ → ℕ
  pub share_ptr : ℕ
  pub order_of_thread : ℕ
  pub retval : ℕ
  pub im_master : ℕ
  pub stack : ℕ

-- `struct sharedData`: what the threads of one process share.
pub record SharedData : Type 0 where
  pub sz : ℕ
  pub pgdir : ℕ
  pub ofile : ℕ → ℕ
  pub cwd : ℕ
  pub num_of_thread : ℕ
  pub threads : ℕ → ℕ
  pub is_there : ℕ → ℕ

-- The kernel as one CPU sees it. `proc`, `shared`, `frame` and `ctx` give the objects at an address.
-- `word` holds the return addresses on the kernel stacks. What stands at address 0 is the first user
-- page read as such an object: a kernel that follows a null pointer reads and writes there. `env` is the state of the other components.
pub record Kernel (M : Type 0) : Type 0 where
  pub proc : ℕ → Proc
  pub shared : ℕ → SharedData
  pub frame : ℕ → TrapFrame
  pub ctx : ℕ → Context
  pub word : ℕ → ℕ
  pub initproc : ℕ
  pub next_pid : ℕ
  pub lock : Spinlock
  pub cpu : Cpu
  pub env : M

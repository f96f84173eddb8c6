-- ===== src/Lib.antt =====
-- Verification of the kernel of OS_Project03_Thread: xv6 for x86 with threads that share the data
-- of a process.
--
-- The program. A process is an entry of the table `ptable` of proc.c; the entries of one process
-- (its threads) point at one `struct sharedData` with the size, the page directory, the files and
-- the list of the threads. Every call of proc.c works on the table inside `ptable.lock`, a spin lock
-- of spinlock.c; a process gives up the CPU by `sched`, which leaves for the scheduler with the lock
-- held, and the process that is picked releases it. sysproc.c adds sys_kill, which works on the table
-- too. The pages that stacks and shared data stand in come from kalloc.c. syscall.c fetches the
-- arguments of a call from user memory, pipe.c joins processes by a ring of bytes, file.c counts the
-- references to open files, and string.c has the routines on blocks of memory that all of them use.
-- vm.c keeps the page tables of each process in pages of kalloc.c. bio.c holds blocks of the disk in
-- buffers, each with a sleep lock of sleeplock.c, and log.c makes the block writes of a file system
-- call one transaction, which a restart after a crash completes or drops. pthread_lock_linux.c is a
-- program of its own that runs on Linux: a lock without special instructions and a test of it.
--
-- The files.
--   Common: names of the libraries, tests on numbers, arrays as functions with `update`, the counted
--     loops of the C code (`find_from` is a loop with a break, `for_range` and `sweep` are loops over
--     a state and over the entries of a table), and their lemmas.
--   Spinlock: spinlock.c as one CPU sees it: the depth of pushcli, the interrupt flag, and the lock.
--   Kernel: the state of the process component (Kernel/State), what it calls of the other components
--     (Kernel/Ops), and commands (Kernel/Run): a call returns, leaves the CPU at `sched`, spins or
--     panics. What the C code does after `sched` comes back is a command of its own, named
--     `…_resume`. Kernel/Ends and Kernel/Returns are rules for statements about how a command ends.
--   Kalloc: kalloc.c, with the free list in the memory of the free pages.
--   Strings: string.c. Two regions of one memory may overlap in memmove; strncpy and safestrcpy take
--     their two arrays apart.
--   Syscall: fetchint, fetchstr, argint, argptr and argstr of syscall.c.
--   Pipe: pipe.c inside the lock of the pipe; Pipe/Ring gives the bytes in the ring as a list.
--   Files: the table of open files of file.c and its reference counts.
--   Descriptors: argfd, fdalloc, sys_dup, sys_close and sys_pipe of sysfile.c and pipealloc of pipe.c,
--     over Files, Pipe and Kalloc. Descriptors/Ends closes the two ends of a pipe.
--   Proc: proc.c and sys_kill of sysproc.c. Alloc is allocproc and growproc; Sleep is sleep, wakeup,
--     yield and the scheduler; Fork is fork; Exit is exit and wait; Kill is kill and sys_kill; Thread
--     is thread_create, thread_exit and thread_join. Entry is the system calls of sysproc.c that
--     fetch arguments for these. System puts the calls together, and System/Reach is the step relation
--     of the whole; growproc, and sys_kill without an argument, may return inside the lock. Locking
--     and Pids prove their invariants of all calls, call by call.
--   Vm: vm.c over the memory of Kalloc. Vm is walkpgdir, mappages, clearpteu and uva2ka;
--     Vm/Space is the functions on whole address spaces. Vm/Tables says what an address space in order
--     is: directory, page tables and free pages are different pages.
--   Machine: the operations that proc.c takes of kalloc.c and vm.c, filled with Kalloc and Vm.
--   Disk: the disk as the users of bio.c see it, by block number, with all the disks that a crash in
--     the past could have left. Log: log.c on it; Log/Phase has the stages of a commit, Log/Session
--     the operations that share the log.
--   Sleeplock and Bio: sleeplock.c and bio.c inside their spin locks. Bio/Ring gives the linked ring
--     of buffers as a list in order of use.
--   Bakery: pthread_lock_linux.c; `Move` is one access of a thread to the shared arrays, `advance`
--     the same as a function, and `Reach` any interleaving.
--   Ulib: strchr, gets and atoi of ulib.c and printint of printf.c, which user programs use. A string
--     is the list of its characters, and the input that `read` returns one by one is a list.
--   Examples: a small kernel, and a run of each theorem on concrete data.
--
-- How the state corresponds to the code. A pointer is its number, 0 is null, and `&ptable.proc[i]`
-- is the number i + 1; objects are functions of their address, so that entries which share data
-- alias in the model as they do in the kernel. What a call reads or writes through a null pointer is
-- the object at 0. Unsigned and signed 32-bit fields that are counted keep their wrap-around. A
-- return value -1 is `none` or `false`; a panic is a result. One CPU is modelled: another CPU shows
-- only in the lock, which `acquire` may find taken.
--
-- Loops and bounds. Loops over the table have NPROC rounds, those over the threads six and those
-- over the files NOFILE; they are recursions on the rounds left and need no fuel. The loops of wait
-- and thread_join that go round through `sched` are cut there. The loops of vm.c over the pages of
-- an address space run on fuel, one round for each of the 2^20 pages and one for the last test;
-- what stays below KERNBASE needs fewer. A walk along the ring of buffers has one round more than
-- there are buffers. Where this fuel is used up the result says so (`spins`, `loops`). printint
-- divides its number in each round, so that its fuel is one more than the number; the fuel of
-- strlen is an argument, and any above the length is enough (Strings/Lengths). The numbers of the
-- bakery lock are not bounded in the model: each thread takes the lock once.
--
-- Not modelled. The other components enter proc.c as the record `Ops`, whose results are arbitrary.
-- `myproc()` is an argument of each call. swtch, the saved `intena` of sched, the field `proc` of
-- the CPU, switchkvm and the `sti` of the scheduler stay out, and so does sleep on another lock
-- than ptable.lock. userinit, forkret and procdump are left out. Of spinlock.c the call stack for
-- debugging is left out. In vm.c a word of memory is read at any address, so that a page is a
-- function of it; `pa | perm` is a sum, since the addresses given are those of pages; seginit,
-- switchuvm and switchkvm set registers and are left out, copyout copies bytes, which the words do
-- not show, and `readi` is an argument of loaduvm. bread and bwrite are modelled by block number,
-- apart from the ring of buffers, and the disk driver writes a block as a whole and in the order of
-- the calls. In the log one device is modelled, the log's. The bakery threads read and write the
-- shared variables one at a time and in program order. In Descriptors no other thread of the
-- process uses the descriptors during a call, closing the last reference to an inode is recorded
-- and not carried out, and sys_pipe returns what it stores at its argument. exec.c, the rest of
-- sysfile.c, the file system above the log, the devices and the user programs but for Ulib are not
-- modelled.
pub mod Common
pub mod Spinlock
pub mod Kernel
pub mod Kalloc
pub mod Strings
pub mod Syscall
pub mod Pipe
pub mod Files
pub mod Proc
pub mod Vm
pub mod Disk
pub mod Log
pub mod Sleeplock
pub mod Bio
pub mod Bakery
pub mod Descriptors
pub mod Machine
pub mod Ulib
pub mod Examples

-- ===== src/Proc/Thread.antt =====
-- proc.c: thread_create, thread_exit and thread_join.
pub mod Create
pub mod Group
pub mod Join
pub mod Value
use os_project03_thread.Common.{
  ℕ, ◌+◌, ◌-◌, ◌*◌, ◌%◌, ◌^◌, Bool, Option, none, some, [], ◌∷◌, ◌&&◌, not, ◌==◌, ltb,
  if◌then◌else◌, find_from, update,
}
use os_project03_thread.Kernel.State.{
  Kernel, Proc, SharedData, unused, runnable, zombie, is_zombie, nproc, pgsize, max_threads, null,
}
use os_project03_thread.Kernel.Ops.{Ops}
use os_project03_thread.Kernel.Run.{
  Cmd, ◌>>=◌, ◌>>◌, pure, when, search_or, get, modify, call_env, ask_env, set_proc, set_shared,
  acquire, release, sched,
}
use os_project03_thread.Proc.Alloc.{allocproc}
use os_project03_thread.Proc.Sleep.{wakeup1, sleep, sleep_resume}

-- The first index of the shared data that no thread has.
unfoldable pub free_index : SharedData → Option ℕ
free_index s = find_from (λ i. s.is_there i == 0) max_threads 0

-- `uint` arithmetic
abbrev pub sub32 : ℕ → ℕ → ℕ
sub32 a b = (a + 2 ^ 32 - b) % 2 ^ 32

abbrev pub add32 : ℕ → ℕ → ℕ
add32 a b = (a + b) % 2 ^ 32

-- The stack pointer of a new thread: below it are the argument and the fake return address.
abbrev pub thread_sp : ℕ → ℕ
thread_sp sz = sub32 sz 8

module _ {M : Type 0} where
  -- `np->sharePtr = curproc->sharePtr`, the parent, and the trap frame with eax cleared.
  unfoldable pub join_group : ℕ → ℕ → Kernel M → Kernel M
  join_group cur np k =
      let c = k.proc cur in
      record k {
        proc = update k.proc np (record (k.proc np) { share_ptr = c.share_ptr; parent = c.parent });
        frame = update k.frame (k.proc np).tf (record (k.frame c.tf) { eax = 0 });
      }

  -- The loop that gives the thread its index; with all six taken it does nothing.
  unfoldable pub enlist : ℕ → Kernel M → Kernel M
  enlist np k =
      let a = (k.proc np).share_ptr in
      let s = k.shared a in
      elim (free_index s) [
        | none ↦ k
        | some i ↦ record k {
          shared = update k.shared a (record s {
            is_there = update s.is_there i 1;
            threads = update s.threads i np;
            num_of_thread = add32 s.num_of_thread 1;
          });
          proc = update k.proc np (record (k.proc np) { order_of_thread = i });
        }
      ]

  -- Stack, entry point and state of the thread at `np`.
  unfoldable pub launch : ℕ → ℕ → ℕ → Kernel M → Kernel M
  launch np start sp k = record k {
    proc = update k.proc np (record (k.proc np) { stack = sp; im_master = 0; state = runnable });
    frame =
        update k.frame (k.proc np).tf (record (k.frame (k.proc np).tf) { eip = start; esp = sp });
  }

module _ {M : Type 0} (ops : Ops M) where
  -- The failure exits of `thread_create` under the lock.
  unfoldable pub create_fails : ℕ → Cmd M (Option ℕ)
  create_fails np = do modify (set_proc np (λ p. record p { state = unused })); release; pure none

  -- What `thread_create` does with the grown address space, under the lock.
  unfoldable pub create_start : ℕ → ℕ → ℕ → ℕ → Cmd M (Option ℕ)
  create_start np start arg sz = do
    k ← get
    let a = (k.proc np).share_ptr
    let pgdir = (k.shared a).pgdir
    call_env (ops.clearpteu pgdir (sub32 sz (2 * pgsize)))
    modify (set_shared a (λ s. record s { sz = sz }))
    let sp = thread_sp sz
    copied ← ask_env (λ m. some (ops.copyout pgdir sp (0xffffffff ∷ arg ∷ []) m))
    when copied
        (do
          modify (launch np start sp)
          modify (enlist np)
          k' ← get
          release
          pure (some (k'.proc np).order_of_thread))
        (create_fails np)

  -- From `acquire(&ptable.lock)` on: the shared address space grows by a guard page and a stack.
  unfoldable pub create_grow : ℕ → ℕ → ℕ → ℕ → Cmd M (Option ℕ)
  create_grow cur np start arg = do
    acquire
    modify (join_group cur np)
    k ← get
    let sh = k.shared (k.proc np).share_ptr
    sz ← ask_env (ops.allocuvm sh.pgdir sh.sz (add32 sh.sz (2 * pgsize)))
    when (sz == 0) (create_fails np) (create_start np start arg sz)

  -- The value is what is stored through `thread`; `none` is the return value -1.
  unfoldable pub thread_create : ℕ → ℕ → ℕ → Cmd M (Option ℕ)
  thread_create cur start arg = do
    np ← allocproc ops
    when (np == null) (pure none) (create_grow cur np start arg)

-- `threads[i]`; the word behind the array, at `i == 6`, is `isThere[0]`.
abbrev pub thread_at : SharedData → ℕ → ℕ
thread_at s i = if ltb i max_threads then s.threads i else s.is_there (i - max_threads)

-- The index at which the loop of `thread_exit` stops.
unfoldable pub master_index : (ℕ → Proc) → SharedData → ℕ
master_index t s = elim (find_from (λ i. (t (s.threads i)).im_master == 1) max_threads 0) [
  | some i ↦ i
  | none ↦ max_threads
]

module _ {M : Type 0} where
  -- All that `thread_exit` does under the lock.
  unfoldable pub exit_thread : ℕ → ℕ → Kernel M → Kernel M
  exit_thread cur retval k =
      let a = (k.proc cur).share_ptr in
      let s = k.shared a in
      let k' = wakeup1 (thread_at s (master_index k.proc s)) k in
      record k' {
        shared =
            update k'.shared a
              (record s { is_there = update s.is_there (k'.proc cur).order_of_thread 0 });
        proc = update k'.proc cur (record (k'.proc cur) { state = zombie; retval = retval });
      }

  -- Does not return.
  unfoldable pub thread_exit : {A : Type 0} → ℕ → ℕ → Cmd M A
  thread_exit cur retval = do acquire; modify (exit_thread cur retval); sched cur

-- The test of `thread_join` on one entry.
unfoldable pub is_joinable : ℕ → ℕ → Proc → Bool
is_joinable tid parent p =
    (p.order_of_thread == tid)
    && is_zombie p.state
    && (p.parent == parent)
    && not (p.im_master == 1)

unfoldable pub find_joinable : (ℕ → Proc) → ℕ → ℕ → Option ℕ
find_joinable t cur tid = find_from (λ p. is_joinable tid (t cur).parent (t p)) nproc 1

-- The entry of a joined thread: given back to the table.
abbrev pub cleared : Proc → Proc
cleared p = record p {
  retval = 0;
  kstack = 0;
  state = unused;
  pid = 0;
  parent = 0;
  killed = 0;
  name = update p.name 0 0;
  im_master = 0;
  order_of_thread = 0;
  share_ptr = 0;
  stack = 0;
}

module _ {M : Type 0} (ops : Ops M) where
  -- One pass of the loop, with the lock held. The value is what `*retval` receives; `none` is the
  -- return value -1.
  unfoldable pub join_pass : ℕ → ℕ → Cmd M (Option ℕ)
  join_pass cur tid = do
    k ← get
    search_or (find_joinable k.proc cur tid) (sleep cur cur) (λ p. do
      let r = k.proc p
      call_env (ops.kfree r.kstack)
      modify (set_proc p cleared)
      modify (
          set_shared (k.proc cur).share_ptr
            (λ s. record s { num_of_thread = sub32 s.num_of_thread 1 }))
      release
      pure (some r.retval))

  unfoldable pub thread_join : ℕ → ℕ → Cmd M (Option ℕ)
  thread_join cur tid = do
    k ← get
    when ((k.proc cur).im_master == 1) (do acquire; join_pass cur tid) (pure none)

  -- What `thread_join` does when it is scheduled again.
  unfoldable pub join_resume : ℕ → ℕ → Cmd M (Option ℕ)
  join_resume cur tid = do
    modify (sleep_resume cur)
    k ← get
    when ((k.proc cur).killed == 0) (join_pass cur tid) (do release; pure none)

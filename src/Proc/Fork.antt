-- ===== src/Proc/Fork.antt =====
-- proc.c: fork.
pub mod Files
pub mod Laws
use os_project03_thread.Common.{ℕ, Option, none, some, ◌==◌, leb, ltb, ◌&&◌, if◌then◌else◌, update}
use os_project03_thread.Kernel.State.{Kernel, SharedData, unused, runnable, nofile, null}
use os_project03_thread.Kernel.Ops.{Ops}
use os_project03_thread.Kernel.Run.{
  Cmd, ok, ◌>>=◌, ◌>>◌, pure, when, get, modify, call_env, ask_env, set_proc, set_shared, for_cmd,
  acquire, release,
}
use os_project03_thread.Strings.{safestrcpy}
use os_project03_thread.Proc.Alloc.{kalloc, allocproc}

-- The page after `memset(mem, 0, sizeof(struct sharedData))`.
abbrev pub zero_shared : SharedData
zero_shared = record {
  sz = 0;
  pgdir = 0;
  ofile = λ _. 0;
  cwd = 0;
  num_of_thread = 0;
  threads = λ _. 0;
  is_there = λ _. 0;
}

-- sizeof(curproc->name)
abbrev pub name_size : ℕ
name_size = 16

-- What `fork` writes into the shared data of the child under the lock.
abbrev pub start_group : ℕ → SharedData → SharedData
start_group np s = record s {
  num_of_thread = 1;
  is_there = update (λ i. if leb 1 i && ltb i 6 then 0 else s.is_there i) 0 1;
  threads = update s.threads 0 np;
}

module _ {M : Type 0} where
  -- size, parent and trap frame of the child, before its files
  unfoldable pub copy_proc : ℕ → ℕ → Kernel M → Kernel M
  copy_proc cur np k =
      let parent = k.proc cur in
      record k {
        shared =
            update k.shared (k.proc np).share_ptr
              (record (k.shared (k.proc np).share_ptr) { sz = (k.shared parent.share_ptr).sz });
        proc = update k.proc np (record (k.proc np) { parent = cur });
        frame = update k.frame (k.proc np).tf (record (k.frame parent.tf) { eax = 0 });
      }

module _ {M : Type 0} (ops : Ops M) where
  -- One round of the loop over the open files.
  unfoldable pub dup_file : ℕ → ℕ → ℕ → Cmd M (Unit {0})
  dup_file cur np i = do
    k ← get
    let f = (k.shared (k.proc cur).share_ptr).ofile i
    when (f == 0) (pure tt) (do
      call_env (ops.filedup f)
      modify (set_shared (k.proc np).share_ptr (λ s. record s { ofile = update s.ofile i f })))

  unfoldable pub idup : ℕ → Cmd M (Unit {0})
  idup ip k = ok tt (record k { env = ops.idup ip k.env })

  unfoldable pub fork_files : ℕ → ℕ → Cmd M (Unit {0})
  fork_files cur np = do
    for_cmd (dup_file cur np) nofile 0
    k ← get
    let cwd = (k.shared (k.proc cur).share_ptr).cwd
    idup cwd
    modify (set_shared (k.proc np).share_ptr (λ s. record s { cwd = cwd }))

  -- The name, and what is done under the lock; the child's pid.
  unfoldable pub fork_start : ℕ → ℕ → Cmd M (Option ℕ)
  fork_start cur np = do
    k ← get
    modify (set_proc np (λ p. record p { name = safestrcpy p.name (k.proc cur).name name_size }))
    acquire
    modify (set_shared (k.proc np).share_ptr (start_group np))
    modify (set_proc np (λ p. record p { order_of_thread = 0; im_master = 1; state = runnable }))
    release
    pure (some (k.proc np).pid)

  unfoldable pub fork_finish : ℕ → ℕ → Cmd M (Option ℕ)
  fork_finish cur np = do modify (copy_proc cur np); fork_files cur np; fork_start cur np

  -- The copy of the address space for the child, with its shared data in the page `mem`.
  unfoldable pub fork_space : ℕ → ℕ → ℕ → Cmd M (Option ℕ)
  fork_space cur np mem = do
    modify (set_shared mem (λ _. zero_shared))
    modify (set_proc np (λ p. record p { share_ptr = mem }))
    k ← get
    let sh = k.shared (k.proc cur).share_ptr
    d ← ask_env (ops.copyuvm sh.pgdir sh.sz)
    modify (set_shared mem (λ s. record s { pgdir = d }))
    when (d == 0)
        (do
          call_env (ops.kfree (k.proc np).kstack)
          modify (set_proc np (λ p. record p { kstack = 0; state = unused }))
          pure none)
        (fork_finish cur np)

  unfoldable pub fork_from : ℕ → ℕ → Cmd M (Option ℕ)
  fork_from cur np = do
    mem ← kalloc ops
    when (mem == 0) (do modify (set_proc np (λ p. record p { state = unused })); pure none)
        (fork_space cur np mem)

  -- `none` is the return value -1.
  unfoldable pub fork : ℕ → Cmd M (Option ℕ)
  fork cur = do np ← allocproc ops; when (np == null) (pure none) (fork_from cur np)

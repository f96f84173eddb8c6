-- ===== src/Proc/Alloc.antt =====
-- proc.c: allocproc, and growproc.
pub mod Laws
pub mod Grow
use os_project03_thread.Common.{
  ℕ, ◌+◌, ◌-◌, ◌%◌, ◌^◌, Bool, true, false, Option, none, some, ◌&&◌, ◌==◌, ltb, leb, if◌then◌else◌,
  find_from, update,
}
use os_project03_thread.Kernel.State.{
  Kernel, Proc, Context, unused, embryo, is_unused, nproc, kstacksize, null,
}
use os_project03_thread.Kernel.Ops.{Ops}
use os_project03_thread.Kernel.Run.{
  Cmd, ok, ◌>>=◌, ◌>>◌, pure, when, search_or, get, modify, call_env, ask_env, set_proc, set_shared,
  acquire, release,
}

-- The first UNUSED entry of the table.
unfoldable pub find_unused : (ℕ → Proc) → Option ℕ
find_unused t = find_from (λ p. is_unused (t p).state) nproc 1

-- sizeof(struct trapframe), sizeof(struct context)
abbrev pub tf_size : ℕ
tf_size = 76

abbrev pub context_size : ℕ
context_size = 20

module _ {M : Type 0} where
  -- `p->state = EMBRYO; p->pid = nextpid++;`
  unfoldable pub claim : ℕ → Kernel M → Kernel M
  claim p k = record k {
    proc = update k.proc p (record (k.proc p) { state = embryo; pid = k.next_pid });
    next_pid = (k.next_pid + 1) % 2 ^ 32;
  }

  -- The trap frame and the context at the top of the new kernel stack.
  unfoldable pub init_stack : ℕ → ℕ → ℕ → Kernel M → Kernel M
  init_stack forkret trapret p k =
      let tf : ℕ = (k.proc p).kstack + kstacksize - tf_size in
      let context : ℕ = tf - 4 - context_size in
      record k {
        proc = update k.proc p (record (k.proc p) { tf = tf; context = context });
        word = update k.word (tf - 4) trapret;
        ctx = update k.ctx context (record { edi = 0; esi = 0; ebx = 0; ebp = 0; eip = forkret });
      }

module _ {M : Type 0} (ops : Ops M) where
  unfoldable pub kalloc : Cmd M ℕ
  kalloc k = let (a, m) = ops.kalloc k.env in ok a (record k { env = m })

  -- After `found:` and the release: the kernel stack, or the entry given back.
  unfoldable pub alloc_stack : ℕ → Cmd M ℕ
  alloc_stack p = do
    stack ← kalloc
    modify (set_proc p (λ r. record r { kstack = stack }))
    when (stack == 0) (do modify (set_proc p (λ r. record r { state = unused })); pure null)
        (do modify (init_stack ops.forkret ops.trapret p); pure p)

  -- 0 if there is no UNUSED entry or no page for the kernel stack.
  unfoldable pub allocproc : Cmd M ℕ
  allocproc = do
    acquire
    k ← get
    search_or (find_unused k.proc) (do release; pure null)
        (λ p. do modify (claim p); release; alloc_stack p)

  unfoldable pub switchuvm : ℕ → Cmd M (Unit {0})
  switchuvm p k = call_env (ops.switchuvm (k.proc p).kstack (k.shared (k.proc p).share_ptr).pgdir) k

  -- `int n` is its bit pattern: positive below 2^31, negative from there on. `false` is -1.
  unfoldable pub growproc : ℕ → ℕ → Cmd M Bool
  growproc cur n = do
    acquire
    k ← get
    let a = (k.proc cur).share_ptr
    let sh = k.shared a
    sz ←
        when (ltb 0 n && ltb n (2 ^ 31))
          (ask_env (ops.allocuvm sh.pgdir sh.sz ((sh.sz + n) % 2 ^ 32)))
          (when (leb (2 ^ 31) n) (ask_env (ops.deallocuvm sh.pgdir sh.sz ((sh.sz + n) % 2 ^ 32)))
            (pure sh.sz))
    when ((sz == 0) && (ltb 0 n)) (pure false)
        (do modify (set_shared a (λ s. record s { sz = sz })); switchuvm cur; release; pure true)

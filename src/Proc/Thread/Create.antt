-- ===== src/Proc/Thread/Create.antt =====
-- thread_create: what a new thread gets, a group that is full, and the failures.
use os_project03_thread.Common.{
  ℕ, ap, ◌∙◌, ◌*◌, ◌≡◌, Bool, ◌≢◌, refl, true, arith, Option, none, some, [], ◌∷◌, ne→==_false,
  ◌==◌,
}
use os_project03_thread.Kernel.State.{Kernel, runnable, unused, pgsize, null}
use os_project03_thread.Kernel.Ops.{Ops}
use os_project03_thread.Kernel.Run.{
  ok, and_then, when, ask_env, set_proc, set_shared, IsOpen, IsLocked, acquire-entered, entered,
  release-left, left,
}
use os_project03_thread.Proc.Alloc.{find_unused, claim, init_stack}
use os_project03_thread.Proc.Alloc.Laws.{allocated, allocproc-allocated}
use os_project03_thread.Proc.Thread.{
  free_index, sub32, add32, thread_sp, join_group, enlist, launch, create_fails, create_start,
  create_grow, thread_create,
}
use os_project03_thread.Proc.Thread.Group.{Listed, relist, enlist-Listed, enlist-full}

-- What `thread_create` has done when it succeeds with the address space of size `sz`.
pub record Created {M : Type 0} (cur start p sz : ℕ) (k k' : Kernel M) : Type 0 where
  pub unlocked : IsOpen k'
  pub state : (k'.proc p).state ≡ runnable
  pub pid : (k'.proc p).pid ≡ k.next_pid
  pub member :
      ((k'.proc p).share_ptr ≡ (k.proc cur).share_ptr) × ((k'.proc p).parent ≡ (k.proc cur).parent)
  pub master : (k'.proc p).im_master ≡ 0
  pub entry :
      ((k'.frame (k'.proc p).tf).eip ≡ start) × ((k'.frame (k'.proc p).tf).esp ≡ thread_sp sz)
  pub size : (k'.shared (k.proc cur).share_ptr).sz ≡ sz
  pub others : (j : ℕ) → j ≢ p → k'.proc j ≡ k.proc j

-- The entry that a failed `thread_create` leaves: UNUSED, but with the page that is its kernel
-- stack, which nothing frees, and with the shared data of the caller.
pub record Abandoned {M : Type 0} (page cur p : ℕ) (k k' : Kernel M) : Type 0 where
  pub unlocked : IsOpen k'
  pub state : (k'.proc p).state ≡ unused
  pub kept : ((k'.proc p).kstack ≡ page) × ((k'.proc p).share_ptr ≡ (k.proc cur).share_ptr)
  pub others : (j : ℕ) → j ≢ p → k'.proc j ≡ k.proc j

module _ {M : Type 0} (ops : Ops M) (cur start arg p : ℕ) (k : Kernel M) (open_k : IsOpen k)
    (found : find_unused k.proc ≡ some p) (page : (ops.kalloc k.env).0 ≢ 0)
    (in_table : p ≢ null) where
  -- the shared data of the caller, and its address
  abbrev group : ℕ
  group = (k.proc cur).share_ptr

  -- The kernel when the address space is asked to grow.
  abbrev joining : Kernel M
  unfolding join_group
  joining = join_group cur p (entered (allocated ops p k))

  allocated-IsOpen : IsOpen (allocated ops p k)
  unfolding allocated claim init_stack
  allocated-IsOpen = ground arith

  joining-row :
      (joining.shared ≡ k.shared)
      × (joining.env ≡ (ops.kalloc k.env).1)
      × ((joining.proc p).share_ptr ≡ group)
      × ((joining.proc p).parent ≡ (k.proc cur).parent)
      × ((joining.proc p).pid ≡ k.next_pid)
      × ((j : ℕ) → j ≢ p → joining.proc j ≡ k.proc j)
  unfolding allocated claim init_stack join_group joining
  joining-row = (refl, refl, ground arith, ground arith, ground arith, λ j h. ground arith)

  create-joining :
      thread_create ops cur start arg k
      ≡ and_then
          (ask_env
            (ops.allocuvm
              (joining.shared (joining.proc p).share_ptr).pgdir
              (joining.shared (joining.proc p).share_ptr).sz
              (add32 (joining.shared (joining.proc p).share_ptr).sz (2 * pgsize)))
            joining)
          (λ sz. when (sz == 0) (create_fails ops p) (create_start ops p start arg sz))
  unfolding thread_create create_grow joining
  create-joining = rw (
    allocproc-allocated ops k p open_k found page,
    ne→==_false in_table,
    acquire-entered (allocated ops p k) allocated-IsOpen,
  )

  -- What vm.c is asked: the address space grown by a guard page and a stack, the guard page cut off,
  -- and the words on the stack.
  abbrev grown : Option (ℕ × M)
  grown =
      ops.allocuvm (k.shared group).pgdir (k.shared group).sz
        (add32 (k.shared group).sz (2 * pgsize)) (ops.kalloc k.env).1

  abbrev pushed : ℕ → M → Bool × M
  pushed sz m = ops.copyout (k.shared group).pgdir (thread_sp sz) (0xffffffff ∷ arg ∷ []) m

  abbrev guarded : ℕ → M → Option M
  guarded sz m = ops.clearpteu (k.shared group).pgdir (sub32 sz (2 * pgsize)) m

  -- The kernel after the new thread has its stack and its state.
  abbrev launched : ℕ → M → Kernel M
  launched sz m =
      launch p start (thread_sp sz) (
        set_shared group (λ s. record s { sz = sz })
          (record joining { shared = k.shared; env = m }))

  create-grown :
      (sz : ℕ) (m : M)
      → grown ≡ some (sz, m)
      → thread_create ops cur start arg k
        ≡ when
            (sz == 0)
            (create_fails ops p)
            (create_start ops p start arg sz)
            (record joining { env = m })
  create-grown sz m e = rw (create-joining, joining-row.2, joining-row.0, joining-row.1, e)

  launched-IsLocked : (sz : ℕ) (m : M) → IsLocked (enlist p (launched sz m))
  unfolding launch enlist join_group joining
  launched-IsLocked sz m = ground (arith, allocated-IsOpen)

  create-launched :
      (sz : ℕ) (m m' : M)
      → grown ≡ some (sz, m)
      → sz ≢ 0
      → guarded sz m ≡ some m'
      → (pushed sz m').0 ≡ true
      → thread_create ops cur start arg k
        ≡ ok
            (some ((enlist p (launched sz (pushed sz m').1)).proc p).order_of_thread)
            (left (enlist p (launched sz (pushed sz m').1)))
  unfolding create_start
  create-launched sz m m' e n e' c = rw (
    create-grown sz m e,
    ne→==_false n,
    joining-row.2,
    joining-row.0,
    e',
    c,
    release-left (enlist p (launched sz (pushed sz m').1)) (launched-IsLocked sz (pushed sz m').1),
  )

  Created-launched : (sz : ℕ) (m : M) → Created cur start p sz k (left (enlist p (launched sz m)))
  unfolding enlist launch
  Created-launched sz m = record {
    unlocked = ground arith;
    state = ground arith;
    pid = ground (arith, joining-row.4);
    member = (ground (arith, joining-row.2), ground (arith, joining-row.3));
    master = ground arith;
    entry = (ground arith, ground arith);
    size = ground (arith, joining-row.2);
    others = λ j n. ground (arith, joining-row.5 j n);
  }

  launched-row :
      (sz : ℕ) (m : M)
      → (((launched sz m).proc p).share_ptr ≡ group)
        × ((launched sz m).shared group ≡ record (k.shared group) { sz = sz })
        × (((launched sz m).proc p).order_of_thread ≡ (k.proc p).order_of_thread)
  unfolding launch joining join_group allocated claim init_stack
  launched-row sz m = (ground arith, ground arith, ground arith)

  launched-index :
      (sz : ℕ) (m : M) (o : Option ℕ)
      → free_index (k.shared group) ≡ o
      → free_index ((launched sz m).shared ((launched sz m).proc p).share_ptr) ≡ o
  unfolding free_index
  launched-index sz m o h = rw ((launched-row sz m).0, (launched-row sz m).1) h

  module _ (sz : ℕ) (m m' : M) (e : grown ≡ some (sz, m)) (n : sz ≢ 0) (e' : guarded sz m ≡ some m')
      (c : (pushed sz m').0 ≡ true) where
    abbrev final : Kernel M
    final = launched sz (pushed sz m').1

    -- When every allocation succeeds and the process has a free index, `thread_create` returns the
    -- first free index. The new thread is the first UNUSED entry: RUNNABLE, with the next process
    -- identifier, the shared data and the parent of the caller, no master, and a trap frame that
    -- starts at `start` on the new stack. The shared data lists it at that index and counts one
    -- thread more; no other entry of the table changes, and the lock is free.
    pub thread_create-Created :
        (i : ℕ)
        → free_index (k.shared group) ≡ some i
        → (k' : Kernel M) × (thread_create ops cur start arg k ≡ ok (some i) k')
          × Created cur start p sz k k'
          × Listed i p (k.shared group) (k'.shared group)
    thread_create-Created i h = (
      left (enlist p final),
      create-launched sz m m' e n e' c ∙ ap (λ x. ok (some x) (left (enlist p final))) new.0,
      Created-launched sz (pushed sz m').1,
      relist i p sz (k.shared group) ((enlist p final).shared group) (
          rw ((launched-row sz (pushed sz m').1).0, (launched-row sz (pushed sz m').1).1) at new.1),
    )
      where
        new :
            (((enlist p final).proc p).order_of_thread ≡ i)
            × Listed i p
                (final.shared (final.proc p).share_ptr)
                ((enlist p final).shared (final.proc p).share_ptr)
        new = enlist-Listed p final i (launched-index sz (pushed sz m').1 (some i) h)

    -- With all six indices taken, `thread_create` still starts the thread and returns 0, but the
    -- thread is listed nowhere and is not counted; what it stores as the identifier is whatever index
    -- the table entry had before.
    pub thread_create_full :
        free_index (k.shared group) ≡ none
        → (k' : Kernel M) × (thread_create ops cur start arg k
            ≡ ok (some (k.proc p).order_of_thread) k')
          × Created cur start p sz k k'
          × (k'.shared group ≡ record (k.shared group) { sz = sz })
    thread_create_full h = (
      left final,
      create-launched sz m m' e n e' c ∙ rw (same, (launched-row sz (pushed sz m').1).2) refl,
      rw same at (Created-launched sz (pushed sz m').1),
      (launched-row sz (pushed sz m').1).1,
    )
      where
        same : enlist p final ≡ final
        same = enlist-full p final (launched-index sz (pushed sz m').1 none h)

  -- before the release
  abbrev undone : M → Kernel M
  undone m = set_proc p (λ r. record r { state = unused }) (record joining { env = m })

  undone-IsLocked : (m : M) → IsLocked (undone m)
  unfolding joining join_group
  undone-IsLocked m = ground (arith, allocated-IsOpen)

  Abandoned-undone : (m : M) → Abandoned (ops.kalloc k.env).0 cur p k (left (undone m))
  unfolding joining join_group allocated claim init_stack
  Abandoned-undone m = record {
    unlocked = ground arith;
    state = ground arith;
    kept = (ground arith, ground arith);
    others = λ j n. ground arith;
  }

  -- When the address space cannot grow, `thread_create` returns -1 with the lock free. The table is
  -- as before but for the entry that was claimed: it is UNUSED again, though it still points at the
  -- kernel stack, which is not freed, and at the shared data of the caller.
  pub thread_create-Abandoned :
      (m : M)
      → grown ≡ some (0, m)
      → (k' : Kernel M) × (thread_create ops cur start arg k ≡ ok none k')
        × Abandoned (ops.kalloc k.env).0 cur p k k'
  unfolding create_fails
  thread_create-Abandoned m e = (
    left (undone m),
    rw (create-grown 0 m e, release-left (undone m) (undone-IsLocked m)) refl,
    Abandoned-undone m,
  )

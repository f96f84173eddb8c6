-- ===== src/Proc/Fork/Laws.antt =====
-- fork: what the child gets.
use os_project03_thread.Common.{
  ℕ, ◌+◌, ◌<◌, ◌≡◌, ◌≢◌, ◌∙◌, sym, refl, ==_refl, arith, some, ne→==_false,
}
use os_project03_thread.Kernel.State.{Kernel, SharedData, nofile, runnable, null}
use os_project03_thread.Kernel.Ops.{Ops}
use os_project03_thread.Kernel.Run.{
  ok, and_then, set_proc, set_shared, IsOpen, IsLocked, acquire-entered, entered, release-left,
  left, for_cmd,
}
use os_project03_thread.Kernel.Returns.{Returns, returned, bind-Returns}
use os_project03_thread.Strings.{safestrcpy}
use os_project03_thread.Proc.Alloc.{find_unused, claim, init_stack, kalloc}
use os_project03_thread.Proc.Alloc.Laws.{allocated, allocproc-allocated}
use os_project03_thread.Proc.Fork.{
  zero_shared, name_size, start_group, copy_proc, dup_file, idup, fork_files, fork_start,
  fork_finish, fork_space, fork_from, fork,
}
use os_project03_thread.Proc.Fork.Files.{Dupped, Taking, files-Dupped}

-- What `fork` has done when it returns: the child at `p` with the shared data at `a`.
pub record Forked {M : Type 0} (cur p a d : ℕ) (k k' : Kernel M) : Type 0 where
  pub unlocked : IsOpen k'
  pub state : (k'.proc p).state ≡ runnable
  pub family : ((k'.proc p).pid ≡ k.next_pid) × ((k'.proc p).parent ≡ cur)
  pub master :
      ((k'.proc p).im_master ≡ 1) × ((k'.proc p).order_of_thread ≡ 0) × ((k'.proc p).share_ptr ≡ a)
  pub space : ((k'.shared a).sz ≡ (k.shared (k.proc cur).share_ptr).sz) × ((k'.shared a).pgdir ≡ d)
  pub group :
      ((k'.shared a).num_of_thread ≡ 1)
      × ((k'.shared a).threads 0 ≡ p)
      × ((k'.shared a).is_there 0 ≡ 1)
      × ((k'.shared a).is_there 1 ≡ 0)
  pub files :
      (j : ℕ) → j < nofile → (k'.shared a).ofile j ≡ (k.shared (k.proc cur).share_ptr).ofile j
  pub returns_zero : (k'.frame (k'.proc p).tf).eax ≡ 0
  pub others :
      ((j : ℕ) → j ≢ p → k'.proc j ≡ k.proc j) × ((b : ℕ) → b ≢ a → k'.shared b ≡ k.shared b)

module _ {M : Type 0} (ops : Ops M) (cur p a : ℕ) (k : Kernel M) (open_k : IsOpen k)
    (found : find_unused k.proc ≡ some p) (page : (ops.kalloc k.env).0 ≢ 0) (in_table : p ≢ null)
    (ne : cur ≢ p) (m : M) (memory : ops.kalloc (ops.kalloc k.env).1 ≡ (a, m)) (got : a ≢ 0)
    (new : a ≢ (k.proc cur).share_ptr) where
  abbrev from : SharedData
  from = k.shared (k.proc cur).share_ptr

  -- the kernel when the address space is to be copied
  spaced : Kernel M
  spaced =
      set_proc p (λ r. record r { share_ptr = a })
        (set_shared a (λ _. zero_shared) (record (allocated ops p k) { env = m }))

  allocated_env : (allocated ops p k).env ≡ (ops.kalloc k.env).1
  unfolding allocated claim init_stack
  allocated_env = refl

  allocated_cur :
      (((allocated ops p k).proc cur).share_ptr ≡ (k.proc cur).share_ptr)
      × ((allocated ops p k).shared ≡ k.shared)
  unfolding allocated claim init_stack
  allocated_cur = (ground arith, refl)

  spaced-row :
      (spaced.env ≡ m)
      × ((spaced.proc cur).share_ptr ≡ (k.proc cur).share_ptr)
      × (spaced.shared (k.proc cur).share_ptr ≡ from)
  unfolding spaced allocated claim init_stack
  spaced-row = (refl, ground arith, ground arith)

  module _ (d : ℕ) (m' : M) (copied : ops.copyuvm from.pgdir from.sz m ≡ some (d, m'))
      (mapped : d ≢ 0) where
    -- the kernel when the files are to be copied
    ready : Kernel M
    ready =
        copy_proc cur p (set_shared a (λ s. record s { pgdir = d }) (record spaced { env = m' }))

    fork-ready : fork ops cur k ≡ and_then (fork_files ops cur p ready) (λ _. fork_start ops cur p)
    unfolding fork fork_from kalloc fork_space fork_finish ready spaced
    fork-ready =
        rw
          (
            allocproc-allocated ops k p open_k found page,
            ne→==_false in_table,
            allocated_env,
            memory,
            ne→==_false got,
            ne→==_false ne,
            allocated_cur.0,
            ne→==_false (λ e. new (sym e)),
            allocated_cur.1,
            copied,
            ne→==_false mapped,
          )
          refl

    ready-IsOpen : IsOpen ready
    unfolding ready spaced copy_proc allocated claim init_stack
    ready-IsOpen = ground arith

    ready-row :
        ((ready.proc p).share_ptr ≡ a)
        × ((ready.proc cur).share_ptr ≡ (k.proc cur).share_ptr)
        × ((ready.proc p).pid ≡ k.next_pid)
        × ((ready.proc p).parent ≡ cur)
        × ((ready.frame (ready.proc p).tf).eax ≡ 0)
        × ((ready.shared a).sz ≡ from.sz)
        × ((ready.shared a).pgdir ≡ d)
    unfolding ready spaced copy_proc allocated claim init_stack
    ready-row = (
      ground arith,
      ground arith,
      ground arith,
      ground arith,
      ground arith,
      ground arith,
      ground arith,
    )

    ready_env : ready.env ≡ m'
    unfolding ready copy_proc
    ready_env = refl

    ready-new : (j : ℕ) → ((ready.shared a).ofile j ≡ 0) × ((ready.shared a).is_there j ≡ 0)
    unfolding ready spaced copy_proc allocated claim init_stack
    ready-new j = (ground arith, ground arith)

    ready-others :
        ((j : ℕ) → j ≢ p → ready.proc j ≡ k.proc j)
        × ((b : ℕ) → b ≢ a → ready.shared b ≡ k.shared b)
    unfolding ready spaced copy_proc allocated claim init_stack
    ready-others = (λ j h. ground arith, λ b h. ground arith)

    -- The name is copied, and the child is started under the lock.
    started : Kernel M → Kernel M
    started t =
        set_proc p (λ r. record r { order_of_thread = 0; im_master = 1; state = runnable })
          (set_shared (t.proc p).share_ptr (start_group p) (
            entered (
              set_proc p (λ r. record r { name = safestrcpy r.name (t.proc cur).name name_size })
                t)))

    started-IsLocked : (t : Kernel M) → IsOpen t → IsLocked (started t)
    unfolding started
    started-IsLocked t h = ground arith

    fork_start-started :
        (t : Kernel M)
        → IsOpen t
        → fork_start ops cur p t ≡ ok (some (t.proc p).pid) (left (started t))
    unfolding fork_start started
    fork_start-started t h =
        rw
          (
            acquire-entered
                (set_proc p (λ r. record r { name = safestrcpy r.name (t.proc cur).name name_size })
                  t)
                (ground arith),
            release-left (started t) (started-IsLocked t h),
          )
          refl

    -- What stands when the files are copied: the entries and the shared data but for the child's.
    record Copied (t : Kernel M) : Type 0 where
      unlocked : IsOpen t
      table : (t.proc ≡ ready.proc) × (t.frame ≡ ready.frame)
      elsewhere : (b : ℕ) → b ≢ a → t.shared b ≡ k.shared b
      fields :
          ((t.shared a).sz ≡ from.sz)
          × ((t.shared a).pgdir ≡ d)
          × ((t.shared a).is_there ≡ (ready.shared a).is_there)
      files : (j : ℕ) → j < nofile → (t.shared a).ofile j ≡ from.ofile j

    from_ready : ready.shared (ready.proc cur).share_ptr ≡ from
    from_ready = rw ready-row.1 (ready-others.1 (k.proc cur).share_ptr (λ e. new (sym e)))

    cwd-Copied :
        (Ready : ℕ → M → Type 0) (t : Kernel M)
        → ((jb : ℕ × ℕ) → Dupped ops cur p ready Ready nofile jb.0 jb.1 t)
        → Copied (
            set_shared
              (t.proc p).share_ptr
              (λ s. record s { cwd = (t.shared (t.proc cur).share_ptr).cwd })
              (record t { env = ops.idup (t.shared (t.proc cur).share_ptr).cwd t.env }))
    cwd-Copied Ready t h =
        let same = (h (0, 0)).table.0 in
        let kept = (h (0, 0)).fields in
        record {
          unlocked = ground (arith, (h (0, 0)).lock, ready-IsOpen);
          table = (same, (h (0, 0)).table.1);
          elsewhere = λ b n.
              rw (same, ready-row.0, ne→==_false n)
                ((h (0, b)).elsewhere (rw ready-row.0 n) ∙ ready-others.1 b n);
          fields =
              rw (same, ready-row.0, ==_refl a)
                (
                  (rw ready-row.0 at kept.0) ∙ ready-row.5,
                  (rw ready-row.0 at kept.1) ∙ ready-row.6,
                  rw ready-row.0 at kept.2,
                );
          files = λ j g.
              rw (same, ready-row.0, ==_refl a)
                ((rw (ready-row.0, from_ready) at (h (j, 0)).copied) g);
        }

    Copied-files :
        (Ready : ℕ → M → Type 0)
        → Taking ops cur p ready Ready
        → Ready 0 m'
        → Returns (λ _. Copied) (fork_files ops cur p ready)
    unfolding fork_files idup
    Copied-files Ready dups first =
        bind-Returns (λ _ t. (jb : ℕ × ℕ) → Dupped ops cur p ready Ready nofile jb.0 jb.1 t)
          (λ _. Copied) (for_cmd (dup_file ops cur p) nofile 0 ready) _
          (files-Dupped ops cur p ready Ready (rw (ready-row.0, ready-row.1) new) dups
            (rw ready_env first) (λ j. rw ready-row.0 (ready-new j).0))
          (λ _ t h. cwd-Copied Ready t h)

    Forked-started : (t : Kernel M) → Copied t → Forked cur p a d k (left (started t))
    unfolding started
    Forked-started t c = rw c.table.0 (record {
      unlocked = ground (arith, c.unlocked);
      state = ground arith;
      family = (ground (arith, ready-row), ground (arith, ready-row));
      master = (ground arith, ground arith, ground (arith, ready-row));
      space = (ground (arith, ready-row, c.fields), ground (arith, ready-row, c.fields));
      group = (
        ground (arith, ready-row),
        ground (arith, ready-row),
        ground (arith, ready-row),
        ground (arith, ready-row),
      );
      files = λ j g. ground (arith, ready-row, c.files j);
      returns_zero = ground (arith, ready-row, c.table);
      others = (
        λ j h. ground (arith, ready-others.0 j),
        λ b h. ground (arith, ready-row, c.elsewhere b),
      );
    })

    -- With a free entry, a page for the kernel stack, one for the shared data that is not that of the
    -- caller, a copy of the address space, and a filedup that takes the open files of the caller one
    -- after the other (`Ready j` holds of the file table before the file at `j`), `fork` returns the next
    -- process identifier, with the lock free before. The
    -- child is RUNNABLE, a master with a group of its own at index 0, a child of the caller, with the
    -- size and the open files of the caller, the copied page directory, and 0 in eax. No other entry
    -- and no other shared data changes, and the lock is free.
    pub fork-Forked :
        (Ready : ℕ → M → Type 0)
        → ((j : ℕ) (e : M)
            → j < nofile
            → from.ofile j ≢ 0
            → Ready j e
            → (e' : M) × (ops.filedup (from.ofile j) e ≡ some e') × Ready (j + 1) e')
        → ((j : ℕ) (e : M) → j < nofile → from.ofile j ≡ 0 → Ready j e → Ready (j + 1) e)
        → Ready 0 m'
        → (k' : Kernel M) × (fork ops cur k ≡ ok (some k.next_pid) k') × Forked cur p a d k k'
    fork-Forked Ready takes skips first =
        let (u, t, e, c) =
          returned (λ _. Copied) (fork_files ops cur p ready)
            (Copied-files Ready
              (record { takes = rw from_ready takes; skips = rw from_ready skips }) first) in
        (
          left (started t),
          rw (fork-ready, e, fork_start-started t c.unlocked, c.table.0, ready-row.2) refl,
          Forked-started t c,
        )

-- ===== src/Proc/Thread/Join.antt =====
-- thread_exit and thread_join: how a thread ends and its value comes back.
use os_project03_thread.Common.{
  refl, ℕ, ◌≤◌, ◌<◌, ◌∙◌, ap, Bool, ltb, ltb→lt, Bool-cases, inl, inr, find_from-some,
  find_from_first, find_from_total, ◌≡◌, ◌≢◌, true, arith, Option, some, none, eq→==_true,
  ne→==_false, sweep_lem,
}
use os_project03_thread.Kernel.State.{Kernel, Proc, zombie, sleeping, is_unused, nproc}
use os_project03_thread.Kernel.Ops.{Ops}
use os_project03_thread.Kernel.Run.{
  ok, switched, IsOpen, IsLocked, acquire-entered, entered, entered-IsLocked, release-left, left,
  set_proc, set_shared, sched-switched,
}
use os_project03_thread.Proc.Thread.{is_joinable}
use os_project03_thread.Proc.Sleep.{wake, wakeup1, sleep}
use os_project03_thread.Proc.Thread.{
  thread_at, master_index, exit_thread, thread_exit, find_joinable, cleared, join_pass, thread_join,
  sub32,
}
use os_project03_thread.Proc.Locking.Table.{exit_thread-IsLocked, exit_thread-stops}

-- The entry is a thread with the index `tid` and this parent that has ended.
pub record IsOver (tid parent : ℕ) (p : Proc) : Type 0 where
  pub ended : p.state ≡ zombie
  pub index : p.order_of_thread ≡ tid
  pub family : p.parent ≡ parent
  pub thread : p.im_master ≢ 1

over_found : (tid parent : ℕ) (p : Proc) → IsOver tid parent p → is_joinable tid parent p ≡ true
unfolding is_joinable
over_found tid parent p h = ground (arith, h.ended, h.index, h.family, h.thread)

found-IsOver : (tid parent : ℕ) (p : Proc) → is_joinable tid parent p ≡ true → IsOver tid parent p
unfolding is_joinable
found-IsOver tid parent p h = record {
  ended = ground arith;
  index = ground arith;
  family = ground arith;
  thread = λ e. ground arith;
}

-- The search finds the first such entry.
finds-first :
    (t : ℕ → Proc) (cur tid p : ℕ)
    → 1 ≤ p
    → p ≤ nproc
    → IsOver tid (t cur).parent (t p)
    → ((j : ℕ) → 1 ≤ j → j < p → IsOver tid (t cur).parent (t j) → ⊥)
    → find_joinable t cur tid ≡ some p
unfolding find_joinable
finds-first t cur tid p low high over first =
    let test : ℕ → Bool = λ j. is_joinable tid (t cur).parent (t j) in
    let here : test p ≡ true = over_found tid (t cur).parent (t p) over in
    let (r, e) = find_from_total test nproc 1 p low (omega arith) here in
    let (at_least, below, passes) = find_from-some test nproc 1 r e in
    let least : p ≤ r = elim (Bool-cases (ltb r p)) [
      | inl less ↦
          absurd (first r at_least (ltb→lt r p less) (found-IsOver tid (t cur).parent (t r) passes))
      | inr more ↦ ground arith
    ] in
    let most : r ≤ p = elim (Bool-cases (ltb p r)) [
      | inl less ↦
          let skipped = find_from_first test nproc 1 r p e low (ltb→lt p r less) in
          absurd (ground arith)
      | inr more ↦ ground arith
    ] in
    let same : r ≡ p = omega arith in e ∙ ap some same

-- What `thread_join` has done when it has freed the entry `p` and kfree has made `m` of the memory.
pub record Joined {M : Type 0} (cur p : ℕ) (m : M) (k k' : Kernel M) : Type 0 where
  pub unlocked : IsOpen k'
  pub stack_freed : k'.env ≡ m
  pub freed : is_unused (k'.proc p).state ≡ true
  pub forgotten : ((k'.proc p).pid ≡ 0) × ((k'.proc p).kstack ≡ 0) × ((k'.proc p).share_ptr ≡ 0)
  pub count :
      (k'.shared (k.proc cur).share_ptr).num_of_thread
      ≡ sub32 (k.shared (k.proc cur).share_ptr).num_of_thread 1
  pub others : (j : ℕ) → j ≢ p → k'.proc j ≡ k.proc j

module _ {M : Type 0} (ops : Ops M) (cur tid : ℕ) (k : Kernel M) (open_k : IsOpen k)
    (master : (k.proc cur).im_master ≡ 1) where
  -- The kernel after `thread_join` has freed the entry `p`, with `m` what kfree has made.
  joined : ℕ → M → Kernel M
  joined p m =
      set_shared (k.proc cur).share_ptr (λ s. record s { num_of_thread = sub32 s.num_of_thread 1 })
        (set_proc p cleared (record (entered k) { env = m }))

  pub join_found :
      (p : ℕ) (m : M)
      → find_joinable k.proc cur tid ≡ some p
      → ops.kfree (k.proc p).kstack k.env ≡ some m
      → (k' : Kernel M) × (thread_join ops cur tid k ≡ ok (some (k.proc p).retval) k')
        × Joined cur p m k k'
  unfolding thread_join join_pass joined
  join_found p m e freed = (
    left (joined p m),
    rw (
      eq→==_true master,
      acquire-entered k open_k,
      e,
      freed,
      release-left (joined p m) (ground arith),
    ),
    ground arith,
  )

  -- `thread_join` by a master, with the lock free before, returns the value of the entry `p`, which is
  -- the first one of the table that has ended as a ZOMBIE with that index, is no master, and has the
  -- parent of the caller. It gives the kernel stack of that entry to kfree, which succeeds, frees the
  -- entry and no other, counts one thread less in the data of the caller, and releases the lock.
  pub join-Joined :
      (p : ℕ) (m : M)
      → 1 ≤ p
      → p ≤ nproc
      → IsOver tid (k.proc cur).parent (k.proc p)
      → ((j : ℕ) → 1 ≤ j → j < p → IsOver tid (k.proc cur).parent (k.proc j) → ⊥)
      → ops.kfree (k.proc p).kstack k.env ≡ some m
      → (k' : Kernel M) × (thread_join ops cur tid k ≡ ok (some (k.proc p).retval) k')
        × Joined cur p m k k'
  join-Joined p m low high over first =
      join_found p m (finds-first k.proc cur tid p low high over first)

  -- With no such entry it goes to sleep on its own entry, inside the lock.
  pub join_waits :
      cur ≢ 0
      → find_joinable k.proc cur tid ≡ none
      → (k' : Kernel M) × (thread_join ops cur tid k ≡ switched k')
        × IsLocked k'
        × ((k'.proc cur).state ≡ sleeping)
        × ((k'.proc cur).chan ≡ cur)
        × ((j : ℕ) → j ≢ cur → k'.proc j ≡ k.proc j)
  unfolding thread_join join_pass sleep
  join_waits ne e =
      let k' = set_proc cur (λ p. record p { chan = cur; state = sleeping }) (entered k) in
      (
        k',
        rw (
          eq→==_true master,
          acquire-entered k open_k,
          e,
          ne→==_false ne,
          sched-switched {A = Option ℕ} cur k' (ground arith) (ground arith),
        ),
        ground arith,
        ground arith,
        ground arith,
        λ j h. ground arith,
      )

-- A thread that is no master cannot join: -1 at once, and nothing changes.
pub join-refused :
    {M : Type 0} (ops : Ops M) (cur tid : ℕ) (k : Kernel M)
    → (k.proc cur).im_master ≢ 1
    → thread_join ops cur tid k ≡ ok none k
unfolding thread_join
join-refused ops cur tid k h = rw (ne→==_false h)

-- What `thread_exit` has done when it leaves the CPU.
pub record Exited {M : Type 0} (cur retval : ℕ) (k k' : Kernel M) : Type 0 where
  pub locked : IsLocked k'
  pub state : (k'.proc cur).state ≡ zombie
  pub value : (k'.proc cur).retval ≡ retval
  pub index : (k'.shared (k.proc cur).share_ptr).is_there (k.proc cur).order_of_thread ≡ 0
  pub kept :
      ((k'.proc cur).order_of_thread ≡ (k.proc cur).order_of_thread)
      × ((k'.proc cur).parent ≡ (k.proc cur).parent)
      × ((k'.proc cur).im_master ≡ (k.proc cur).im_master)
      × ((k'.proc cur).kstack ≡ (k.proc cur).kstack)

-- `wakeup1` changes states and nothing else of an entry.
pub wakeup1-row :
    {M : Type 0} (chan : ℕ) (k : Kernel M) (j : ℕ)
    → (((wakeup1 chan k).proc j).order_of_thread ≡ (k.proc j).order_of_thread)
      × (((wakeup1 chan k).proc j).parent ≡ (k.proc j).parent)
      × (((wakeup1 chan k).proc j).im_master ≡ (k.proc j).im_master)
      × ((wakeup1 chan k).shared ≡ k.shared)
      × (((wakeup1 chan k).proc j).kstack ≡ (k.proc j).kstack)
unfolding wakeup1 wake
wakeup1-row chan k j = ground (arith, sweep_lem (wake chan) nproc 1 k.proc j)

pub exit_row :
    {M : Type 0} (cur retval : ℕ) (k : Kernel M)
    → IsLocked (exit_thread cur retval (entered k))
    → Exited cur retval k (exit_thread cur retval (entered k))
unfolding exit_thread
exit_row cur retval k h =
    let row =
      wakeup1-row
        (thread_at (k.shared (k.proc cur).share_ptr)
          (master_index k.proc (k.shared (k.proc cur).share_ptr)))
        (entered k) cur in
    record {
      locked = h;
      state = ground arith;
      value = ground arith;
      index = ground arith;
      kept = (ground arith, ground arith, ground arith, ground arith);
    }

-- What decides whether an entry can be joined, for the other entries.
pub exit_rows :
    {M : Type 0} (cur retval : ℕ) (k : Kernel M) (j tid parent : ℕ)
    → j ≢ cur
    → (is_joinable tid parent ((exit_thread cur retval k).proc j)
        ≡ is_joinable tid parent (k.proc j))
      × (((exit_thread cur retval k).proc j).parent ≡ (k.proc j).parent)
      × (((exit_thread cur retval k).proc j).im_master ≡ (k.proc j).im_master)
unfolding exit_thread is_joinable wakeup1 wake
exit_rows cur retval k j tid parent ne = ground (
  arith,
  sweep_lem
      (wake (
        thread_at (k.shared (k.proc cur).share_ptr)
          (master_index k.proc (k.shared (k.proc cur).share_ptr))))
      nproc 1 k.proc j,
)

module _ {M : Type 0} (A : Type 0) (cur retval : ℕ) (k : Kernel M) (open_k : IsOpen k) where
  pub left-IsLocked : IsLocked (exit_thread cur retval (entered k))
  left-IsLocked = exit_thread-IsLocked cur retval (entered k) (entered-IsLocked k open_k)

  pub thread_exit-switched :
      thread_exit {A = A} cur retval k ≡ switched (exit_thread cur retval (entered k))
  unfolding thread_exit
  thread_exit-switched =
      rw
        (
          acquire-entered k open_k,
          sched-switched {A = A} cur (exit_thread cur retval (entered k)) left-IsLocked
              (exit_thread-stops cur retval (entered k)),
        )
        refl

  -- `thread_exit` leaves the CPU inside the lock, as a ZOMBIE with the value for its joiner; its
  -- index is free in the shared data, and its parent, its index and its stack are still there.
  pub thread_exit-Exited :
      (k' : Kernel M) × (thread_exit {A = A} cur retval k ≡ switched k') × Exited cur retval k k'
  thread_exit-Exited = (
    exit_thread cur retval (entered k),
    thread_exit-switched,
    exit_row cur retval k left-IsLocked,
  )

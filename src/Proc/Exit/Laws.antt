-- ===== src/Proc/Exit/Laws.antt =====
-- exit: the whole process ends, and its children go to init.
use os_project03_thread.Common.{
  ℕ, zero, suc, ◌+◌, ◌≤◌, ◌<◌, ◌≡◌, ◌≢◌, refl, arith, ◌==◌, ◌∙◌, ◌&&◌, if◌then◌else◌, Bool-cases,
  inl, inr, for_range, for_range_inv, sweep, sweep_lem, ap, ne→==_false,
}
use os_project03_thread.Kernel.State.{Kernel, zombie, nproc}
use os_project03_thread.Kernel.Run.{
  switched, IsOpen, IsLocked, acquire-entered, entered, entered-IsLocked, sched-switched, set_proc,
}
use os_project03_thread.Proc.Sleep.{wake, wakeup1}
use os_project03_thread.Proc.Exit.Spared.{Spared, Spared-same, wakeup1-Spared, pass_child-Spared}
use os_project03_thread.Proc.Exit.{pass_child, end_round, exit_table, exit_locked}
use os_project03_thread.Proc.Locking.Table.{exit_table-IsLocked, exit_table-stops}

module _ {M : Type 0} where
  -- `wakeup1` changes the states of sleepers and nothing else.
  wakeup1-rest :
      (chan : ℕ) (k : Kernel M) (j : ℕ)
      → (((wakeup1 chan k).proc j).parent ≡ (k.proc j).parent)
        × (((wakeup1 chan k).proc j).share_ptr ≡ (k.proc j).share_ptr)
  unfolding wakeup1 wake
  wakeup1-rest chan k j = ground (arith, sweep_lem (wake chan) nproc 1 k.proc j)

  -- A row's shared data through the loop over the children.
  pass_child-share :
      (cur p j : ℕ) (k : Kernel M) → ((pass_child cur p k).proc j).share_ptr ≡ (k.proc j).share_ptr
  unfolding pass_child
  pass_child-share cur p j k =
      ground
        (arith, wakeup1-rest k.initproc (set_proc p (λ r. record r { parent = k.initproc }) k) j)

  pass_child-parent :
      (cur p j : ℕ) (k : Kernel M)
      → ((pass_child cur p k).initproc ≡ k.initproc)
        × (((pass_child cur p k).proc j).parent
            ≡ (if (j == p) && ((k.proc j).parent == cur) then k.initproc else (k.proc j).parent))
  unfolding pass_child wakeup1
  pass_child-parent cur p j k = (ground arith, ground (arith, unfold_wake))
    where
      k₁ : Kernel M
      k₁ = set_proc p (λ r. record r { parent = k.initproc }) k

      unfold_wake : (sweep (wake k.initproc) nproc 1 k₁.proc j).parent ≡ (k₁.proc j).parent
      unfold_wake = (wakeup1-rest k.initproc k₁ j).0

  pass_loop-share :
      (cur j n i : ℕ) (k : Kernel M)
      → ((for_range (pass_child cur) n i k).proc j).share_ptr ≡ (k.proc j).share_ptr
  pass_loop-share cur j n i k =
      for_range_inv (λ t. (t.proc j).share_ptr ≡ (k.proc j).share_ptr) (pass_child cur) n i k
        (λ p t h. pass_child-share cur p j t ∙ h) refl

  pass_loop-parent :
      (cur n i : ℕ) (k : Kernel M) (j : ℕ)
      → k.initproc ≢ cur
      → i ≤ j
      → j < i + n
      → ((for_range (pass_child cur) n i k).proc j).parent ≢ cur
  unfolding for_range
  pass_loop-parent cur zero i k j ne a b = absurd (omega arith)
  pass_loop-parent cur (suc n) i k j ne a b = elim (Bool-cases (j == i)) [
    | inl e ↦
        (for_range_inv (λ t. (t.initproc ≢ cur) × ((t.proc j).parent ≢ cur)) (pass_child cur) n
          (i + 1) (pass_child cur i k) (λ p t h. ground (arith, pass_child-parent cur p j t))
          (ground (arith, pass_child-parent cur i j k))).1
    | inr e ↦
        pass_loop-parent cur n (i + 1) (pass_child cur i k) j
          (ground (arith, pass_child-parent cur i j k)) (ground arith) (omega arith)
  ]

  -- One round of the loop over the threads.
  end_round-share :
      (cur i j : ℕ) (k : Kernel M) → ((end_round cur i k).proc j).share_ptr ≡ (k.proc j).share_ptr
  unfolding end_round
  end_round-share cur i j k = ground arith

  end_round-parent :
      (cur i j : ℕ) (k : Kernel M) → ((end_round cur i k).proc j).parent ≡ (k.proc j).parent
  unfolding end_round
  end_round-parent cur i j k = ground arith

  end_round-zombie :
      (cur i j : ℕ) (k : Kernel M)
      → (k.proc j).state ≡ zombie
      → ((end_round cur i k).proc j).state ≡ zombie
  unfolding end_round
  end_round-zombie cur i j k h = ground arith

  end_round_self :
      (cur j : ℕ) (k : Kernel M)
      → (k.proc j).share_ptr ≡ (k.proc cur).share_ptr
      → j ≢ cur
      → ((end_round cur j k).proc j).state ≡ zombie
  unfolding end_round
  end_round_self cur j k h ne = ground arith

  end_round-other :
      (cur i j : ℕ) (k : Kernel M)
      → (k.proc j).share_ptr ≢ (k.proc cur).share_ptr
      → (end_round cur i k).proc j ≡ k.proc j
  unfolding end_round
  end_round-other cur i j k ne = ground arith

  end_loop-zombie :
      (cur n i : ℕ) (k : Kernel M) (j : ℕ)
      → i ≤ j
      → j < i + n
      → (k.proc j).share_ptr ≡ (k.proc cur).share_ptr
      → j ≢ cur
      → ((for_range (end_round cur) n i k).proc j).state ≡ zombie
  unfolding for_range
  end_loop-zombie cur zero i k j a b h ne = absurd (omega arith)
  end_loop-zombie cur (suc n) i k j a b h ne = elim (Bool-cases (j == i)) [
    | inl e ↦
        let q : i ≡ j = ground arith in
        for_range_inv (λ t. (t.proc j).state ≡ zombie) (end_round cur) n (i + 1) (end_round cur i k)
          (λ p t. end_round-zombie cur p j t) (rw q (end_round_self cur j k h ne))
    | inr e ↦
        end_loop-zombie cur n (i + 1) (end_round cur i k) j (ground arith) (omega arith)
          (rw (end_round-share cur i j k, end_round-share cur i cur k) h) ne
  ]

  end_loop-parent :
      (cur n i : ℕ) (k : Kernel M) (j : ℕ)
      → ((for_range (end_round cur) n i k).proc j).parent ≡ (k.proc j).parent
  end_loop-parent cur n i k j =
      for_range_inv (λ t. (t.proc j).parent ≡ (k.proc j).parent) (end_round cur) n i k
        (λ p t h. end_round-parent cur p j t ∙ h) refl

  -- The kernel before the loop over the threads.
  passed : ℕ → Kernel M → Kernel M
  passed cur k = for_range (pass_child cur) nproc 1 (wakeup1 (k.proc cur).parent k)

  passed-share :
      (cur j : ℕ) (k : Kernel M) → ((passed cur k).proc j).share_ptr ≡ (k.proc j).share_ptr
  unfolding passed
  passed-share cur j k =
      pass_loop-share cur j nproc 1 (wakeup1 (k.proc cur).parent k)
      ∙ (wakeup1-rest (k.proc cur).parent k j).1

  passed-parent :
      (cur j : ℕ) (k : Kernel M)
      → k.initproc ≢ cur
      → 1 ≤ j
      → j ≤ nproc
      → ((passed cur k).proc j).parent ≢ cur
  unfolding passed wakeup1
  passed-parent cur j k ne a b =
      pass_loop-parent cur nproc 1 (wakeup1 (k.proc cur).parent k) j ne a (omega arith)

  exit_table_self : (cur : ℕ) (k : Kernel M) → ((exit_table cur k).proc cur).state ≡ zombie
  unfolding exit_table
  exit_table_self cur k = ground arith

  exit_table-threads :
      (cur j : ℕ) (k : Kernel M)
      → 1 ≤ j
      → j ≤ nproc
      → (k.proc j).share_ptr ≡ (k.proc cur).share_ptr
      → ((exit_table cur k).proc j).state ≡ zombie
  unfolding exit_table passed
  exit_table-threads cur j k a b h = ground (
    arith,
    passed-share cur j k,
    passed-share cur cur k,
    end_loop-zombie cur nproc 1 (passed cur k) j,
  )

  exit_table-children :
      (cur j : ℕ) (k : Kernel M)
      → k.initproc ≢ cur
      → 1 ≤ j
      → j ≤ nproc
      → ((exit_table cur k).proc j).parent ≢ cur
  unfolding exit_table passed
  exit_table-children cur j k ne a b =
      ground (arith, passed-parent cur j k, end_loop-parent cur nproc 1 (passed cur k) j)

  passed-Spared :
      (cur j : ℕ) (k : Kernel M) → Spared cur k.initproc (k.proc j) ((passed cur k).proc j)
  unfolding passed wakeup1
  passed-Spared cur j k =
      (for_range_inv (λ t. (t.initproc ≡ k.initproc) × Spared cur k.initproc (k.proc j) (t.proc j))
        (pass_child cur) nproc 1 (wakeup1 (k.proc cur).parent k)
        (λ p t h. (
          (pass_child-parent cur p j t).0 ∙ h.0,
          pass_child-Spared cur k.initproc (k.proc j) p j t h.0 h.1,
        ))
        (
          refl,
          wakeup1-Spared cur k.initproc (k.proc j) (k.proc cur).parent j k
              (Spared-same cur k.initproc (k.proc j)),
        )).1

  end_loop-others :
      (cur j : ℕ) (k : Kernel M)
      → (k.proc j).share_ptr ≢ (k.proc cur).share_ptr
      → (for_range (end_round cur) nproc 1 k).proc j ≡ k.proc j
  end_loop-others cur j k ne =
      (for_range_inv
        (λ t. ((t.proc cur).share_ptr ≡ (k.proc cur).share_ptr) × (t.proc j ≡ k.proc j))
        (end_round cur) nproc 1 k
        (λ p t h.
          (end_round-share cur p cur t ∙ h.0, end_round-other cur p j t (rw (h.0, h.1) ne) ∙ h.1))
        (refl, refl)).1

  exit_table-others :
      (cur j : ℕ) (k : Kernel M)
      → (k.proc j).share_ptr ≢ (k.proc cur).share_ptr
      → Spared cur k.initproc (k.proc j) ((exit_table cur k).proc j)
  unfolding exit_table passed
  exit_table-others cur j k ne =
      let away : j ≢ cur = λ e. ne (ap (λ i. (k.proc i).share_ptr) e) in
      let still : ((passed cur k).proc j).share_ptr ≢ ((passed cur k).proc cur).share_ptr =
        rw (passed-share cur j k, passed-share cur cur k) ne in
      rw (ne→==_false away, end_loop-others cur j (passed cur k) still) (passed-Spared cur j k)

  -- What `exit` has done to the table when it leaves the CPU for good.
  pub record Ended (cur : ℕ) (k k' : Kernel M) : Type 0 where
    pub locked : IsLocked k'
    pub self : (k'.proc cur).state ≡ zombie
    pub threads :
        (j : ℕ)
        → 1 ≤ j
        → j ≤ nproc
        → (k.proc j).share_ptr ≡ (k.proc cur).share_ptr
        → (k'.proc j).state ≡ zombie
    pub children : (j : ℕ) → 1 ≤ j → j ≤ nproc → (k'.proc j).parent ≢ cur
    pub others :
        (j : ℕ)
        → (k.proc j).share_ptr ≢ (k.proc cur).share_ptr
        → Spared cur k.initproc (k.proc j) (k'.proc j)

  -- From its acquire on, with the lock free before, `exit` makes a ZOMBIE of every entry that shares the
  -- data of the process, itself included, and leaves no entry with the process as its parent; then it
  -- leaves the CPU inside the lock. An entry that does not share the data keeps all its fields, but
  -- that a sleeper may be RUNNABLE, and that a child of the process is a child of init. This holds for
  -- every process but init.
  pub exit-Ended :
      (A : Type 0) (cur : ℕ) (k : Kernel M)
      → IsOpen k
      → k.initproc ≢ cur
      → (k' : Kernel M) × (exit_locked {A = A} cur k ≡ switched k') × Ended cur k k'
  unfolding exit_locked
  exit-Ended A cur k h ne =
      let locked = exit_table-IsLocked cur (entered k) (entered-IsLocked k h) in
      (
        exit_table cur (entered k),
        rw (
          acquire-entered k h,
          sched-switched {A = A} cur (exit_table cur (entered k)) locked
              (exit_table-stops cur (entered k)),
        ),
        record {
          locked = locked;
          self = exit_table_self cur (entered k);
          threads = λ j a b e. exit_table-threads cur j (entered k) a b e;
          children = λ j a b. exit_table-children cur j (entered k) ne a b;
          others = λ j n. exit_table-others cur j (entered k) n;
        },
      )

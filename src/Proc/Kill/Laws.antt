-- ===== src/Proc/Kill/Laws.antt =====
-- kill marks the threads that the shared data list; sys_kill marks all entries that share the data.
use os_project03_thread.Common.{
  ℕ, zero, suc, ◌+◌, ◌≤◌, ◌<◌, ◌≡◌, ◌≢◌, inl, inr, refl, ap, ◌⊎◌, true, false, arith, ◌==◌, ◌∙◌,
  ◌&&◌, leb, ltb, if◌then◌else◌, Bool-cases, ==_refl, eq→==_true, some, none, for_range,
  for_range_inv, sweep_lem,
}
use os_project03_thread.Kernel.State.{Kernel, Proc, is_sleeping, runnable, nproc, max_threads}
use os_project03_thread.Kernel.Run.{
  ok, IsOpen, IsLocked, acquire-entered, entered, entered-IsLocked, release-left, left,
}
use os_project03_thread.Proc.Kill.{
  mark_killed, roused, find_pid, kill_round, kill, kill_sharer, kill_sharers, sys_kill,
}
use os_project03_thread.Proc.Locking.Table.{kill_loop-IsLocked}

-- The entry `q` is `p` marked as killed: a sleeper is RUNNABLE, another state and all other fields
-- stay.
pub record IsDoomed (p q : Proc) : Type 0 where
  pub killed : q.killed ≡ 1
  pub woken : is_sleeping p.state ≡ true → q.state ≡ runnable
  pub kept : is_sleeping p.state ≡ false → q.state ≡ p.state
  pub rest : q ≡ record p { killed = q.killed; state = q.state }

mark_killed-IsDoomed : (p : Proc) → IsDoomed p (mark_killed p)
unfolding mark_killed
mark_killed-IsDoomed p = record {
  killed = refl;
  woken = λ h. ground arith;
  kept = λ h. ground arith;
  rest = refl;
}

-- Marking twice is marking once.
mark_killed_again : (p q : Proc) → IsDoomed p q → IsDoomed p (mark_killed q)
unfolding mark_killed
mark_killed_again p q h = record {
  killed = refl;
  woken = λ a. ground (arith, h.woken a);
  kept = λ a. ground (arith, h.kept a);
  rest = ap {A = Proc} {B = Proc} (λ r. record r { killed = 1; state = roused q.state }) h.rest;
}

-- An entry that is as it was, or marked, is so after a round.
abbrev IsTouched : Proc → Proc → Type 0
IsTouched old q = (q ≡ old) ⊎ IsDoomed old q

marked : (old q : Proc) → IsTouched old q → IsDoomed old (mark_killed q)
marked old q (inl e) = rw e (mark_killed-IsDoomed old)
marked old q (inr h) = mark_killed_again old q h

module _ {M : Type 0} (p : ℕ) where
  -- the thread at index `i` of the process at `p`
  abbrev pub thread_of : Kernel M → ℕ → ℕ
  thread_of k i = (k.shared (k.proc p).share_ptr).threads i

  kill_round-IsDoomed :
      (old : Proc) (j i : ℕ) (k : Kernel M)
      → IsDoomed old (k.proc j)
      → IsDoomed old ((kill_round p i k).proc j)
  unfolding kill_round
  kill_round-IsDoomed old j i k h = ground (arith, mark_killed_again old (k.proc j) h)

  kill_round-IsTouched :
      (old : Proc) (j i : ℕ) (k : Kernel M)
      → IsTouched old (k.proc j)
      → IsTouched old ((kill_round p i k).proc j)
  unfolding kill_round
  kill_round-IsTouched old j i k h = elim (Bool-cases (thread_of k i == j)) [
    | inl e ↦
        let q : thread_of k i ≡ j = ground arith in
        elim (Bool-cases ((k.proc j).pid == 0)) [
          | inl f ↦ rw (q, f) h
          | inr f ↦ rw (q, f, ==_refl j) (inr (marked old (k.proc j) h))
        ]
    | inr e ↦ ground (arith, h)
  ]

  kill_round-listed :
      (i m : ℕ) (k : Kernel M)
      → (thread_of (kill_round p i k) m ≡ thread_of k m)
        × (((kill_round p i k).proc (thread_of k m)).pid ≡ (k.proc (thread_of k m)).pid)
  unfolding kill_round mark_killed
  kill_round-listed i m k = (ground arith, ground arith)

  kill_round_self :
      (old : Proc) (i : ℕ) (k : Kernel M)
      → (k.proc (thread_of k i)).pid ≢ 0
      → IsTouched old (k.proc (thread_of k i))
      → IsDoomed old ((kill_round p i k).proc (thread_of k i))
  unfolding kill_round
  kill_round_self old i k h t = ground (arith, marked old (k.proc (thread_of k i)) t)

  kill_loop-IsDoomed :
      (old : Proc) (n i m : ℕ) (k : Kernel M)
      → i ≤ m
      → m < i + n
      → (k.proc (thread_of k m)).pid ≢ 0
      → IsTouched old (k.proc (thread_of k m))
      → IsDoomed old ((for_range (kill_round p) n i k).proc (thread_of k m))
  unfolding for_range
  kill_loop-IsDoomed old zero i m k a b h t = absurd (omega arith)
  kill_loop-IsDoomed old (suc n) i m k a b h t = elim (Bool-cases (i == m)) [
    | inl e ↦
        let q : m ≡ i = ground arith in
        for_range_inv (λ u. IsDoomed old (u.proc (thread_of k m))) (kill_round p) n (i + 1)
          (kill_round p i k) (kill_round-IsDoomed old (thread_of k m))
          (rw q (kill_round_self old i k (rw q at h) (rw q at t)))
    | inr e ↦
        let same = kill_round-listed i m k in
        rw (← same.0) (
          kill_loop-IsDoomed old n (i + 1) m (kill_round p i k) (ground arith) (omega arith)
            (rw (same.0, same.1) h) (rw same.0 (kill_round-IsTouched old (thread_of k m) i k t)))
  ]

  kill_round-other :
      (j i : ℕ) (k : Kernel M)
      → (thread_of k i ≡ j → (k.proc j).pid ≡ 0)
      → (kill_round p i k).proc j ≡ k.proc j
  unfolding kill_round
  kill_round-other j i k h = elim (Bool-cases (thread_of k i == j)) [
    | inl e ↦
        let q : thread_of k i ≡ j = ground arith in
        let none_there : ((k.proc j).pid == 0) ≡ true = eq→==_true (h q) in rw (q, none_there) refl
    | inr e ↦ ground arith
  ]

  kill_loop-others :
      (j n i : ℕ) (k : Kernel M)
      → ((m : ℕ) → i ≤ m → m < i + n → thread_of k m ≡ j → (k.proc j).pid ≡ 0)
      → (for_range (kill_round p) n i k).proc j ≡ k.proc j
  unfolding for_range
  kill_loop-others j zero i k h = refl
  kill_loop-others j (suc n) i k h =
      let same = kill_round-other j i k (h i (omega arith) (omega arith)) in
      kill_loop-others j n (i + 1) (kill_round p i k)
        (λ m a b. rw ((kill_round-listed i m k).0, same) (h m (omega arith) (omega arith)))
      ∙ same

module _ {M : Type 0} (k : Kernel M) (pid : ℕ) (open_k : IsOpen k) where
  -- With the lock free before, `kill` of a known pid returns 0 with the lock free. Every entry with a
  -- nonzero pid that a pointer in the `threads` array of the process found leads to, whatever
  -- `isThere` says, is marked: killed is 1, a SLEEPING entry is RUNNABLE and another state stays, and
  -- so do the other fields. An entry with pid 0, or that no pointer of the array leads to, does not
  -- change.
  pub kill-IsDoomed :
      (p : ℕ)
      → find_pid k.proc pid ≡ some p
      → (k' : Kernel M) × (kill pid k ≡ ok true k')
        × IsOpen k'
        × ((m : ℕ)
            → m < max_threads
            → (k.proc (thread_of p k m)).pid ≢ 0
            → IsDoomed (k.proc (thread_of p k m)) (k'.proc (thread_of p k m)))
        × ((j : ℕ)
            → ((m : ℕ) → m < max_threads → thread_of p k m ≡ j → (k.proc j).pid ≡ 0)
            → k'.proc j ≡ k.proc j)
  unfolding kill
  kill-IsDoomed p e = (
    left (for_range (kill_round p) max_threads 0 (entered k)),
    rw (
      acquire-entered k open_k,
      e,
      release-left (for_range (kill_round p) max_threads 0 (entered k))
          (kill_loop-IsLocked p (entered k) (entered-IsLocked k open_k)),
    ),
    ground arith,
    λ m a h.
        kill_loop-IsDoomed p (k.proc (thread_of p k m)) max_threads 0 m (entered k) (omega arith)
          (omega arith) h (inl refl),
    λ j h. kill_loop-others p j max_threads 0 (entered k) (λ m a b. h m (omega arith)),
  )

  -- An unknown pid is refused: -1, with the lock free and the table as it was.
  pub kill-none :
      find_pid k.proc pid ≡ none
      → (k' : Kernel M) × (kill pid k ≡ ok false k') × IsOpen k' × (k'.proc ≡ k.proc)
  unfolding kill
  kill-none e = (
    left (entered k),
    rw (acquire-entered k open_k, e, release-left (entered k) (entered-IsLocked k open_k)),
    ground arith,
    refl,
  )

  -- With the lock free before, `sys_kill` of a known pid returns 0 with the lock free. The entries of
  -- the table whose shared data is that of the process found are marked: killed is 1, a SLEEPING entry
  -- is RUNNABLE and another state stays, and so do the other fields. No other entry changes.
  pub sys_kill-sharers :
      (p : ℕ)
      → find_pid k.proc pid ≡ some p
      → (k' : Kernel M) × (sys_kill (some pid) k ≡ ok true k')
        × IsOpen k'
        × ((j : ℕ)
            → 1 ≤ j
            → j ≤ nproc
            → (k.proc j).share_ptr ≡ (k.proc p).share_ptr
            → IsDoomed (k.proc j) (k'.proc j))
        × ((j : ℕ) → (k.proc j).share_ptr ≢ (k.proc p).share_ptr → k'.proc j ≡ k.proc j)
  unfolding sys_kill kill_sharers kill_sharer
  sys_kill-sharers p e = (
    left marked,
    rw (acquire-entered k open_k, e, release-left marked (ground arith)),
    ground arith,
    λ j a b h. ground (arith, row j, mark_killed-IsDoomed (k.proc j)),
    λ j h. ground (arith, row j),
  )
    where
      marked : Kernel M
      marked = kill_sharers (k.proc p).share_ptr (entered k)

      row :
          (j : ℕ)
          → marked.proc j ≡ (
              if leb 1 j && ltb j (1 + nproc)
              then kill_sharer (k.proc p).share_ptr (k.proc j)
              else k.proc j)
      row j = sweep_lem (kill_sharer (k.proc p).share_ptr) nproc 1 k.proc j

-- When `argint` fails, `sys_kill` returns -1 inside the lock: it stays held, with interrupts off.
pub sys_kill_keeps_lock :
    {M : Type 0} (k : Kernel M)
    → IsOpen k
    → (k' : Kernel M) × (sys_kill none k ≡ ok false k') × IsLocked k'
unfolding sys_kill
sys_kill_keeps_lock k h = (entered k, rw (acquire-entered k h), entered-IsLocked k h)

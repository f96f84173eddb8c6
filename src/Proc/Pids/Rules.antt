-- ===== src/Proc/Pids/Rules.antt =====
-- Process identifiers in use are pairwise different, and below the next one.
use os_project03_thread.Common.{
  ℕ, ◌+◌, ◌^◌, ◌≤◌, ◌<◌, ◌≡◌, ◌⊎◌, arith, sweep_lem, for_range, for_range_inv,
}
use os_project03_thread.Kernel.State.{Kernel, Proc, nproc, max_threads, sleeping}
use os_project03_thread.Kernel.Run.{
  Run, ok, switched, spinning, panic, Cmd, and_then, release, sched, set_proc,
}
use os_project03_thread.Kernel.Ends.{Ends, bind}
use os_project03_thread.Proc.Alloc.{claim}
use os_project03_thread.Proc.Sleep.{wake, wakeup1, sleep}
use os_project03_thread.Proc.Exit.{pass_child, end_round, exit_table}
use os_project03_thread.Proc.Thread.{exit_thread, thread_at, master_index}
use os_project03_thread.Proc.Kill.{mark_killed, kill_round, kill_sharer, kill_sharers}

-- `t` is the table and `next` the value of `nextpid`; the entries are those at 1, …, NPROC.
pub record Pids (t : ℕ → Proc) (next : ℕ) : Type 0 where
  pub positive : 0 < next
  pub below : (p : ℕ) → 1 ≤ p → p ≤ nproc → (t p).pid < next
  pub distinct :
      (p q : ℕ)
      → 1 ≤ p
      → p ≤ nproc
      → 1 ≤ q
      → q ≤ nproc
      → (t p).pid ≡ (t q).pid
      → ((t p).pid ≡ 0) ⊎ (p ≡ q)

abbrev pub HasPids : {M : Type 0} → Kernel M → Type 0
HasPids k = Pids k.proc k.next_pid

-- Of one entry `p` that had the identifier `v`, while `nextpid` was `next`: it still has it, or it
-- has been cleared, and the counter stands where it stood.
abbrev pub Kept : {M : Type 0} → ℕ → ℕ → ℕ → Kernel M → Type 0
Kept p next v k = (k.next_pid ≡ next) × (((k.proc p).pid ≡ v) ⊎ ((k.proc p).pid ≡ 0))

abbrev pub Keeps : {M A : Type 0} → ℕ → ℕ → ℕ → Run M A → Type 0
Keeps p next v = Ends (λ _. Kept p next v) (Kept p next v)

-- Whatever the call comes to, the identifiers are in order.
abbrev pub PidsEnd : {M A : Type 0} → Run M A → Type 0
PidsEnd = Ends (λ _. HasPids) HasPids

-- One part of a call after another.
pub then-Kept :
    {M A B : Type 0} (p n v : ℕ) (r : Run M A) (f : A → Cmd M B)
    → Keeps p n v r
    → ((a : A) (k : Kernel M) → Kept p n v k → Keeps p n v (f a k))
    → Keeps p n v (and_then r f)
then-Kept p n v r f = bind (λ _. Kept p n v) (Kept p n v) (λ _. Kept p n v) r f

module _ {M : Type 0} where
  -- Where every entry keeps its identifier or loses it, the identifiers stay in order.
  pub HasPids-keep :
      (k k' : Kernel M) → ((p : ℕ) → Kept p k.next_pid (k.proc p).pid k') → HasPids k → HasPids k'
  HasPids-keep k k' keep h = record {
    positive = ground (arith, keep 0, h.positive);
    below = λ p a b. ground (arith, keep p, h.below p, h.positive);
    distinct = λ p q a b c d e. ground (arith, keep p, keep q, h.distinct p q);
  }

  pub PidsEnd-Keeps :
      {A : Type 0} (k : Kernel M) (r : Run M A)
      → HasPids k
      → ((p : ℕ) → Keeps p k.next_pid (k.proc p).pid r)
      → PidsEnd r
  PidsEnd-Keeps k (ok a k') h keep = HasPids-keep k k' keep h
  PidsEnd-Keeps k (switched k') h keep = HasPids-keep k k' keep h
  PidsEnd-Keeps k spinning h keep = keep 0
  PidsEnd-Keeps k panic h keep = tt

  -- `p->pid = nextpid++` keeps the identifiers in order as long as the counter does not wrap.
  pub claim-HasPids :
      (p : ℕ) (k : Kernel M) → k.next_pid + 1 < 2 ^ 32 → HasPids k → HasPids (claim p k)
  unfolding claim
  claim-HasPids p k small h = record {
    positive = ground (arith, h.positive);
    below = λ q a b. ground (arith, h.below q);
    distinct = λ q r a b c d e. ground (arith, h.below q, h.below r, h.distinct q r);
  }

  -- The changes of the table under the lock, and the lock itself.
  module _ (p n v : ℕ) where
    pub wakeup1-Kept : (chan : ℕ) (k : Kernel M) → Kept p n v k → Kept p n v (wakeup1 chan k)
    unfolding wakeup1 wake
    wakeup1-Kept chan k h = ground (arith, sweep_lem (wake chan) nproc 1 k.proc p)

    pub kill_sharers-Kept : (a : ℕ) (k : Kernel M) → Kept p n v k → Kept p n v (kill_sharers a k)
    unfolding kill_sharers kill_sharer mark_killed
    kill_sharers-Kept a k h = ground (arith, sweep_lem (kill_sharer a) nproc 1 k.proc p)

    kill_round-Kept : (q i : ℕ) (k : Kernel M) → Kept p n v k → Kept p n v (kill_round q i k)
    unfolding kill_round mark_killed
    kill_round-Kept q i k h = ground arith

    pub kill_loop-Kept :
        (q : ℕ) (k : Kernel M)
        → Kept p n v k
        → Kept p n v (for_range (kill_round q) max_threads 0 k)
    kill_loop-Kept q k h =
        for_range_inv (Kept p n v) (kill_round q) max_threads 0 k (kill_round-Kept q) h

    pass_child-Kept : (cur q : ℕ) (k : Kernel M) → Kept p n v k → Kept p n v (pass_child cur q k)
    unfolding pass_child
    pass_child-Kept cur q k h =
        ground
          (arith, wakeup1-Kept k.initproc (set_proc q (λ r. record r { parent = k.initproc }) k))

    end_round-Kept : (cur q : ℕ) (k : Kernel M) → Kept p n v k → Kept p n v (end_round cur q k)
    unfolding end_round
    end_round-Kept cur q k h = ground arith

    pub exit_table-Kept : (cur : ℕ) (k : Kernel M) → Kept p n v k → Kept p n v (exit_table cur k)
    unfolding exit_table
    exit_table-Kept cur k h = ground (arith, ended)
      where
        passed : Kept p n v (for_range (pass_child cur) nproc 1 (wakeup1 (k.proc cur).parent k))
        passed =
            for_range_inv (Kept p n v) (pass_child cur) nproc 1 _ (pass_child-Kept cur)
              (wakeup1-Kept _ k h)

        ended : Kept p n v (
            for_range
              (end_round cur)
              nproc
              1
              (for_range (pass_child cur) nproc 1 (wakeup1 (k.proc cur).parent k)))
        ended = for_range_inv (Kept p n v) (end_round cur) nproc 1 _ (end_round-Kept cur) passed

    pub exit_thread-Kept :
        (cur retval : ℕ) (k : Kernel M) → Kept p n v k → Kept p n v (exit_thread cur retval k)
    unfolding exit_thread
    exit_thread-Kept cur retval k h =
        let s = k.shared (k.proc cur).share_ptr in
        ground (arith, wakeup1-Kept (thread_at s (master_index k.proc s)) k)

    pub release-Keeps : (k : Kernel M) → Kept p n v k → Keeps p n v (release k)
    unfolding release
    release-Keeps k h = ground arith

    pub sched-Keeps :
        (A : Type 0) (cur : ℕ) (k : Kernel M) → Kept p n v k → Keeps p n v (sched {A = A} cur k)
    unfolding sched
    sched-Keeps A cur k h = ground arith

    pub sleep-Keeps :
        (A : Type 0) (cur chan : ℕ) (k : Kernel M)
        → Kept p n v k
        → Keeps p n v (sleep {A = A} cur chan k)
    unfolding sleep
    sleep-Keeps A cur chan k h = ground (
      arith,
      sched-Keeps A cur (set_proc cur (λ r. record r { chan = chan; state = sleeping }) k),
    )

-- ===== src/Proc/Thread/Group.antt =====
-- The list of threads in the shared data of a process, and its free indices.
use os_project03_thread.Common.{
  ℕ, ◌≡◌, ◌≢◌, ◌<◌, find_from-some, find_from_first, arith, none, some, ◌==◌,
}
use os_project03_thread.Kernel.State.{Kernel, SharedData, max_threads}
use os_project03_thread.Proc.Thread.{free_index, add32, enlist}

-- The group `s'` has the thread `np` at the index `i`, which was free in `s`, and counts one more.
pub record Listed (i np : ℕ) (s s' : SharedData) : Type 0 where
  pub was_free : (i < max_threads) × (s.is_there i ≡ 0)
  pub first : (j : ℕ) → j < i → s.is_there j ≢ 0
  pub listed : (s'.is_there i ≡ 1) × (s'.threads i ≡ np)
  pub count : s'.num_of_thread ≡ add32 s.num_of_thread 1
  pub rest : (j : ℕ) → j ≢ i → (s'.is_there j ≡ s.is_there j) × (s'.threads j ≡ s.threads j)

-- The size of the address space plays no part in the list.
pub relist :
    (i np z : ℕ) (s s' : SharedData) → Listed i np (record s { sz = z }) s' → Listed i np s s'
relist i np z s s' h = record {
  was_free = h.was_free;
  first = h.first;
  listed = h.listed;
  count = h.count;
  rest = h.rest;
}

pub free_index-some :
    (s : SharedData) (i : ℕ)
    → free_index s ≡ some i
    → (i < max_threads) × (s.is_there i ≡ 0) × ((j : ℕ) → j < i → s.is_there j ≢ 0)
unfolding free_index
free_index-some s i h = (
  (find_from-some (λ j. s.is_there j == 0) max_threads 0 i h).1,
  ground (arith, find_from-some (λ j. s.is_there j == 0) max_threads 0 i h),
  λ j b. ground (arith, find_from_first (λ m. s.is_there m == 0) max_threads 0 i j h),
)

module _ {M : Type 0} (np : ℕ) (k : Kernel M) where
  pub enlist-Listed :
      (i : ℕ)
      → free_index (k.shared (k.proc np).share_ptr) ≡ some i
      → (((enlist np k).proc np).order_of_thread ≡ i)
        × Listed i np (k.shared (k.proc np).share_ptr) ((enlist np k).shared (k.proc np).share_ptr)
  unfolding enlist
  enlist-Listed i h = (
    ground arith,
    record {
      was_free = (found.0, found.1);
      first = found.2;
      listed = (ground arith, ground arith);
      count = ground arith;
      rest = λ j n. (ground arith, ground arith);
    },
  )
    where
      found :
          (i < max_threads)
          × ((k.shared (k.proc np).share_ptr).is_there i ≡ 0)
          × ((j : ℕ) → j < i → (k.shared (k.proc np).share_ptr).is_there j ≢ 0)
      found = free_index-some (k.shared (k.proc np).share_ptr) i h

  pub enlist-full : free_index (k.shared (k.proc np).share_ptr) ≡ none → enlist np k ≡ k
  unfolding enlist
  enlist-full h = ground arith

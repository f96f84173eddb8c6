-- ===== src/Bakery.antt =====
-- pthread_lock_linux.c: Lamport's bakery lock, as the threads of its test program use it. A step is
-- one access of a thread to the shared arrays or to the shared counter; the threads are interleaved
-- in any order.
pub mod Claims
pub mod Keeps
pub mod Own
pub mod Safety
pub mod Counter
pub mod Runs
use os_project03_thread.Common.{
  ℕ, ◌+◌, ◌≤◌, ◌<◌, ◌≡◌, ◌≢◌, ◌⊎◌, if◌then◌else◌, ltb, ◌==◌, ◌&&◌, List, [], ◌∷◌, update,
}

abbrev pub num_threads : ℕ
num_threads = 10

abbrev pub num_iters : ℕ
num_iters = 10

-- The shared variables.
pub record Shared : Type 0 where
  pub number : ℕ → ℕ
  pub choosing : ℕ → ℕ
  pub shared_resource : ℕ

-- Where a thread stands in `thread_func`. In `lock`: at the start; in `max` before its first read,
-- with `p` elements
-- read and `x` for max_value, and before the second read of `array[p]`, which max_value is set to
-- after the first was larger; after `number[tid]` is set; in round `j`, before
-- the test of `choosing[j]`, and before each of the reads of `number[j]` of the second loop. Then
-- with `k` increments done, and with the counter read for one more; and after `unlock`.
pub data Pc : Type 0 where
  idle calls_max : Pc
  scan : ℕ → ℕ → Pc
  rereads : ℕ → Pc
  announced : Pc
  look see_zero see_less see_tie : ℕ → Pc
  inside : ℕ → Pc
  adding : ℕ → ℕ → Pc
  finished : Pc

-- A step of thread `tid`.
pub data Move (tid : ℕ) : Shared → Pc → Shared → Pc → Type 0 where
  starts :
      {m : Shared} → Move tid m idle (record m { choosing = update m.choosing tid 1 }) calls_max
  reads_first : {m : Shared} → Move tid m calls_max m (scan 1 (m.number 0))
  reads_smaller :
      {m : Shared} {p x : ℕ}
      → p < num_threads
      → m.number p ≤ x
      → Move tid m (scan p x) m (scan (p + 1) x)
  reads_larger :
      {m : Shared} {p x : ℕ}
      → p < num_threads
      → x < m.number p
      → Move tid m (scan p x) m (rereads p)
  reads_again : {m : Shared} {p : ℕ} → Move tid m (rereads p) m (scan (p + 1) (m.number p))
  takes :
      {m : Shared} {p x : ℕ}
      → num_threads ≤ p
      → Move tid m (scan p x) (record m { number = update m.number tid (1 + x) }) announced
  opens :
      {m : Shared} → Move tid m announced (record m { choosing = update m.choosing tid 0 }) (look 0)
  waits_door : {m : Shared} {j : ℕ} → m.choosing j ≢ 0 → Move tid m (look j) m (look j)
  passes_door :
      {m : Shared} {j : ℕ} → j < num_threads → m.choosing j ≡ 0 → Move tid m (look j) m (see_zero j)
  sees_zero : {m : Shared} {j : ℕ} → m.number j ≡ 0 → Move tid m (see_zero j) m (look (j + 1))
  sees_number : {m : Shared} {j : ℕ} → m.number j ≢ 0 → Move tid m (see_zero j) m (see_less j)
  sees_less :
      {m : Shared} {j : ℕ} → m.number j < m.number tid → Move tid m (see_less j) m (see_zero j)
  sees_more :
      {m : Shared} {j : ℕ} → m.number tid ≤ m.number j → Move tid m (see_less j) m (see_tie j)
  sees_tie :
      {m : Shared} {j : ℕ}
      → m.number j ≡ m.number tid
      → j < tid
      → Move tid m (see_tie j) m (see_zero j)
  passes :
      {m : Shared} {j : ℕ}
      → (m.number j ≢ m.number tid) ⊎ (tid ≤ j)
      → Move tid m (see_tie j) m (look (j + 1))
  enters : {m : Shared} {j : ℕ} → num_threads ≤ j → Move tid m (look j) m (inside 0)
  loads :
      {m : Shared} {k : ℕ} → k < num_iters → Move tid m (inside k) m (adding k m.shared_resource)
  stores :
      {m : Shared} {k v : ℕ}
      → Move tid m (adding k v) (record m { shared_resource = v + 1 }) (inside (k + 1))
  unlocks :
      {m : Shared} {k : ℕ}
      → num_iters ≤ k
      → Move tid m (inside k) (record m { number = update m.number tid 0 }) finished

-- The step that thread `tid` makes when it is its turn; none if it has ended.
unfoldable pub advance : ℕ → Shared → Pc → Shared × Pc
advance tid m idle = (record m { choosing = update m.choosing tid 1 }, calls_max)
advance tid m calls_max = (m, scan 1 (m.number 0))
advance tid m (scan p x) =
    if ltb p num_threads
    then (if ltb x (m.number p) then (m, rereads p) else (m, scan (p + 1) x))
    else (record m { number = update m.number tid (1 + x) }, announced)
advance tid m (rereads p) = (m, scan (p + 1) (m.number p))
advance tid m announced = (record m { choosing = update m.choosing tid 0 }, look 0)
advance tid m (look j) =
    if ltb j num_threads
    then (if m.choosing j == 0 then (m, see_zero j) else (m, look j))
    else (m, inside 0)
advance tid m (see_zero j) = if m.number j == 0 then (m, look (j + 1)) else (m, see_less j)
advance tid m (see_less j) =
    if ltb (m.number j) (m.number tid) then (m, see_zero j) else (m, see_tie j)
advance tid m (see_tie j) =
    if m.number j == m.number tid && ltb j tid then (m, see_zero j) else (m, look (j + 1))
advance tid m (inside k) =
    if ltb k num_iters
    then (m, adding k m.shared_resource)
    else (record m { number = update m.number tid 0 }, finished)
advance tid m (adding k v) = (record m { shared_resource = v + 1 }, inside (k + 1))
advance tid m finished = (m, finished)

-- The threads of `main`, after the creation of them all.
pub record System : Type 0 where
  pub mem : Shared
  pub pc : ℕ → Pc

abbrev pub init : System
init = record {
  mem = record { number = (λ i. 0); choosing = (λ i. 0); shared_resource = 0 };
  pc = (λ i. idle);
}

-- A run: the threads whose turns it is, one after the other.
unfoldable pub run : List ℕ → System → System
run [] s = s
run (tid ∷ turns) s =
    let moved = advance tid s.mem (s.pc tid) in
    run turns (record { mem = moved.0; pc = update s.pc tid moved.1 })

pub data Step (s : System) : System → Type 0 where
  pick :
      {m' : Shared} {p' : Pc} (tid : ℕ)
      → tid < num_threads
      → Move tid s.mem (s.pc tid) m' p'
      → Step s (record { mem = m'; pc = update s.pc tid p' })

pub data Reach : System → Type 0 where
  start : Reach init
  later : {s t : System} → Reach s → Step s t → Reach t

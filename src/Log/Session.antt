-- ===== src/Log/Session.antt =====
-- The sessions of the file system's operations with the log: begin_op, log_write and end_op, in any
-- order that several operations may make them. The tests of log_write may see any earlier log.
use os_project03_thread.Common.{
  ℕ, suc, ◌+◌, ◌*◌, ◌≤◌, ◌<◌, ◌≡◌, ◌≢◌, arith, List, [], ◌∷◌, true, some, length,
}
use os_project03_thread.Disk.{Store}
use os_project03_thread.Log.{
  Log, maxopblocks, logsize, begin_op, end_op, commits, wakes, end_commit, log_write,
}

-- The log, the store, and for each operation in progress the calls of `log_write` that it has left.
pub record Session : Type 0 where
  pub log : Log
  pub store : Store
  pub left : List ℕ

-- One operation uses up one of its calls.
pub data Spends : List ℕ → List ℕ → Type 0 where
  first : {k : ℕ} {ks : List ℕ} → Spends (suc k ∷ ks) (k ∷ ks)
  later : {k : ℕ} {ks js : List ℕ} → Spends ks js → Spends (k ∷ ks) (k ∷ js)

-- One operation is over.
pub data Leaves : List ℕ → List ℕ → Type 0 where
  first : {k : ℕ} {ks : List ℕ} → Leaves (k ∷ ks) ks
  later : {k : ℕ} {ks js : List ℕ} → Leaves ks js → Leaves (k ∷ ks) (k ∷ js)

-- What the operations of the file system do to the log.
pub data Step : Session → Session → Type 0 where
  begins :
      {log log' : Log} {s : Store} {ks : List ℕ}
      → begin_op log ≡ some log'
      → Step
          (record { log = log; store = s; left = ks })
          (record { log = log'; store = s; left = maxopblocks ∷ ks })
  writes :
      {log log' : Log} {s s' : Store} {ks js : List ℕ} (b : ℕ) (before : Log)
      → Spends ks js
      → log_write b before log s ≡ some (log', s')
      → Step
          (record { log = log; store = s; left = ks })
          (record { log = log'; store = s'; left = js })
  ends :
      {log log' : Log} {s : Store} {ks js : List ℕ}
      → Leaves ks js
      → end_op log ≡ wakes log'
      → Step
          (record { log = log; store = s; left = ks })
          (record { log = log'; store = s; left = js })
  ends_last :
      {log log' : Log} {s : Store} {ks js : List ℕ}
      → Leaves ks js
      → end_op log ≡ commits log'
      → Step
          (record { log = log; store = s; left = ks })
          (record { log = log'; store = s; left = js })
  finishes :
      {log : Log} {s : Store} {ks : List ℕ}
      → log.committing ≡ true
      → Step
          (record { log = log; store = s; left = ks })
          (record { log = (end_commit log s).0; store = (end_commit log s).1; left = ks })

pub data Reach (start : Session) : Session → Type 0 where
  here : Reach start start
  next : {t u : Session} → Reach start t → Step t u → Reach start u

unfoldable pub total : List ℕ → ℕ
total [] = 0
total (k ∷ ks) = k + total ks

-- No operation has more calls left than MAXOPBLOCKS.
unfoldable pub Few : List ℕ → Type 0
Few [] = Unit
Few (k ∷ ks) = (k ≤ maxopblocks) × Few ks

-- The log has room for what the operations may still write, and names each block once.
pub record IsReserved (t : Session) : Type 0 where
  pub counted : t.log.outstanding ≡ length t.left
  pub small : length t.left ≤ logsize
  pub fits : t.log.lh.n + total t.left ≤ logsize
  pub few : Few t.left
  pub idle : t.log.committing ≡ true → t.left ≡ []
  pub sized : logsize + 1 ≤ t.log.size
  pub distinct :
      (i j : ℕ) → i < t.log.lh.n → j < t.log.lh.n → i ≢ j → t.log.lh.block i ≢ t.log.lh.block j

pub Spends_lem :
    {ks js : List ℕ}
    → Spends ks js
    → (total ks ≡ total js + 1) × (length ks ≡ length js) × (0 < length ks)
unfolding total length
Spends_lem (Spends.first {k} {ks}) = (omega arith, omega arith, omega arith)
Spends_lem (Spends.later s) = let h = Spends_lem s in (omega arith, omega arith, omega arith)

pub Leaves_lem :
    {ks js : List ℕ} → Leaves ks js → (total js ≤ total ks) × (length ks ≡ length js + 1)
unfolding total length
Leaves_lem Leaves.first = (omega arith, omega arith)
Leaves_lem (Leaves.later s) = let h = Leaves_lem s in (omega arith, omega arith)

pub total-Few : (ks : List ℕ) → Few ks → total ks ≤ length ks * maxopblocks
unfolding total length Few
total-Few [] h = omega arith
total-Few (k ∷ ks) h = omega (arith, total-Few ks h.1)

pub Spends-Few : {ks js : List ℕ} → Spends ks js → Few ks → Few js
unfolding Few
Spends-Few Spends.first h = (omega arith, h.1)
Spends-Few (Spends.later s) h = (h.0, Spends-Few s h.1)

pub Leaves-Few : {ks js : List ℕ} → Leaves ks js → Few ks → Few js
unfolding Few
Leaves-Few Leaves.first h = h.1
Leaves-Few (Leaves.later s) h = (h.0, Leaves-Few s h.1)

-- ===== src/Log.antt =====
-- log.c: the redo log of the file system. The in-memory log, its reservations, the commit and the
-- recovery; the lock of the log is held from the start of each function to where it returns, sleeps
-- or commits.
pub mod Copy
pub mod Head
pub mod Phase
pub mod Commit
pub mod Recovery
pub mod Session
pub mod Slot
pub mod Reserve
use os_project03_thread.Common.{
  ◌&&◌, ◌%◌, ◌^◌, ℕ, ◌+◌, ◌-◌, ◌*◌, Bool, true, false, Option, none, some, ◌||◌, not, ◌==◌, ltb,
  leb, if◌then◌else◌, update, find_from, for_range,
}
use os_project03_thread.Disk.{
  bsize, Block, Blocks, Store, booted, view, bread, bwrite, SuperBlock, readsb,
}

abbrev pub maxopblocks : ℕ
maxopblocks = 10

abbrev pub logsize : ℕ
logsize = maxopblocks * 3

-- `struct logheader`
pub record LogHeader : Type 0 where
  pub n : ℕ
  pub block : ℕ → ℕ

-- `struct log`, without its lock.
pub record Log : Type 0 where
  pub start : ℕ
  pub size : ℕ
  pub outstanding : ℕ
  pub committing : Bool
  pub dev : ℕ
  pub lh : LogHeader

-- A round of `install_trans`: log block `tail` goes to its home.
abbrev pub install_round : Log → ℕ → Store → Store
install_round log tail s =
    let t = bread (log.lh.block tail) (bread (log.start + tail + 1) s) in
    bwrite (log.lh.block tail) (view t (log.start + tail + 1)) t

unfoldable pub install_trans : Log → Store → Store
install_trans log = for_range (install_round log) log.lh.n 0

-- The loop of `read_head`, over the words of the header block.
abbrev pub read_blocks : Block → ℕ → ℕ → (ℕ → ℕ) → ℕ → ℕ
read_blocks head = for_range (λ i block. update block i (head (i + 1)))

unfoldable pub read_head : Log → Store → Log × Store
read_head log s =
    let head = view s log.start in
    (
      record log { lh = record { n = head 0; block = read_blocks head (head 0) 0 log.lh.block } },
      bread log.start s,
    )

-- The header block after `write_head` has set its words.
unfoldable pub head_words : LogHeader → Block → Block
head_words lh =
    (λ head. for_range (λ i. λ w. update w (i + 1) (lh.block i)) lh.n 0 (update head 0 lh.n))

unfoldable pub write_head : Log → Store → Store
write_head log s =
    let t = bread log.start s in bwrite log.start (head_words log.lh (view t log.start)) t

-- `log.lh.n = 0`
abbrev pub emptied : Log → Log
emptied log = record log { lh = record log.lh { n = 0 } }

unfoldable pub recover_from_log : Log → Store → Log × Store
recover_from_log log s =
    let read = read_head log s in
    (emptied read.0, write_head (emptied read.0) (install_trans read.0 read.1))

-- `none` where the code panics: `sizeof(struct logheader)` is four bytes a word.
unfoldable pub initlog : ℕ → Log → Store → Option (Log × Store)
initlog dev log s =
    let sb = readsb s in
    if leb bsize (4 * (logsize + 1))
    then none
    else some
        (recover_from_log (record log { start = sb.0.logstart; size = sb.0.nlog; dev = dev }) sb.1)

-- What `begin_op` finds, each time round its loop: the operation is counted, or it sleeps.
unfoldable pub begin_op : Log → Option Log
begin_op log =
    if log.committing
    then none
    else (let used = (log.lh.n + (log.outstanding + 1) * maxopblocks) % 2 ^ 32 in
        if ltb logsize used && ltb used (2 ^ 31)
        then none
        else some (record log { outstanding = (log.outstanding + 1) % 2 ^ 32 }))

-- A round of `write_log`: a cached block goes to log block `tail`.
abbrev pub write_log_round : Log → ℕ → Store → Store
write_log_round log tail s =
    let t = bread (log.lh.block tail) (bread (log.start + tail + 1) s) in
    bwrite (log.start + tail + 1) (view t (log.lh.block tail)) t

unfoldable pub write_log : Log → Store → Store
write_log log = for_range (write_log_round log) log.lh.n 0

unfoldable pub commit : Log → Store → Log × Store
commit log s =
    let installed = install_trans log (write_head log (write_log log s)) in
    if ltb 0 log.lh.n then (emptied log, write_head (emptied log) installed) else (log, s)

-- How `end_op` starts: it panics, wakes the sleepers and is done, or has to commit.
pub data Ending : Type 0 where
  panics : Ending
  wakes : Log → Ending
  commits : Log → Ending

unfoldable pub end_op : Log → Ending
end_op log =
    let left = record log { outstanding = (log.outstanding + 2 ^ 32 - 1) % 2 ^ 32 } in
    if log.committing
    then panics
    else (if left.outstanding == 0 then commits (record left { committing = true }) else wakes left)

-- The rest of `end_op` after the choice to commit.
unfoldable pub end_commit : Log → Store → Log × Store
end_commit log s = let done = commit log s in (record done.0 { committing = false }, done.1)

-- The index at which the loop of `log_write` stops.
unfoldable pub log_slot : ℕ → LogHeader → ℕ
log_slot blockno lh = elim (find_from (λ j. lh.block j == blockno) lh.n 0) [
  | some j ↦ j
  | none ↦ lh.n
]

-- What `log_write` does inside the lock.
unfoldable pub log_write_locked : ℕ → Log → Store → Log × Store
log_write_locked blockno log s =
    let i = log_slot blockno log.lh in
    (
      record log {
        lh = record {
          n = (if i == log.lh.n then log.lh.n + 1 else log.lh.n);
          block = update log.lh.block i blockno;
        };
      },
      record s { dirty = update s.dirty blockno true },
    )

-- `log_write` of the buffer of block `blockno`, whose B_DIRTY is set; `none` where the code panics. It
-- tests the log before it takes the lock: `before` is the log as it was then.
unfoldable pub log_write : ℕ → Log → Log → Store → Option (Log × Store)
log_write blockno before log s =
    if leb logsize before.lh.n
      || leb (before.size - 1) before.lh.n
      || ltb before.outstanding 1
      || leb (2 ^ 31) before.outstanding
    then none
    else some (log_write_locked blockno log s)

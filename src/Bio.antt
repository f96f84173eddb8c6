-- ===== src/Bio.antt =====
-- bio.c: the buffers and their ring in order of use. Buffer 0 is `bcache.head`, and 1 to NBUF are
-- `bcache.buf`. The functions run inside bcache.lock from their start to its release.
pub mod Ring
pub mod Order
pub mod Scan
pub mod Unique
use os_project03_thread.Common.{
  ℕ, zero, suc, ◌+◌, ◌-◌, ◌%◌, ◌^◌, Bool, true, false, Option, none, some, ◌&&◌, not, ◌==◌,
  if◌then◌else◌, update, for_range,
}
use os_project03_thread.Log.{maxopblocks}
use os_project03_thread.Sleeplock.{
  Sleeplock, initsleeplock, acquiresleep, releasesleep, holdingsleep,
}

abbrev pub nbuf : ℕ
nbuf = 30

-- `struct buf`, without its links and its place in the disk queue.
pub record Buf : Type 0 where
  pub dev : ℕ
  pub blockno : ℕ
  pub valid : Bool
  pub dirty : Bool
  pub refcnt : ℕ
  pub lock : Sleeplock
  pub data_at : ℕ → ℕ

-- `bcache`
pub record Bcache : Type 0 where
  pub buf : ℕ → Buf
  pub prev : ℕ → ℕ
  pub next : ℕ → ℕ

abbrev pub set_buf : ℕ → Buf → Bcache → Bcache
set_buf b x c = record c { buf = update c.buf b x }

-- Buffer `b` becomes the first behind the head.
unfoldable pub link_first : ℕ → Bcache → Bcache
link_first b c =
    let next1 = update c.next b (c.next 0) in
    record c { prev = update (update c.prev b 0) (next1 0) b; next = update next1 0 b }

-- A round of `binit`.
unfoldable pub add_buf : ℕ → Bcache → Bcache
add_buf b c = link_first b (set_buf b (record (c.buf b) { lock = initsleeplock }) c)

unfoldable pub binit : Bcache → Bcache
binit c = for_range add_buf nbuf 1 (record c { prev = update c.prev 0 0; next = update c.next 0 0 })

-- Where a walk along the ring ends: at a buffer, at the head, or nowhere.
pub data Walk : Type 0 where
  stops : ℕ → Walk
  ends : Walk
  spins : Walk

-- `for(b = b; b != &bcache.head; b = b->link) if(test(b)) ...`
unfoldable pub walk : (ℕ → ℕ) → (ℕ → Bool) → ℕ → ℕ → Walk
walk link test zero b = spins
walk link test (suc fuel) b =
    let rest = walk link test fuel (link b) in
    if b == 0 then ends else (if test b then stops b else rest)

abbrev pub is_block : Bcache → ℕ → ℕ → ℕ → Bool
is_block c dev blockno b = (c.buf b).dev == dev && (c.buf b).blockno == blockno

abbrev pub is_unused : Bcache → ℕ → Bool
is_unused c b = (c.buf b).refcnt == 0 && not (c.buf b).dirty

-- What `bget` does inside the lock: the buffer, with the reference counted, for whose lock it then
-- sleeps or not; `no_buffers` is the panic.
pub data Got : Type 0 where
  got : ℕ → Bcache → Got
  no_buffers : Got
  loops : Got

-- `b->refcnt++`
abbrev pub counted : ℕ → Bcache → Bcache
counted b c = set_buf b (record (c.buf b) { refcnt = ((c.buf b).refcnt + 1) % 2 ^ 32 }) c

-- Buffer `b` is given to the block.
abbrev pub given : ℕ → ℕ → ℕ → Bcache → Bcache
given dev blockno b c =
    set_buf b
      (record (c.buf b) { dev = dev; blockno = blockno; valid = false; dirty = false; refcnt = 1 })
      c

abbrev pub recycled : ℕ → ℕ → Bcache → Walk → Got
recycled dev blockno c (stops b) = got b (given dev blockno b c)
recycled dev blockno c ends = no_buffers
recycled dev blockno c spins = loops

-- The second loop of `bget`, along `prev`.
unfoldable pub recycle : ℕ → ℕ → Bcache → Got
recycle dev blockno c = recycled dev blockno c (walk c.prev (is_unused c) (nbuf + 1) (c.prev 0))

abbrev pub found : Bcache → Got → Walk → Got
found c other (stops b) = got b (counted b c)
found c other ends = other
found c other spins = loops

unfoldable pub bget : ℕ → ℕ → Bcache → Got
bget dev blockno c =
    found c (recycle dev blockno c) (walk c.next (is_block c dev blockno) (nbuf + 1) (c.next 0))

-- Buffer `b` is taken out of the ring.
unfoldable pub unlink : ℕ → Bcache → Bcache
unlink b c =
    let prev1 = update c.prev (c.next b) (c.prev b) in
    record c { prev = prev1; next = update c.next (prev1 b) (c.next b) }

-- `brelse` by process `pid`; `none` is the panic.
unfoldable pub brelse : ℕ → ℕ → Bcache → Option Bcache
brelse pid b c =
    let count = ((c.buf b).refcnt + 2 ^ 32 - 1) % 2 ^ 32 in
    let less =
      set_buf b (record (c.buf b) { lock = releasesleep (c.buf b).lock; refcnt = count }) c in
    if not (holdingsleep pid (c.buf b).lock)
    then none
    else (if count == 0 then some (link_first b (unlink b less)) else some less)

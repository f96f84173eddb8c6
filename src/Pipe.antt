-- ===== src/Pipe.antt =====
-- pipe.c: the ring buffer of a pipe, its two ends, and what a reader and a writer do inside the
-- pipe's lock. The lock is held from the start of each function to where it returns or sleeps.
pub mod Ring
pub mod Laws
pub mod Queue
use os_project03_thread.Common.{
  ℕ, zero, suc, ◌+◌, ◌%◌, ◌^◌, Bool, true, false, List, [], ◌∷◌, ◌++◌, ◌||◌, ◌&&◌, not, ◌==◌,
  if◌then◌else◌, update, length,
}

abbrev pub pipesize : ℕ
pipesize = 512

-- `struct pipe`, without its lock.
pub record Pipe : Type 0 where
  pub data_at : ℕ → ℕ
  pub nread : ℕ
  pub nwrite : ℕ
  pub readopen : Bool
  pub writeopen : Bool

-- What `pipealloc` makes of a new page.
unfoldable pub fresh_pipe : (ℕ → ℕ) → Pipe
fresh_pipe page = record {
  data_at = page;
  nread = 0;
  nwrite = 0;
  readopen = true;
  writeopen = true;
}

-- The channels `&p->nread` and `&p->nwrite`.
pub data Channel : Type 0 where
  readers writers : Channel

-- How a call ends: with a number, with -1, or asleep on a channel with the bytes still to write.
pub data End : Type 0 where
  returns : ℕ → End
  fails : End
  sleeps : Channel → List ℕ → End

-- The pipe after the call, the channels that it has woken, in order, and how it ends.
pub record Outcome : Type 0 where
  pub pipe : Pipe
  pub wakes : List Channel
  pub end : End

abbrev pub is_full : Pipe → Bool
is_full p = p.nwrite == (p.nread + pipesize) % 2 ^ 32

abbrev pub is_empty : Pipe → Bool
is_empty p = p.nread == p.nwrite

-- `p->data[p->nwrite++ % PIPESIZE] = b`
unfoldable pub put : ℕ → Pipe → Pipe
put b p = record p {
  data_at = update p.data_at (p.nwrite % pipesize) b;
  nwrite = (p.nwrite + 1) % 2 ^ 32;
}

-- The loop of `pipewrite` over the bytes that are left, out of `n`; a writer that sleeps starts
-- again here.
unfoldable pub pipewrite_loop : Bool → ℕ → List ℕ → Pipe → Outcome
pipewrite_loop killed n [] p = record { pipe = p; wakes = readers ∷ []; end = returns n }
pipewrite_loop killed n (b ∷ bs) p =
    let rest = pipewrite_loop killed n bs (put b p) in
    if is_full p
    then (if not p.readopen || killed
        then record { pipe = p; wakes = []; end = fails }
        else record { pipe = p; wakes = readers ∷ []; end = sleeps writers (b ∷ bs) })
    else rest

-- `p->data[p->nread++ % PIPESIZE]`: the pipe after it.
unfoldable pub get_byte : Pipe → Pipe
get_byte p = record p { nread = (p.nread + 1) % 2 ^ 32 }

-- The copy loop of `piperead`: the bytes for `addr`, at most `n`, and the pipe.
unfoldable pub piperead_copy : ℕ → Pipe → List ℕ × Pipe
piperead_copy zero p = ([], p)
piperead_copy (suc n) p =
    let rest = piperead_copy n (get_byte p) in
    if is_empty p then ([], p) else (p.data_at (p.nread % pipesize) ∷ rest.0, rest.1)

-- What a reader does: it waits, fails, or copies. `none` of the bytes is written to `addr` before.
unfoldable pub piperead : Bool → ℕ → Pipe → List ℕ × Outcome
piperead killed n p =
    let copied = piperead_copy n p in
    if is_empty p && p.writeopen
    then (if killed
        then ([], record { pipe = p; wakes = []; end = fails })
        else ([], record { pipe = p; wakes = []; end = sleeps readers [] }))
    else (
      copied.0,
      record { pipe = copied.1; wakes = writers ∷ []; end = returns (length copied.0) },
    )

-- The pipe after `pipeclose` of one end, the channel woken, and whether the page is freed.
unfoldable pub pipeclose : Bool → Pipe → Pipe × Channel × Bool
pipeclose writable p =
    let q = (if writable then record p { writeopen = false } else record p { readopen = false }) in
    (q, (if writable then readers else writers), not q.readopen && not q.writeopen)

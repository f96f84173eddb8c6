-- ===== src/Log/Head.antt =====
-- The header block: what `write_head` puts there is what `read_head` finds.
use os_project03_thread.Common.{
  ℕ, zero, suc, ◌+◌, ◌≤◌, ◌<◌, ◌≡◌, ◌≢◌, inl, inr, refl, arith, ◌∙◌, update, for_range, ◌==◌,
  Bool-cases, ap, update_other,
}
use os_project03_thread.Disk.{Block, Blocks, Store, view, bread}
use os_project03_thread.Disk.Through.{
  Each, Through, view-bread, view-bwrite, disk-bwrite, view-bwrite_other,
}
use os_project03_thread.Log.{Log, LogHeader, read_blocks, read_head, head_words, write_head}

abbrev set_block : (ℕ → ℕ) → ℕ → Block → Block
set_block block i w = update w (i + 1) (block i)

set_away :
    (block : ℕ → ℕ) (n i : ℕ) (w : Block) (a : ℕ)
    → a < i + 1
    → for_range (set_block block) n i w a ≡ w a
unfolding for_range
set_away block zero i w a h = refl
set_away block (suc n) i w a h = ground (arith, set_away block n (i + 1) (set_block block i w) a)

set_here :
    (block : ℕ → ℕ) (n i : ℕ) (w : Block) (j : ℕ)
    → i ≤ j
    → j < i + n
    → for_range (set_block block) n i w (j + 1) ≡ block j
unfolding for_range
set_here block zero i w j low high = absurd (omega arith)
set_here block (suc n) i w j low high = elim (Bool-cases (i == j)) [
  | inl e ↦ ground (arith, set_away block n (i + 1) (set_block block i w) (j + 1))
  | inr e ↦ ground (arith, set_here block n (i + 1) (set_block block i w) j)
]

pub head_words_n : (lh : LogHeader) (w : Block) → head_words lh w 0 ≡ lh.n
unfolding head_words
head_words_n lh w = set_away lh.block lh.n 0 (update w 0 lh.n) 0 (omega arith) ∙ (ground arith)

pub head_words_block :
    (lh : LogHeader) (w : Block) (i : ℕ) → i < lh.n → head_words lh w (i + 1) ≡ lh.block i
unfolding head_words
head_words_block lh w i h = set_here lh.block lh.n 0 (update w 0 lh.n) i (omega arith) (omega arith)

read_here :
    (head : Block) (n i : ℕ) (old : ℕ → ℕ) (j : ℕ)
    → (j < i → old j ≡ head (j + 1))
    → j < i + n
    → read_blocks head n i old j ≡ head (j + 1)
unfolding for_range
read_here head zero i old j done h = done (omega arith)
read_here head (suc n) i old j done h =
    read_here head n (i + 1) (update old i (head (i + 1))) j (λ q. ground (arith, done))
      (omega arith)

-- `read_head` reads the count and the block numbers of the header block.
pub read_head_lem :
    (log : Log) (s : Store)
    → ((read_head log s).0.lh.n ≡ view s log.start 0)
      × ((i : ℕ)
          → i < view s log.start 0
          → (read_head log s).0.lh.block i ≡ view s log.start (i + 1))
unfolding read_head
read_head_lem log s = (
  refl,
  λ i h.
      read_here (view s log.start) (view s log.start 0) 0 log.lh.block i (λ q. absurd (omega arith))
        (omega arith),
)

-- `write_head` changes the words of the header block, on the disk and in the cache.
pub write_head_here :
    (log : Log) (s : Store)
    → (view (write_head log s) log.start ≡ head_words log.lh (view s log.start))
      × ((write_head log s).disk log.start ≡ head_words log.lh (view s log.start))
unfolding write_head
write_head_here log s = (
  view-bwrite log.start _ (bread log.start s)
      ∙ ap (head_words log.lh) (view-bread log.start log.start s),
  disk-bwrite log.start _ (bread log.start s)
      ∙ ap (head_words log.lh) (view-bread log.start log.start s),
)

pub write_head_away :
    (log : Log) (s : Store) (b : ℕ)
    → b ≢ log.start
    → (view (write_head log s) b ≡ view s b) × ((write_head log s).disk b ≡ s.disk b)
unfolding write_head
write_head_away log s b h = (
  view-bwrite_other log.start b _ (bread log.start s) h ∙ view-bread log.start b s,
  update_other s.disk log.start b _ h,
)

pub write_head-Through :
    (P Q R : Blocks → Type 0) (log : Log) (s : Store)
    → ((d : Blocks) → Q d → P d)
    → (Q s.disk → R (update s.disk log.start (head_words log.lh (view s log.start))))
    → Through P Q s
    → Through P R (write_head log s)
unfolding write_head Through Each
write_head-Through P Q R log s weak f h =
    (rw (view-bread log.start log.start s) (f h.0), (weak s.disk h.0, h.1))

-- A header that `write_head` wrote is read back by `read_head`, whatever the log in memory holds by
-- then: the same count, and the same block numbers.
pub read_head-write_head :
    (log other : Log) (s : Store)
    → other.start ≡ log.start
    → ((read_head other (write_head log s)).0.lh.n ≡ log.lh.n)
      × ((i : ℕ)
          → i < log.lh.n
          → (read_head other (write_head log s)).0.lh.block i ≡ log.lh.block i)
read_head-write_head log other s e =
    let read = read_head_lem other (write_head log s) in
    let count : view (write_head log s) other.start 0 ≡ log.lh.n =
      rw (e, (write_head_here log s).0) (head_words_n log.lh (view s log.start)) in
    (
      read.0 ∙ count,
      λ i h.
          read.1 i (rw count h)
          ∙ rw (e, (write_head_here log s).0) (head_words_block log.lh (view s log.start) i h),
    )

-- ===== src/Examples/Buffers.antt =====
-- Runs of the buffer cache on a ring of two buffers.
use os_project03_thread.Common.{
  ℕ, ◌<◌, ◌≡◌, ◌⊎◌, refl, arith, true, false, some, [], ◌∷◌, ◌==◌, if◌then◌else◌, length, update,
}
use os_project03_thread.Kalloc.Free.{Outside}
use os_project03_thread.Sleeplock.{releasesleep, holdingsleep}
use os_project03_thread.Bio.{Bcache, Buf, bget, brelse, walk, recycle}
use os_project03_thread.Bio.Ring.{Seg, Apart, IsRing}
use os_project03_thread.Bio.Order.{brelse-IsRing}
use os_project03_thread.Bio.Scan.{get_ordered, bget-Order}
use os_project03_thread.Bio.Unique.{In, IsUnique, Gives, bget-Gives}

abbrev block_of : ℕ → ℕ → Buf
block_of n refs = record {
  dev = 1;
  blockno = n;
  valid = true;
  dirty = false;
  refcnt = refs;
  lock = record { locked = refs == 1; pid = 9 };
  data_at = λ _. 0;
}

-- Block 5 in buffer 1, not in use; block 7 in buffer 2, held by process 9.
abbrev two_blocks : Bcache
two_blocks = record {
  buf = λ b. if b == 1 then block_of 5 0 else block_of 7 1;
  prev = λ b. if b == 0 then 2 else if b == 1 then 0 else 1;
  next = λ b. if b == 0 then 1 else if b == 1 then 2 else 0;
}

two_blocks-IsRing : IsRing two_blocks (1 ∷ 2 ∷ [])
unfolding Seg Apart Outside
two_blocks-IsRing = record {
  seg = (refl, refl, (refl, refl, (refl, refl)));
  apart = (((λ e. omega arith), tt), (tt, tt));
  no_head = ((λ e. omega arith), ((λ e. omega arith), tt));
}

two_blocks-IsUnique : IsUnique two_blocks (1 ∷ 2 ∷ [])
unfolding In
two_blocks-IsUnique = record { same = λ x y mx my used e f. ground arith }

bget-Order_example : bget 1 7 two_blocks ≡ get_ordered 1 7 (1 ∷ 2 ∷ []) two_blocks
unfolding length
bget-Order_example = bget-Order two_blocks (1 ∷ 2 ∷ []) two_blocks-IsRing (omega arith) 1 7

-- Block 8 is not cached: it takes buffer 1.
abbrev taken_over : Bcache
taken_over = record two_blocks {
  buf = update two_blocks.buf 1 (record (block_of 5 0) { blockno = 8; valid = false; refcnt = 1 });
}

bget-Gives_example : Gives two_blocks (1 ∷ 2 ∷ []) 1 8 1 taken_over
unfolding length bget walk recycle
bget-Gives_example =
    bget-Gives two_blocks (1 ∷ 2 ∷ []) 1 8 1 taken_over two_blocks-IsRing (omega arith)
      two_blocks-IsUnique refl

brelse-IsRing_example :
    (c' : Bcache) × (brelse 9 2 two_blocks ≡ some c')
    × (c'.buf
        ≡ update two_blocks.buf 2
            (record (block_of 7 1) { lock = releasesleep (block_of 7 1).lock; refcnt = 0 }))
    × ((◌≡◌ {A = ℕ} 1 1 × IsRing c' (2 ∷ 1 ∷ [])) ⊎ ((1 < 1) × IsRing c' (1 ∷ 2 ∷ [])))
unfolding holdingsleep
brelse-IsRing_example =
    brelse-IsRing 9 2 two_blocks (1 ∷ []) [] two_blocks-IsRing refl (omega arith) (omega arith)

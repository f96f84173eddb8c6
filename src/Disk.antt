-- ===== src/Disk.antt =====
-- The disk as the users of bio.c see it, block by block: `bread`, `bwrite` and the super block. A
-- block that some buffer holds is in `cache`; `past` keeps the disk before each write, newest first,
-- which is what a crash may leave.
pub mod Through
use os_project03_thread.Common.{
  ℕ, ◌+◌, ◌*◌, Bool, true, false, Option, none, some, List, ◌∷◌, ◌==◌, if◌then◌else◌, update,
}

abbrev pub bsize : ℕ
bsize = 512

-- The contents of a block, as its 32-bit words.
abbrev pub Block : Type 0
Block = ℕ → ℕ

abbrev pub Blocks : Type 0
Blocks = ℕ → Block

pub record Store : Type 0 where
  pub disk : Blocks
  pub cache : ℕ → Option Block
  pub dirty : ℕ → Bool
  pub past : List Blocks

-- A machine that has just started: nothing is cached.
abbrev pub booted : Blocks → Store
booted d = record { disk = d; cache = (λ b. none); dirty = (λ b. false); past = List.[] }

-- The contents of the buffer that `bread` returns.
abbrev pub view : Store → ℕ → Block
view s b = elim (s.cache b) [ some x ↦ x | none ↦ s.disk b ]

-- `bread(dev, b)`: the block is cached, read from the disk if no buffer held it.
abbrev pub bread : ℕ → Store → Store
bread b s = record s { cache = update s.cache b (some (view s b)) }

-- `bwrite` of the buffer of `b`, whose contents are now `x`: they go to the disk, and B_DIRTY is off.
abbrev pub bwrite : ℕ → Block → Store → Store
bwrite b x s = record s {
  disk = update s.disk b x;
  cache = update s.cache b (some x);
  dirty = update s.dirty b false;
  past = s.disk ∷ s.past;
}

pub record SuperBlock : Type 0 where
  pub size : ℕ
  pub nblocks : ℕ
  pub ninodes : ℕ
  pub nlog : ℕ
  pub logstart : ℕ
  pub inodestart : ℕ
  pub bmapstart : ℕ

-- `readsb`: the super block is block 1.
unfoldable pub readsb : Store → SuperBlock × Store
readsb s =
    let x = view s 1 in
    (
      record {
        size = x 0;
        nblocks = x 1;
        ninodes = x 2;
        nlog = x 3;
        logstart = x 4;
        inodestart = x 5;
        bmapstart = x 6;
      },
      bread 1 s,
    )

-- ===== src/Disk/Through.antt =====
-- What holds of the disk at every moment of a run: now and before each of its writes.
use os_project03_thread.Common.{ℕ, List, [], ◌∷◌, ◌≡◌, ◌≢◌, arith, update}
use os_project03_thread.Disk.{Block, Blocks, Store, view, bread, bwrite}

unfoldable pub Each : (Blocks → Type 0) → List Blocks → Type 0
Each P [] = Unit
Each P (d ∷ ds) = P d × Each P ds

-- The disk now satisfies `Q`, and before each write `P`.
unfoldable pub Through : (Blocks → Type 0) → (Blocks → Type 0) → Store → Type 0
unfolding Each
Through P Q s = Q s.disk × Each P s.past

pub Through-weaken :
    (P Q R : Blocks → Type 0) (s : Store)
    → ((d : Blocks) → Q d → R d)
    → Through P Q s
    → Through P R s
unfolding Through
Through-weaken P Q R s f h = (f s.disk h.0, h.1)

Each-weaken :
    (P Q : Blocks → Type 0) (ds : List Blocks) → ((d : Blocks) → P d → Q d) → Each P ds → Each Q ds
unfolding Each
Each-weaken P Q [] f h = tt
Each-weaken P Q (d ∷ ds) f h = (f d h.0, Each-weaken P Q ds f h.1)

pub Through-past :
    (P Q R : Blocks → Type 0) (s : Store)
    → ((d : Blocks) → P d → Q d)
    → Through P R s
    → Through Q R s
unfolding Through
Through-past P Q R s f h = (h.0, Each-weaken P Q s.past f h.1)

pub Through-now : (P Q : Blocks → Type 0) (s : Store) → Through P Q s → Q s.disk
unfolding Through
Through-now P Q s h = h.0

-- Reading a block changes no contents.
pub view-bread : (b c : ℕ) (s : Store) → view (bread b s) c ≡ view s c
view-bread b c s = ground arith

pub view-bwrite : (b : ℕ) (x : Block) (s : Store) → view (bwrite b x s) b ≡ x
view-bwrite b x s = ground arith

pub disk-bwrite : (b : ℕ) (x : Block) (s : Store) → (bwrite b x s).disk b ≡ x
disk-bwrite b x s = ground arith

pub view-bwrite_other : (b c : ℕ) (x : Block) (s : Store) → c ≢ b → view (bwrite b x s) c ≡ view s c
view-bwrite_other b c x s h = ground arith

-- A round that reads two blocks, and writes what it read of one to `to`.
pub Through-copy :
    (P Q : Blocks → Type 0) (a b from to : ℕ) (s : Store)
    → ((d : Blocks) → Q d → P d)
    → (Q s.disk → Q (update s.disk to (view s from)))
    → Through P Q s
    → Through P Q (bwrite to (view (bread b (bread a s)) from) (bread b (bread a s)))
unfolding Through Each
Through-copy P Q a b from to s weak f h =
    (rw (view-bread b from (bread a s), view-bread a from s) (f h.0), (weak s.disk h.0, h.1))

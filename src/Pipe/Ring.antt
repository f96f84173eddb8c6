-- ===== src/Pipe/Ring.antt =====
-- The bytes in the ring of a pipe as a list.
use os_project03_thread.Common.{
  ℕ, zero, suc, ◌+◌, ◌-◌, ◌%◌, ◌^◌, ◌≤◌, ◌<◌, ◌≡◌, ◌≢◌, ◌∙◌, ap, sym, refl, arith, List, [], ◌∷◌,
  ◌++◌, update, update_same, update_other,
}
use os_project03_thread.Pipe.{Pipe, pipesize, put, get_byte}

-- `n` bytes of the ring from the counter value `i` on.
unfoldable pub slice : (ℕ → ℕ) → ℕ → ℕ → List ℕ
slice d zero i = []
slice d (suc n) i = let rest = slice d n ((i + 1) % 2 ^ 32) in d (i % pipesize) ∷ rest

at_zero : (i : ℕ) → i < 2 ^ 32 → (i + 0) % 2 ^ 32 ≡ i
at_zero i h = omega arith

next_at : (i n : ℕ) → ((i + 1) % 2 ^ 32 + n) % 2 ^ 32 ≡ (i + suc n) % 2 ^ 32
next_at i n = omega arith

pub slice_snoc :
    (d : ℕ → ℕ) (n i : ℕ)
    → i < 2 ^ 32
    → slice d (suc n) i ≡ slice d n i ++ (d ((i + n) % 2 ^ 32 % pipesize) ∷ [])
unfolding slice
slice_snoc d zero i h = rw (at_zero i h) refl
slice_snoc d (suc n) i h =
    ap (λ xs. d (i % pipesize) ∷ xs) (slice_snoc d n ((i + 1) % 2 ^ 32) (omega arith))
    ∙ rw (next_at i n) refl

pub slice-update :
    (d : ℕ → ℕ) (n i j b : ℕ)
    → ((m : ℕ) → m < n → (i + m) % 2 ^ 32 % pipesize ≢ j)
    → slice (update d j b) n i ≡ slice d n i
unfolding slice
slice-update d zero i j b h = refl
slice-update d (suc n) i j b h =
    ap (λ x. x ∷ slice (update d j b) n ((i + 1) % 2 ^ 32))
      (update_other d j (i % pipesize) b (λ e. h 0 (omega arith) (omega arith)))
    ∙ ap (λ xs. d (i % pipesize) ∷ xs)
        (slice-update d n ((i + 1) % 2 ^ 32) j b
          (λ m a e. h (suc m) (omega arith) (ap (λ x. x % pipesize) (sym (next_at i m)) ∙ e)))

-- The number of bytes in the ring, and the bytes, oldest first.
unfoldable pub count : Pipe → ℕ
count p = (p.nwrite + 2 ^ 32 - p.nread) % 2 ^ 32

unfoldable pub contents : Pipe → List ℕ
unfolding slice count
contents p = slice p.data_at (count p) p.nread

-- The counters are 32-bit numbers, and at most PIPESIZE apart.
pub record IsRing (p : Pipe) : Type 0 where
  pub small : (p.nread < 2 ^ 32) × (p.nwrite < 2 ^ 32)
  pub bounded : count p ≤ pipesize

module _ (p : Pipe) (r : IsRing p) where
  end_at : (p.nread + count p) % 2 ^ 32 ≡ p.nwrite
  unfolding count
  end_at = ground (arith, r.small, r.bounded)

  pub put-count : (b : ℕ) → count p < pipesize → count (put b p) ≡ suc (count p)
  unfolding count put
  put-count b h = ground (arith, r.small, r.bounded)

  put-IsRing : (b : ℕ) → count p < pipesize → IsRing (put b p)
  unfolding put
  put-IsRing b h = record {
    small = (r.small.0, omega arith);
    bounded = rw (put-count b h) (omega arith);
  }

  apart :
      count p < pipesize
      → (m : ℕ) → m < count p
      → (p.nread + m) % 2 ^ 32 % pipesize ≢ p.nwrite % pipesize
  unfolding count
  apart h m a e = ground (arith, r.small, r.bounded)

  get-count : 0 < count p → suc (count (get_byte p)) ≡ count p
  unfolding count get_byte
  get-count h = ground (arith, r.small, r.bounded)

  get-IsRing : 0 < count p → IsRing (get_byte p)
  unfolding get_byte
  get-IsRing h = record {
    small = (omega arith, r.small.1);
    bounded = ground (arith, get-count h, r.bounded);
  }

-- `put` into a ring that is not full adds a byte at the end.
pub put-contents :
    (b : ℕ) (p : Pipe)
    → IsRing p
    → count p < pipesize
    → IsRing (put b p) × (contents (put b p) ≡ contents p ++ (b ∷ []))
unfolding put contents
put-contents b p r h = (
  put-IsRing p r b h,
  rw
      (
        put-count p r b h,
        slice_snoc (put b p).data_at (count p) p.nread r.small.0,
        end_at p r,
        slice-update p.data_at (count p) p.nread (p.nwrite % pipesize) b (apart p r h),
        update_same p.data_at (p.nwrite % pipesize) b,
      )
      refl,
)

-- `get_byte` from a ring that is not empty takes the first.
pub get_byte-contents :
    (p : Pipe)
    → IsRing p
    → 0 < count p
    → IsRing (get_byte p) × (contents p ≡ p.data_at (p.nread % pipesize) ∷ contents (get_byte p))
unfolding contents slice get_byte
get_byte-contents p r h = (get-IsRing p r h, rw (← get-count p r h) refl)

-- ===== src/Bio/Scan.antt =====
-- `bget` by the order of the ring: a cached block is found, and else the buffer that has been unused
-- for longest is taken.
use os_project03_thread.Common.{
  ℕ, zero, suc, ◌+◌, ◌≤◌, ◌<◌, ◌≡◌, ◌≢◌, refl, sym, arith, ◌∙◌, ap, Bool, false, not, ◌&&◌, ◌==◌,
  ◌%◌, ◌^◌, update, List, [], ◌∷◌, if◌then◌else◌, length, ne→==_false,
}
use os_project03_thread.Kalloc.Free.{Outside}
use os_project03_thread.Bio.{
  Bcache, Walk, stops, ends, spins, got, no_buffers, loops, walk, nbuf, is_block, is_unused, Got,
  recycled, recycle, found, bget,
}
use os_project03_thread.Bio.Ring.{Seg, IsRing}

-- The first entry that passes the test.
unfoldable pub first_of : (ℕ → Bool) → List ℕ → Walk
first_of test [] = ends
first_of test (x ∷ xs) = let rest = first_of test xs in if test x then stops x else rest

-- The reverse of a list, before `acc`.
unfoldable pub reversed : List ℕ → List ℕ → List ℕ
reversed [] acc = acc
reversed (x ∷ xs) acc = reversed xs (x ∷ acc)

walk_at :
    (link : ℕ → ℕ) (test : ℕ → Bool) (fuel b : ℕ)
    → b ≢ 0
    → walk link test (suc fuel) b ≡ (if test b then stops b else walk link test fuel (link b))
unfolding walk
walk_at link test fuel b ne = rw (ne→==_false ne) refl

walk_end :
    (link : ℕ → ℕ) (test : ℕ → Bool) (fuel b : ℕ) → b ≡ 0 → walk link test (suc fuel) b ≡ ends
unfolding walk
walk_end link test fuel b e = rw e refl

walk_lem :
    (n p : ℕ → ℕ) (test : ℕ → Bool) (a : ℕ) (l : List ℕ) (fuel : ℕ)
    → Seg n p a l
    → Outside 0 l
    → length l < fuel
    → walk n test fuel (n a) ≡ first_of test l
unfolding Seg Outside length first_of
walk_lem n p test a l zero s out enough = absurd (omega arith)
walk_lem n p test a [] (suc fuel) s out enough = walk_end n test fuel (n a) s.0
walk_lem n p test a (x ∷ xs) (suc fuel) s out enough =
    ap (walk n test (suc fuel)) s.0
    ∙ walk_at n test fuel x (λ e. out.0 (sym e))
    ∙ ap (λ r. if test x then stops x else r) (walk_lem n p test x xs fuel s.2 out.1 (omega arith))

-- Backwards the ring is the reversed list.
Seg-back :
    (n p : ℕ → ℕ) (x : ℕ) (l acc : List ℕ)
    → Seg n p x l
    → Seg p n x acc
    → Seg p n 0 (reversed l (x ∷ acc))
unfolding Seg reversed
Seg-back n p x [] acc s back = (s.1, s.0, back)
Seg-back n p x (y ∷ ys) acc s back = Seg-back n p y ys (x ∷ acc) s.2 (s.1, s.0, back)

pub Seg-reversed : (n p : ℕ → ℕ) (l : List ℕ) → Seg n p 0 l → Seg p n 0 (reversed l [])
unfolding Seg reversed
Seg-reversed n p [] s = (s.1, s.0)
Seg-reversed n p (x ∷ xs) s = Seg-back n p x xs [] s.2 (s.1, s.0)

length-reversed : (l acc : List ℕ) → length (reversed l acc) ≡ length l + length acc
unfolding length reversed
length-reversed [] acc = omega arith
length-reversed (x ∷ xs) acc = omega (arith, length-reversed xs (x ∷ acc))

Outside-reversed :
    (q : ℕ) (l acc : List ℕ) → Outside q l → Outside q acc → Outside q (reversed l acc)
unfolding Outside reversed
Outside-reversed q [] acc h g = g
Outside-reversed q (x ∷ xs) acc h g = Outside-reversed q xs (x ∷ acc) h.1 (h.0, g)

-- What a caller of `bget` may expect of a ring whose buffers are `l` in order of use, written out: the
-- first buffer with the device and the block is referred to once more; or else the last one of which
-- the count is 0 and B_DIRTY is clear gets device and block, with no flags and the count 1.
abbrev pub take : ℕ → ℕ → Bcache → Walk → Got
take dev blockno c (stops b) = got b (record c {
  buf =
      update c.buf b (record (c.buf b) {
        dev = dev;
        blockno = blockno;
        valid = false;
        dirty = false;
        refcnt = 1;
      });
})
take dev blockno c ends = no_buffers
take dev blockno c spins = loops

abbrev pub share : Bcache → Got → Walk → Got
share c other (stops b) = got b (record c {
  buf = update c.buf b (record (c.buf b) { refcnt = ((c.buf b).refcnt + 1) % 2 ^ 32 });
})
share c other ends = other
share c other spins = loops

unfoldable pub get_ordered : ℕ → ℕ → List ℕ → Bcache → Got
get_ordered dev blockno l c =
    let least = first_of (λ b. (c.buf b).refcnt == 0 && not (c.buf b).dirty) (reversed l []) in
    share c (take dev blockno c least)
      (first_of (λ b. (c.buf b).dev == dev && (c.buf b).blockno == blockno) l)

module _ (c : Bcache) (l : List ℕ) (r : IsRing c l) (small : length l ≤ nbuf) where
  forward : (test : ℕ → Bool) → walk c.next test (nbuf + 1) (c.next 0) ≡ first_of test l
  forward test = walk_lem c.next c.prev test 0 l (nbuf + 1) r.seg r.no_head (omega arith)

  backward :
      (test : ℕ → Bool) → walk c.prev test (nbuf + 1) (c.prev 0) ≡ first_of test (reversed l [])
  unfolding Outside length
  backward test =
      walk_lem c.prev c.next test 0 (reversed l []) (nbuf + 1) (Seg-reversed c.next c.prev l r.seg)
        (Outside-reversed 0 l [] r.no_head tt) (omega (arith, length-reversed l []))

  take_lem : (dev blockno : ℕ) (w : Walk) → recycled dev blockno c w ≡ take dev blockno c w
  take_lem dev blockno (stops b) = refl
  take_lem dev blockno ends = refl
  take_lem dev blockno spins = refl

  share_lem : (other : Got) (w : Walk) → found c other w ≡ share c other w
  share_lem other (stops b) = refl
  share_lem other ends = refl
  share_lem other spins = refl

  -- `bget` takes the first buffer in the order of use that has the block, or else the last that is
  -- neither referred to nor dirty, which it gives to the block; it panics if there is neither. The
  -- buffers of the ring are `l` in order of use, at most NBUF.
  pub bget-Order : (dev blockno : ℕ) → bget dev blockno c ≡ get_ordered dev blockno l c
  unfolding bget recycle get_ordered
  bget-Order dev blockno =
      ap (found c (recycle dev blockno c)) (forward (is_block c dev blockno))
      ∙ share_lem (recycle dev blockno c) (first_of (is_block c dev blockno) l)
      ∙ ap (λ o. share c o (first_of (is_block c dev blockno) l))
          (ap (recycled dev blockno c) (backward (is_unused c))
            ∙ take_lem dev blockno (first_of (is_unused c) (reversed l [])))

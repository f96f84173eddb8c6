-- ===== src/Bio/Order.antt =====
-- `brelse` keeps the ring, and moves a buffer that nobody uses any more to its front; `binit` makes it.
use os_project03_thread.Common.{
  ℕ, zero, suc, ◌+◌, ◌-◌, ◌%◌, ◌^◌, ◌≤◌, ◌<◌, ◌≡◌, ◌≢◌, ◌⊎◌, inl, inr, refl, sym, arith, true, List,
  [], ◌∷◌, ◌++◌, ◌==◌, update, update_same, some, Bool-cases, for_range,
}
use os_project03_thread.Kalloc.Free.{Outside}
use os_project03_thread.Sleeplock.{releasesleep, holdingsleep}
use os_project03_thread.Bio.{Bcache, set_buf, link_first, unlink, add_buf, binit, brelse, nbuf}
use os_project03_thread.Bio.Ring.{Seg, Apart, IsRing, unlink-Seg, link_first-Seg}

Outside-without : (q b : ℕ) (xs ys : List ℕ) → Outside q (xs ++ b ∷ ys) → Outside q (xs ++ ys)
unfolding Outside
Outside-without q b [] ys h = h.1
Outside-without q b (x ∷ xs) ys h = (h.0, Outside-without q b xs ys h.1)

Outside-of : (q b : ℕ) (xs ys : List ℕ) → Outside q (xs ++ b ∷ ys) → q ≢ b
unfolding Outside
Outside-of q b [] ys h = h.0
Outside-of q b (x ∷ xs) ys h = Outside-of q b xs ys h.1

Apart-without : (b : ℕ) (xs ys : List ℕ) → Apart (xs ++ b ∷ ys) → Apart (xs ++ ys)
unfolding Apart
Apart-without b [] ys h = h.1
Apart-without b (x ∷ xs) ys h = (Outside-without x b xs ys h.0, Apart-without b xs ys h.1)

Apart-of : (b : ℕ) (xs ys : List ℕ) → Apart (xs ++ b ∷ ys) → Outside b (xs ++ ys)
unfolding Apart Outside
Apart-of b [] ys h = h.0
Apart-of b (x ∷ xs) ys h = ((λ e. Outside-of x b xs ys h.0 (sym e)), Apart-of b xs ys h.1)

unlink-IsRing :
    (c : Bcache) (b : ℕ) (xs ys : List ℕ) → IsRing c (xs ++ b ∷ ys) → IsRing (unlink b c) (xs ++ ys)
unlink-IsRing c b xs ys r = record {
  seg = unlink-Seg c b xs ys r;
  apart = Apart-without b xs ys r.apart;
  no_head = Outside-without 0 b xs ys r.no_head;
}

link_first-IsRing :
    (c : Bcache) (b : ℕ) (l : List ℕ)
    → IsRing c l
    → b ≢ 0
    → Outside b l
    → IsRing (link_first b c) (b ∷ l)
unfolding Apart Outside
link_first-IsRing c b l r ne out = record {
  seg = link_first-Seg c b l r ne out;
  apart = (out, r.apart);
  no_head = ((λ e. ne (sym e)), r.no_head);
}

-- The list of `binit`: the buffer linked in last comes first.
unfoldable pub pushed : ℕ → ℕ → List ℕ → List ℕ
pushed zero i l = l
pushed (suc n) i l = pushed n (i + 1) (i ∷ l)

add_bufs-IsRing :
    (n i : ℕ) (c : Bcache) (l : List ℕ)
    → 0 < i
    → ((j : ℕ) → i ≤ j → Outside j l)
    → IsRing c l
    → IsRing (for_range add_buf n i c) (pushed n i l)
unfolding for_range pushed add_buf Outside
add_bufs-IsRing zero i c l pos out r = r
add_bufs-IsRing (suc n) i c l pos out r =
    add_bufs-IsRing n (i + 1) (add_buf i c) (i ∷ l) (omega arith)
      (λ j h. ((λ e. omega arith), out j (omega arith)))
      (link_first-IsRing _ i l (record { seg = r.seg; apart = r.apart; no_head = r.no_head })
        (λ e. omega arith) (out i (omega arith)))

-- `binit` makes a ring of the NBUF buffers, whatever the memory holds before.
pub binit-IsRing : (c : Bcache) → IsRing (binit c) (pushed nbuf 1 [])
unfolding binit Seg Apart Outside
binit-IsRing c =
    add_bufs-IsRing nbuf 1 _ [] (omega arith) (λ j h. tt)
      (record { seg = (update_same c.next 0 0, update_same c.prev 0 0); apart = tt; no_head = tt })

-- `brelse` of a buffer that the process holds: the reference goes and the lock is free. A buffer
-- without references is then the first of the ring, with the others behind it in their order; one
-- that is still referred to stays where it is.
pub brelse-IsRing :
    (pid b : ℕ) (c : Bcache) (xs ys : List ℕ)
    → IsRing c (xs ++ b ∷ ys)
    → holdingsleep pid (c.buf b).lock ≡ true
    → 0 < (c.buf b).refcnt
    → (c.buf b).refcnt < 2 ^ 32
    → (c' : Bcache) × (brelse pid b c ≡ some c')
      × (c'.buf
          ≡ update c.buf b (record (c.buf b) {
            lock = releasesleep (c.buf b).lock;
            refcnt = (c.buf b).refcnt - 1;
          }))
      × ((((c.buf b).refcnt ≡ 1) × IsRing c' (b ∷ (xs ++ ys)))
          ⊎ ((1 < (c.buf b).refcnt) × IsRing c' (xs ++ b ∷ ys)))
unfolding brelse
brelse-IsRing pid b c xs ys r held some_ref small =
    let count : ((c.buf b).refcnt + 2 ^ 32 - 1) % 2 ^ 32 ≡ (c.buf b).refcnt - 1 = omega arith in
    let less =
      set_buf b
        (record (c.buf b) { lock = releasesleep (c.buf b).lock; refcnt = (c.buf b).refcnt - 1 })
        c in
    let r' : IsRing less (xs ++ b ∷ ys) = record {
      seg = r.seg;
      apart = r.apart;
      no_head = r.no_head;
    } in
    elim (Bool-cases ((c.buf b).refcnt - 1 == 0)) [
      | inl e ↦ (
        link_first b (unlink b less),
        rw (count, held, e) refl,
        unfold link_first unlink in refl,
        inl (
          ground arith,
          link_first-IsRing (unlink b less) b (xs ++ ys) (unlink-IsRing less b xs ys r')
              (λ z. Outside-of 0 b xs ys r.no_head (sym z)) (Apart-of b xs ys r.apart),
        ),
      )
      | inr e ↦ (less, rw (count, held, e) refl, refl, inr (ground arith, r'))
    ]

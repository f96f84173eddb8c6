-- ===== src/Bio/Unique.antt =====
-- No block of the disk is in two buffers.
use os_project03_thread.Common.{
  ℕ, ◌≤◌, ◌≡◌, ◌≢◌, ◌⊎◌, inl, inr, refl, sym, arith, ◌∙◌, Bool, true, false, List, [], ◌∷◌,
  update_other, Bool-cases, length,
}
use os_project03_thread.Bio.{
  Bcache, Buf, Walk, stops, ends, spins, nbuf, is_block, is_unused, set_buf, got, counted, given,
  recycled, found, bget,
}
use os_project03_thread.Bio.Ring.{IsRing}
use os_project03_thread.Bio.Scan.{first_of, reversed, get_ordered, bget-Order}

-- `x` is an entry of the list.
unfoldable pub In : ℕ → List ℕ → Type 0
In x [] = ⊥
In x (y ∷ ys) = (x ≡ y) ⊎ In x ys

-- Two buffers of the ring with the same block are the same; those that have never been used have
-- device 0.
pub record IsUnique (c : Bcache) (l : List ℕ) : Type 0 where
  pub same :
      (x y : ℕ)
      → In x l
      → In y l
      → (c.buf x).dev ≢ 0
      → (c.buf x).dev ≡ (c.buf y).dev
      → (c.buf x).blockno ≡ (c.buf y).blockno
      → x ≡ y

first_of-ends :
    (test : ℕ → Bool) (l : List ℕ) → first_of test l ≡ ends → (x : ℕ) → In x l → test x ≡ false
unfolding first_of In
first_of-ends test [] h x m = absurd m
first_of-ends test (y ∷ ys) h x m = elim (Bool-cases (test y)) [
  | inl e ↦ absurd (ground arith)
  | inr e ↦ elim m [
    | inl same ↦ rw same e
    | inr later ↦ first_of-ends test ys (ground arith) x later
  ]
]

first_of-stops :
    (test : ℕ → Bool) (l : List ℕ) (b : ℕ) → first_of test l ≡ stops b → In b l × (test b ≡ true)
unfolding first_of In
first_of-stops test [] b h = absurd (ground arith)
first_of-stops test (y ∷ ys) b h = elim (Bool-cases (test y)) [
  | inl e ↦ let same : b ≡ y = ground arith in (inl same, rw same e)
  | inr e ↦ let (m, t) = first_of-stops test ys b (ground arith) in (inr m, t)
]

In-reversed : (x : ℕ) (l acc : List ℕ) → In x (reversed l acc) → In x l ⊎ In x acc
unfolding reversed In
In-reversed x [] acc m = inr m
In-reversed x (y ∷ ys) acc m = elim (In-reversed x ys (y ∷ acc) m) [
  | inl h ↦ inl (inr h)
  | inr (inl e) ↦ inl (inl e)
  | inr (inr h) ↦ inr h
]

-- The block that a buffer has after the call.
pub record Gives (c : Bcache) (l : List ℕ) (dev blockno b : ℕ) (c' : Bcache) : Type 0 where
  pub is_in : In b l
  pub has_dev : (c'.buf b).dev ≡ dev
  pub has_block : (c'.buf b).blockno ≡ blockno
  pub others : (a : ℕ) → a ≢ b → c'.buf a ≡ c.buf a
  pub unique : IsUnique c' l
  pub ring : IsRing c' l

-- `b` keeps its block, or takes one that no buffer has.
set_buf-IsUnique :
    (c : Bcache) (l : List ℕ) (b : ℕ) (v : Buf)
    → IsUnique c l
    → ((v.dev ≡ (c.buf b).dev) × (v.blockno ≡ (c.buf b).blockno))
      ⊎ ((x : ℕ) → In x l → is_block c v.dev v.blockno x ≡ false)
    → IsUnique (set_buf b v c) l
set_buf-IsUnique c l b v u (inl (d, n)) = record {
  same = λ x y mx my used e f. ground (arith, u.same x y mx my);
}
set_buf-IsUnique c l b v u (inr absent) = record {
  same = λ x y mx my used e f. ground (arith, u.same x y mx my, absent x mx, absent y my);
}

given-In : (x : ℕ) (l : List ℕ) → In x (reversed l []) → In x l
unfolding In
given-In x l m = elim (In-reversed x l [] m) [ inl h ↦ h | inr h ↦ absurd h ]

counted-Gives :
    (c : Bcache) (l : List ℕ) (dev blockno x : ℕ)
    → IsRing c l
    → IsUnique c l
    → In x l
    → is_block c dev blockno x ≡ true
    → Gives c l dev blockno x (counted x c)
counted-Gives c l dev blockno x r u m t = record {
  is_in = m;
  has_dev = ground arith;
  has_block = ground arith;
  others = λ a ne. update_other c.buf x a _ ne;
  unique = set_buf-IsUnique c l x _ u (inl (refl, refl));
  ring = record { seg = r.seg; apart = r.apart; no_head = r.no_head };
}

given-Gives :
    (c : Bcache) (l : List ℕ) (dev blockno x : ℕ)
    → IsRing c l
    → IsUnique c l
    → In x l
    → ((y : ℕ) → In y l → is_block c dev blockno y ≡ false)
    → Gives c l dev blockno x (given dev blockno x c)
given-Gives c l dev blockno x r u m absent = record {
  is_in = m;
  has_dev = ground arith;
  has_block = ground arith;
  others = λ a ne. update_other c.buf x a _ ne;
  unique = set_buf-IsUnique c l x _ u (inr absent);
  ring = record { seg = r.seg; apart = r.apart; no_head = r.no_head };
}

-- `bget` keeps every block in one buffer at most, and the buffer
-- that it returns is in the ring, has that block, and is the only one that changes.
pub bget-Gives :
    (c : Bcache) (l : List ℕ) (dev blockno b : ℕ) (c' : Bcache)
    → IsRing c l
    → length l ≤ nbuf
    → IsUnique c l
    → bget dev blockno c ≡ got b c'
    → Gives c l dev blockno b c'
unfolding get_ordered
bget-Gives c l dev blockno b c' r small u h =
    go (first_of (is_block c dev blockno) l) refl (sym (bget-Order c l r small dev blockno) ∙ h)
  where
    again :
        (w : Walk)
        → first_of (is_unused c) (reversed l []) ≡ w
        → first_of (is_block c dev blockno) l ≡ ends
        → recycled dev blockno c w ≡ got b c'
        → Gives c l dev blockno b c'
    again (stops x) e absent g =
        let (m, t) = first_of-stops (is_unused c) (reversed l []) x e in
        let is_x : x ≡ b = ground arith in
        let is_c : given dev blockno x c ≡ c' = ground arith in
        rw (← is_x, ← is_c)
          (given-Gives c l dev blockno x r u (given-In x l m) (first_of-ends _ l absent))
    again ends e absent g = absurd (ground arith)
    again spins e absent g = absurd (ground arith)

    go :
        (w : Walk)
        → first_of (is_block c dev blockno) l ≡ w
        → found c (recycled dev blockno c (first_of (is_unused c) (reversed l []))) w ≡ got b c'
        → Gives c l dev blockno b c'
    go (stops x) e g =
        let (m, t) = first_of-stops (is_block c dev blockno) l x e in
        let is_x : x ≡ b = ground arith in
        let is_c : counted x c ≡ c' = ground arith in
        rw (← is_x, ← is_c) (counted-Gives c l dev blockno x r u m t)
    go ends e g = again (first_of (is_unused c) (reversed l [])) refl e g
    go spins e g = absurd (ground arith)

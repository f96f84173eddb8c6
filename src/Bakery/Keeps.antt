-- ===== src/Bakery/Keeps.antt =====
-- A step of a thread keeps what the threads rely on.
use os_project03_thread.Common.{
  ℕ, ◌≤◌, ◌<◌, ◌≡◌, ◌≢◌, ◌⊎◌, inl, inr, refl, arith, true, ◌==◌, Bool-cases,
}
use os_project03_thread.Bakery.{
  num_threads, Shared, Pc, idle, calls_max, scan, rereads, finished, look, see_zero, see_less,
  see_tie, inside, adding, Move, starts, reads_smaller, reads_larger, takes, passes_door, sees_zero,
  sees_more, passes, unlocks,
}
use os_project03_thread.Bakery.Claims.{is_past_door, IsLocal, Behind, Half, Tie, Claim}

-- The premise of a step, for the clauses below that cannot name it.
abbrev Guard : {t : ℕ} {m m' : Shared} {p p' : Pc} → Move t m p m' p' → Type 0
Guard {t} {m} (reads_smaller {p} {x} _ _) = (p < num_threads) × (m.number p ≤ x)
Guard {t} {m} (reads_larger {p} {x} _ _) = (p < num_threads) × (x < m.number p)
Guard {t} {m} (passes_door {j} _ _) = (j < num_threads) × (m.choosing j ≡ 0)
Guard {t} {m} (sees_zero {j} _) = m.number j ≡ 0
Guard {t} {m} (sees_more {j} _) = m.number t ≤ m.number j
Guard {t} {m} (passes {j} _) = (m.number j ≢ m.number t) ⊎ (t ≤ j)
Guard (takes {p} _) = num_threads ≤ p
Guard _ = Unit

guard : {t : ℕ} {m m' : Shared} {p p' : Pc} (mv : Move t m p m' p') → Guard mv
guard (reads_smaller g h) = (g, h)
guard (reads_larger g h) = (g, h)
guard (passes_door g h) = (g, h)
guard (sees_zero g) = g
guard (sees_more g) = g
guard (passes g) = g
guard (takes g) = g
guard _ = tt

pub Move-IsLocal :
    {t : ℕ} {m m' : Shared} {p p' : Pc} → Move t m p m' p' → IsLocal m t p → IsLocal m' t p'
Move-IsLocal starts l = record {
  numbered = λ h. ground arith;
  unnumbered = λ h. l.unnumbered refl;
  open_door = λ h. ground arith;
  shut_door = λ h. ground arith;
}
Move-IsLocal mv l = record {
  numbered = λ h. ground (arith, l.numbered);
  unnumbered = λ h. ground (arith, l.unnumbered);
  open_door = λ h. ground (arith, l.open_door);
  shut_door = λ h. ground (arith, l.shut_door);
}

-- A step of `t` leaves the variables of another thread alone.
pub Move-away :
    {t : ℕ} {m m' : Shared} {p p' : Pc}
    → Move t m p m' p'
    → (i : ℕ) → i ≢ t
    → (m'.number i ≡ m.number i) × (m'.choosing i ≡ m.choosing i)
Move-away starts i ne = ground arith
Move-away mv i ne = ground arith

-- A thread that is behind `i` stays behind it.
pub Move-Behind :
    {t : ℕ} {m m' : Shared} {p p' : Pc}
    → Move t m p m' p'
    → (i : ℕ) → i < num_threads
    → i ≢ t
    → Behind m i t p
    → Behind m' i t p'
Move-Behind starts i low ne b = tt
Move-Behind mv i low ne b = ground (arith, guard mv)

-- A thread that is past its door stays so, with its number, until it unlocks.
Move-past :
    {t : ℕ} {m m' : Shared} {p p' : Pc}
    → Move t m p m' p'
    → (i : ℕ) → is_past_door p ≡ true
    → Behind m' i t p' ⊎ ((is_past_door p' ≡ true) × (m'.number t ≡ m.number t))
Move-past starts i b = absurd (ground arith)
Move-past (unlocks g) i b = inl tt
Move-past mv i b = ground arith

module _ {t : ℕ} {m m' : Shared} {p p' : Pc} (mv : Move t m p m' p') where
  Move-Half : (i : ℕ) → i < num_threads → i ≢ t → Half m i t p → Half m' i t p'
  Move-Half i low ne (inl b) = inl (Move-Behind mv i low ne b)
  Move-Half i low ne (inr b) = elim (Move-past mv i b) [ inl c ↦ inl c | inr c ↦ inr c.0 ]

  Move-Tie : (i : ℕ) → i < num_threads → i ≢ t → Tie m i t p → Tie m' i t p'
  Move-Tie i low ne (inl b) = inl (Move-Behind mv i low ne b)
  Move-Tie i low ne (inr b) = elim (Move-past mv i b.0) [
    | inl c ↦ inl c
    | inr c ↦ inr (c.0, rw (c.1, (Move-away mv i ne).0) b.1, b.2)
  ]

  -- What another thread `i`, at `q`, relies on about `t`.
  pub Move-Claim_other :
      (i : ℕ) (q : Pc) → i < num_threads → i ≢ t → Claim m i q t p → Claim m' i q t p'
  Move-Claim_other i (look j) low ne c = λ h. Move-Behind mv i low ne (c h)
  Move-Claim_other i (see_zero j) low ne c =
      (λ h. Move-Behind mv i low ne (c.0 h), λ h. Move-Half i low ne (c.1 h))
  Move-Claim_other i (see_less j) low ne c =
      (λ h. Move-Behind mv i low ne (c.0 h), λ h. Move-Half i low ne (c.1 h))
  Move-Claim_other i (see_tie j) low ne c =
      (λ h. Move-Behind mv i low ne (c.0 h), λ h. Move-Tie i low ne (c.1 h))
  Move-Claim_other i (inside k) low ne c = Move-Behind mv i low ne c
  Move-Claim_other i (adding k v) low ne c = Move-Behind mv i low ne c
  Move-Claim_other i q low ne c = tt

-- No number above thread `i` falls below that of `i`.
abbrev pub Ahead : Shared → Shared → ℕ → Type 0
Ahead m m' i = (r : ℕ) → (i < r → m.number i ≤ m.number r) → i < r → m'.number i ≤ m'.number r

-- A thread with a later turn than `t`, and a smaller place in the array, has no smaller number.
not_ahead :
    (m : Shared) (t i : ℕ) (q : Pc)
    → IsLocal m i q
    → Behind m t i q
    → i < t
    → m.number i ≤ m.number t
    → m.number i ≡ 0
not_ahead m t i idle l b low h = l.unnumbered refl
not_ahead m t i calls_max l b low h = l.unnumbered refl
not_ahead m t i (scan p x) l b low h = l.unnumbered refl
not_ahead m t i (rereads p) l b low h = l.unnumbered refl
not_ahead m t i finished l b low h = l.unnumbered refl
not_ahead m t i q l b low h = absurd (omega arith)

pub Move-Ahead :
    {t : ℕ} {m m' : Shared} {p p' : Pc}
    → Move t m p m' p'
    → (i : ℕ) (q : Pc) → i ≢ t
    → IsLocal m t p
    → IsLocal m i q
    → Claim m t p i q
    → Ahead m m' i
Move-Ahead {t} {m} (takes g) i q ne here l c = λ r b low. elim (Bool-cases (r == t)) [
  | inl e ↦ ground (arith, here.unnumbered refl)
  | inr e ↦ ground arith
]
Move-Ahead {t} {m} (unlocks g) i q ne here l c = λ r b low. elim (Bool-cases (r == t)) [
  | inl e ↦
      let below : i < t = ground arith in
      let ahead : m.number i ≤ m.number t = ground (arith, b low) in
      ground (arith, not_ahead m t i q l c below ahead)
  | inr e ↦ ground arith
]
Move-Ahead mv i q ne here l c = λ r b low. ground arith

-- `Behind` reads only two numbers, or what a second read of `max` will find.
pub Behind-same :
    (m m' : Shared) (i k : ℕ) (q : Pc)
    → m'.number i ≡ m.number i
    → m'.number k ≡ m.number k
    → Ahead m m' i
    → Behind m i k q
    → Behind m' i k q
Behind-same m m' i k idle e f a b = tt
Behind-same m m' i k (rereads p) e f a b = a p b
Behind-same m m' i k q e f a b = ground arith

Half-same :
    (m m' : Shared) (i k : ℕ) (q : Pc)
    → m'.number i ≡ m.number i
    → m'.number k ≡ m.number k
    → Ahead m m' i
    → Half m i k q
    → Half m' i k q
Half-same m m' i k q e f a (inl b) = inl (Behind-same m m' i k q e f a b)
Half-same m m' i k q e f a (inr b) = inr b

Tie-same :
    (m m' : Shared) (i k : ℕ) (q : Pc)
    → m'.number i ≡ m.number i
    → m'.number k ≡ m.number k
    → Ahead m m' i
    → Tie m i k q
    → Tie m' i k q
Tie-same m m' i k q e f a (inl b) = inl (Behind-same m m' i k q e f a b)
Tie-same m m' i k q e f a (inr b) = inr (b.0, rw (e, f) b.1, b.2)

-- What two other threads rely on about each other.
pub Move-Claim_third :
    (m m' : Shared) (i : ℕ) (q : Pc) (k : ℕ) (r : Pc)
    → m'.number i ≡ m.number i
    → m'.number k ≡ m.number k
    → Ahead m m' i
    → Claim m i q k r
    → Claim m' i q k r
Move-Claim_third m m' i idle k r e f a c = tt
Move-Claim_third m m' i (look j) k r e f a c = λ h. Behind-same m m' i k r e f a (c h)
Move-Claim_third m m' i (see_zero j) k r e f a c =
    (λ h. Behind-same m m' i k r e f a (c.0 h), λ h. Half-same m m' i k r e f a (c.1 h))
Move-Claim_third m m' i (see_less j) k r e f a c =
    (λ h. Behind-same m m' i k r e f a (c.0 h), λ h. Half-same m m' i k r e f a (c.1 h))
Move-Claim_third m m' i (see_tie j) k r e f a c =
    (λ h. Behind-same m m' i k r e f a (c.0 h), λ h. Tie-same m m' i k r e f a (c.1 h))
Move-Claim_third m m' i (inside j) k r e f a c = Behind-same m m' i k r e f a c
Move-Claim_third m m' i (adding j v) k r e f a c = Behind-same m m' i k r e f a c
Move-Claim_third m m' i q k r e f a c = tt

-- ===== src/Bakery/Own.antt =====
-- What a thread may rely on after a step of its own: the tests that it makes in `lock`.
use os_project03_thread.Common.{
  ℕ, ◌+◌, ◌≤◌, ◌<◌, ◌≡◌, ◌≢◌, ◌⊎◌, inl, inr, refl, arith, true, ltb, ◌==◌, Bool-cases,
}
use os_project03_thread.Bakery.{
  num_threads, Shared, Pc, idle, calls_max, scan, rereads, announced, finished, Move, starts,
  reads_first, reads_smaller, reads_larger, reads_again, takes, opens, waits_door, passes_door,
  sees_zero, sees_number, sees_less, sees_more, sees_tie, passes, enters, loads, stores, unlocks,
}
use os_project03_thread.Bakery.Claims.{is_past_door, IsLocal, Before, Behind, Half, Tie, Claim}
use os_project03_thread.Bakery.Keeps.{Behind-same}

-- A thread with its door shut has no number, or has had it for some time.
shut-Half : (m : Shared) (i k : ℕ) (q : Pc) → IsLocal m k q → m.choosing k ≡ 0 → Half m i k q
shut-Half m i k idle l e = inl tt
shut-Half m i k calls_max l e = absurd (omega (arith, l.open_door refl))
shut-Half m i k (scan p x) l e = absurd (omega (arith, l.open_door refl))
shut-Half m i k (rereads p) l e = absurd (omega (arith, l.open_door refl))
shut-Half m i k announced l e = absurd (omega (arith, l.open_door refl))
shut-Half m i k finished l e = inl tt
shut-Half m i k q l e = inr refl

-- A thread whose number is 0 has given up the one it had.
zero-Behind :
    (m : Shared) (i k : ℕ) (q : Pc) → IsLocal m k q → m.number k ≡ 0 → Half m i k q → Behind m i k q
zero-Behind m i k q l e (inl b) = b
zero-Behind m i k idle l e (inr b) = tt
zero-Behind m i k calls_max l e (inr b) = tt
zero-Behind m i k (scan p x) l e (inr b) = absurd (ground arith)
zero-Behind m i k (rereads p) l e (inr b) = absurd (ground arith)
zero-Behind m i k finished l e (inr b) = tt
zero-Behind m i k q l e (inr b) = absurd (omega (arith, l.numbered refl))

Before-Behind :
    (m : Shared) (i k : ℕ) (q : Pc) → is_past_door q ≡ true → Before m i k → Behind m i k q
Before-Behind m i k idle e b = tt
Before-Behind m i k calls_max e b = tt
Before-Behind m i k (scan p x) e b = absurd (ground arith)
Before-Behind m i k (rereads p) e b = absurd (ground arith)
Before-Behind m i k finished e b = tt
Before-Behind m i k q e b = b

more-Tie :
    (m : Shared) (i k : ℕ) (q : Pc) → i ≢ k → m.number i ≤ m.number k → Half m i k q → Tie m i k q
more-Tie m i k q ne h (inl b) = inl b
more-Tie m i k q ne h (inr b) = elim (Bool-cases (m.number k == m.number i)) [
  | inl e ↦ elim (Bool-cases (ltb k i)) [
    | inl less ↦ inr (b, ground arith, ground arith)
    | inr more ↦ inl (Before-Behind m i k q b (inr (ground arith, ground arith)))
  ]
  | inr e ↦ inl (Before-Behind m i k q b (inl (ground arith)))
]

passed-Behind :
    (m : Shared) (i k : ℕ) (q : Pc)
    → (m.number k ≢ m.number i) ⊎ (i ≤ k)
    → Tie m i k q
    → Behind m i k q
passed-Behind m i k q h (inl b) = b
passed-Behind m i k q h (inr b) = absurd (ground arith)

-- A round that is over: what held of the threads before `j` holds of those before `j + 1`.
round :
    (m : Shared) (i j k : ℕ) (q : Pc)
    → (k < j → Behind m i k q)
    → (k ≡ j → Behind m i k q)
    → k < j + 1
    → Behind m i k q
round m i j k q old new h = elim (Bool-cases (k == j)) [
  | inl e ↦ new (ground arith)
  | inr e ↦ old (ground arith)
]

-- What thread `t` relies on about thread `k`, at `q`.
pub Move-Claim_own :
    {t : ℕ} {m m' : Shared} {p p' : Pc}
    → Move t m p m' p'
    → (k : ℕ) (q : Pc) → k < num_threads
    → t ≢ k
    → IsLocal m k q
    → Claim m t p k q
    → Claim m' t p' k q
Move-Claim_own starts k q low ne l c = tt
Move-Claim_own reads_first k q low ne l c = tt
Move-Claim_own (reads_smaller g h) k q low ne l c = tt
Move-Claim_own (reads_larger g h) k q low ne l c = tt
Move-Claim_own reads_again k q low ne l c = tt
Move-Claim_own (takes g) k q low ne l c = tt
Move-Claim_own opens k q low ne l c = λ h. absurd (omega arith)
Move-Claim_own (waits_door g) k q low ne l c = c
Move-Claim_own {t} {m} (passes_door {j} below g) k q low ne l c =
    (c, λ e. shut-Half m t k q l (rw e g))
Move-Claim_own {t} {m} (sees_zero {j} g) k q low ne l c =
    round m t j k q c.0 (λ e. zero-Behind m t k q l (rw e g) (c.1 e))
Move-Claim_own (sees_number g) k q low ne l c = c
Move-Claim_own (sees_less g) k q low ne l c = c
Move-Claim_own {t} {m} (sees_more {j} g) k q low ne l c =
    (c.0, λ e. more-Tie m t k q ne (rw e g) (c.1 e))
Move-Claim_own {t} {m} (sees_tie {j} g less) k q low ne l c =
    (c.0, λ e. elim (c.1 e) [ inl b ↦ inl b | inr b ↦ inr b.0 ])
Move-Claim_own {t} {m} (passes {j} g) k q low ne l c =
    round m t j k q c.0 (λ e. passed-Behind m t k q (rw e g) (c.1 e))
Move-Claim_own (enters g) k q low ne l c = c (omega arith)
Move-Claim_own (loads g) k q low ne l c = c
Move-Claim_own {t} {m} (stores {v}) k q low ne l c =
    Behind-same m (record m { shared_resource = v + 1 }) t k q refl refl (λ r b. b) c
Move-Claim_own (unlocks g) k q low ne l c = tt

-- ===== src/Bakery/Runs.antt =====
-- The executable runs are runs of the step relation.
use os_project03_thread.Common.{
  ℕ, ◌<◌, ◌≡◌, ◌≢◌, ◌⊎◌, inl, inr, refl, arith, ltb, ◌==◌, ◌&&◌, update, List, [], ◌∷◌, Bool-cases,
  fun_ext, ==_refl, sym,
}
use os_project03_thread.Bakery.{
  num_threads, num_iters, Shared, Pc, idle, calls_max, scan, rereads, announced, look, see_zero,
  see_less, see_tie, inside, adding, finished, Move, starts, reads_first, reads_smaller,
  reads_larger, reads_again, takes, opens, waits_door, passes_door, sees_zero, sees_number,
  sees_less, sees_more, sees_tie, passes, enters, loads, stores, unlocks, advance, run, System,
  pick, Reach, later,
}

-- A thread that has not ended always has a step, and `advance` makes it.
pub advance-Move :
    (t : ℕ) (m : Shared) (p : Pc) → p ≢ finished → Move t m p (advance t m p).0 (advance t m p).1
unfolding advance
advance-Move t m idle h = starts
advance-Move t m calls_max h = reads_first
advance-Move t m (scan p x) h = elim (Bool-cases (ltb p num_threads)) [
  | inl e ↦ elim (Bool-cases (ltb x (m.number p))) [
    | inl f ↦ rw (e, f) (reads_larger (ground arith) (ground arith))
    | inr f ↦ rw (e, f) (reads_smaller (ground arith) (ground arith))
  ]
  | inr e ↦ rw e (takes (ground arith))
]
advance-Move t m (rereads p) h = reads_again
advance-Move t m announced h = opens
advance-Move t m (look j) h = elim (Bool-cases (ltb j num_threads)) [
  | inl e ↦ elim (Bool-cases (m.choosing j == 0)) [
    | inl f ↦ rw (e, f) (passes_door (ground arith) (ground arith))
    | inr f ↦ rw (e, f) (waits_door (ground arith))
  ]
  | inr e ↦ rw e (enters (ground arith))
]
advance-Move t m (see_zero j) h = elim (Bool-cases (m.number j == 0)) [
  | inl e ↦ rw e (sees_zero (ground arith))
  | inr e ↦ rw e (sees_number (ground arith))
]
advance-Move t m (see_less j) h = elim (Bool-cases (ltb (m.number j) (m.number t))) [
  | inl e ↦ rw e (sees_less (ground arith))
  | inr e ↦ rw e (sees_more (ground arith))
]
advance-Move t m (see_tie j) h = elim (Bool-cases (m.number j == m.number t && ltb j t)) [
  | inl e ↦ rw e (sees_tie (ground arith) (ground arith))
  | inr e ↦ rw e (passes (ground arith))
]
advance-Move t m (inside k) h = elim (Bool-cases (ltb k num_iters)) [
  | inl e ↦ rw e (loads (ground arith))
  | inr e ↦ rw e (unlocks (ground arith))
]
advance-Move t m (adding k v) h = stores
advance-Move t m finished h = absurd (h refl)

has_ended : (p : Pc) → (p ≡ finished) ⊎ (p ≢ finished)
has_ended finished = inl refl
has_ended p = inr (λ e. ground arith)

unfoldable pub AreThreads : List ℕ → Type 0
AreThreads [] = Unit
AreThreads (tid ∷ turns) = (tid < num_threads) × AreThreads turns

-- A turn of a thread that has ended changes nothing.
update_self : (pc : ℕ → Pc) (t : ℕ) (p : Pc) → pc t ≡ p → update pc t p ≡ pc
update_self pc t p e = fun_ext (λ i. elim (Bool-cases (i == t)) [
  | inl f ↦ let same : i ≡ t = ground arith in rw (same, ==_refl t) (sym e)
  | inr f ↦ rw f refl
])

turn :
    (s : System) (t : ℕ)
    → t < num_threads
    → Reach s
    → Reach (record {
      mem = (advance t s.mem (s.pc t)).0;
      pc = update s.pc t (advance t s.mem (s.pc t)).1;
    })
unfolding advance
turn s t low r = elim (has_ended (s.pc t)) [
  | inl e ↦ rw (e, update_self s.pc t finished e) r
  | inr e ↦ later r (pick t low (advance-Move t s.mem (s.pc t) e))
]

-- Every run of the executable threads is one that the step relation allows.
pub run-Reach : (turns : List ℕ) (s : System) → AreThreads turns → Reach s → Reach (run turns s)
unfolding run AreThreads
run-Reach [] s h r = r
run-Reach (t ∷ turns) s h r = run-Reach turns _ h.1 (turn s t h.0 r)

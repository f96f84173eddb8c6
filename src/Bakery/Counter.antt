-- ===== src/Bakery/Counter.antt =====
-- The counter that the threads share: no increment is lost.
use os_project03_thread.Common.{
  ℕ, zero, suc, ◌+◌, ◌*◌, ◌≤◌, ◌<◌, ◌≡◌, ◌≢◌, ◌⊎◌, inl, inr, refl, arith, ◌∙◌, true, false, update,
  update_same, update_other, ◌==◌, Bool-cases,
}
use os_project03_thread.Bakery.{
  num_threads, num_iters, Shared, Pc, inside, adding, finished, Move, System, Step, pick, Reach,
  start, later, starts, loads, stores, unlocks,
}
use os_project03_thread.Bakery.Safety.{Inv, Reach-Inv, is_inside, Inv-exclusive}

-- The increments that a thread has done.
unfoldable pub done : Pc → ℕ
done (inside k) = k
done (adding k v) = k
done finished = num_iters
done _ = 0

-- The increments of the threads below `n`.
unfoldable pub total_done : ℕ → (ℕ → Pc) → ℕ
total_done zero pc = 0
total_done (suc n) pc = total_done n pc + done (pc n)

total_done_above :
    (n : ℕ) (pc : ℕ → Pc) (t : ℕ) (p : Pc) → n ≤ t → total_done n (update pc t p) ≡ total_done n pc
unfolding total_done
total_done_above zero pc t p h = refl
total_done_above (suc n) pc t p h =
    rw (update_other pc t n p (λ e. omega arith), total_done_above n pc t p (omega arith)) refl

total_done-update :
    (n : ℕ) (pc : ℕ → Pc) (t : ℕ) (p : Pc)
    → t < n
    → total_done n (update pc t p) + done (pc t) ≡ total_done n pc + done p
unfolding total_done
total_done-update zero pc t p h = absurd (omega arith)
total_done-update (suc n) pc t p h = elim (Bool-cases (n == t)) [
  | inl e ↦
      let same : n ≡ t = ground arith in
      rw (same, update_same pc t p, total_done_above t pc t p (omega arith)) (omega arith)
  | inr e ↦
      let ne : n ≢ t = ground arith in
      let rest = total_done-update n pc t p (ground arith) in
      rw (update_other pc t n p ne) (omega (arith, rest))
]

-- A thread has increments left where it stands, and what it has read is still the counter.
abbrev IsCurrent : Shared → Pc → Type 0
IsCurrent m (inside k) = k ≤ num_iters
IsCurrent m (adding k v) = (m.shared_resource ≡ v) × (k < num_iters)
IsCurrent m _ = Unit

record Counted (m : Shared) (pc : ℕ → Pc) : Type 0 where
  current : (i : ℕ) → i < num_threads → IsCurrent m (pc i)
  exact : m.shared_resource ≡ total_done num_threads pc

-- A step changes the counter by what it adds to the thread's increments.
Move-done :
    {t : ℕ} {m m' : Shared} {p p' : Pc}
    → Move t m p m' p'
    → IsCurrent m p
    → (m'.shared_resource + done p ≡ m.shared_resource + done p') × IsCurrent m' p'
unfolding done
Move-done starts c = ground arith
Move-done (loads g) c = (refl, (refl, g))
Move-done (unlocks g) c = ground arith
Move-done mv c = ground arith

-- Only a thread that is inside changes it.
Move-counter :
    {t : ℕ} {m m' : Shared} {p p' : Pc}
    → Move t m p m' p'
    → (m'.shared_resource ≡ m.shared_resource) ⊎ (is_inside p ≡ true)
unfolding is_inside
Move-counter stores = inr refl
Move-counter mv = inl refl

IsCurrent-away :
    (m m' : Shared) (p q : Pc)
    → (m'.shared_resource ≡ m.shared_resource) ⊎ (is_inside p ≡ true)
    → (is_inside q ≡ true → is_inside p ≡ false)
    → IsCurrent m q
    → IsCurrent m' q
unfolding is_inside
IsCurrent-away m m' p (adding k v) (inl e) alone c = (e ∙ c.0, c.1)
IsCurrent-away m m' p (adding k v) (inr e) alone c = absurd (ground (arith, alone refl))
IsCurrent-away m m' p (inside k) e alone c = c
IsCurrent-away m m' p q e alone c = tt

Step-Counted : {s u : System} → Step s u → Inv s.mem s.pc → Counted s.mem s.pc → Counted u.mem u.pc
Step-Counted {s} (pick {m'} {p'} t low mv) inv c =
    let (sum, own) = Move-done mv (c.current t low) in
    record {
      current = λ i h. elim (Bool-cases (i == t)) [
        | inl e ↦ let same : i ≡ t = ground arith in rw (same, update_same s.pc t p') own
        | inr e ↦
            let ne : i ≢ t = ground arith in
            rw (update_other s.pc t i p' ne) (
              IsCurrent-away s.mem m' (s.pc t) (s.pc i) (Move-counter mv)
                (λ a. elim (Bool-cases (is_inside (s.pc t))) [
                  | inl b ↦ absurd (ne (Inv-exclusive inv i t h low a b))
                  | inr b ↦ b
                ])
                (c.current i h))
      ];
      exact = omega (arith, sum, c.exact, total_done-update num_threads s.pc t p' low);
    }

Reach-Counted : {s : System} → Reach s → Counted s.mem s.pc
unfolding total_done done
Reach-Counted start = record { current = λ i h. tt; exact = refl }
Reach-Counted (later r st) = Step-Counted st (Reach-Inv r) (Reach-Counted r)

-- In every state that the threads can reach, the counter is the sum of the increments that they
-- have done.
pub shared_resource_exact :
    {s : System} → Reach s → s.mem.shared_resource ≡ total_done num_threads s.pc
shared_resource_exact r = (Reach-Counted r).exact

all_done :
    (n : ℕ) (pc : ℕ → Pc) → ((i : ℕ) → i < n → pc i ≡ finished) → total_done n pc ≡ n * num_iters
unfolding total_done done
all_done zero pc h = refl
all_done (suc n) pc h =
    rw (h n (omega arith)) (omega (arith, all_done n pc (λ i q. h i (omega arith))))

-- When the ten threads have ended, `main` prints 100.
pub main_prints :
    {s : System}
    → Reach s
    → ((i : ℕ) → i < num_threads → s.pc i ≡ finished)
    → s.mem.shared_resource ≡ 100
main_prints {s} r h = shared_resource_exact r ∙ all_done num_threads s.pc h

-- ===== src/Bakery/Safety.antt =====
-- What holds in every state that the threads of the bakery can reach.
use os_project03_thread.Common.{
  ℕ, ◌<◌, ◌≡◌, ◌≢◌, inl, inr, refl, arith, Bool, true, false, update, update_same, update_other,
  ◌==◌, Bool-cases,
}
use os_project03_thread.Bakery.{
  num_threads, Shared, Pc, inside, adding, Move, System, Step, pick, Reach, start, later, init,
}
use os_project03_thread.Bakery.Claims.{IsLocal, Before, Claim}
use os_project03_thread.Bakery.Keeps.{
  Move-IsLocal, Move-away, Move-Ahead, Move-Claim_other, Move-Claim_third,
}
use os_project03_thread.Bakery.Own.{Move-Claim_own}

-- Each thread's variables are as its place says, and each may rely on what it has seen.
pub record Inv (m : Shared) (pc : ℕ → Pc) : Type 0 where
  pub here : (i : ℕ) → i < num_threads → IsLocal m i (pc i)
  pub claims : (i k : ℕ) → i < num_threads → k < num_threads → i ≢ k → Claim m i (pc i) k (pc k)

IsLocal-same :
    (m m' : Shared) (i : ℕ) (p : Pc)
    → m'.number i ≡ m.number i
    → m'.choosing i ≡ m.choosing i
    → IsLocal m i p
    → IsLocal m' i p
IsLocal-same m m' i p e f l = record {
  numbered = λ h. rw e (l.numbered h);
  unnumbered = λ h. rw e (l.unnumbered h);
  open_door = λ h. rw f (l.open_door h);
  shut_door = λ h. rw f (l.shut_door h);
}

module _ {m m' : Shared} {pc : ℕ → Pc} {p' : Pc} (t : ℕ) (low : t < num_threads)
    (mv : Move t m (pc t) m' p') (inv : Inv m pc) where
  Move-here : (i : ℕ) → i < num_threads → IsLocal m' i (update pc t p' i)
  Move-here i h = elim (Bool-cases (i == t)) [
    | inl e ↦
        let same : i ≡ t = ground arith in
        rw (same, update_same pc t p') (Move-IsLocal mv (inv.here t low))
    | inr e ↦
        let ne : i ≢ t = ground arith in
        let (a, b) = Move-away mv i ne in
        rw (update_other pc t i p' ne) (IsLocal-same m m' i (pc i) a b (inv.here i h))
  ]

  Move-claims :
      (i k : ℕ)
      → i < num_threads
      → k < num_threads
      → i ≢ k
      → Claim m' i (update pc t p' i) k (update pc t p' k)
  Move-claims i k hi hk ne = elim (Bool-cases (i == t)) [
    | inl e ↦
        let same : i ≡ t = ground arith in
        let other : k ≢ t = ground arith in
        rw (same, update_same pc t p', update_other pc t k p' other)
          (Move-Claim_own mv k (pc k) hk (λ q. other (ground arith)) (inv.here k hk)
            (inv.claims t k low hk (λ q. other (ground arith))))
    | inr e ↦
        let away : i ≢ t = ground arith in
        elim (Bool-cases (k == t)) [
          | inl f ↦
              let same : k ≡ t = ground arith in
              rw (same, update_same pc t p', update_other pc t i p' away)
                (Move-Claim_other mv i (pc i) hi away (inv.claims i t hi low away))
          | inr f ↦
              let other : k ≢ t = ground arith in
              rw (update_other pc t i p' away, update_other pc t k p' other)
                (Move-Claim_third m m' i (pc i) k (pc k) (Move-away mv i away).0
                  (Move-away mv k other).0
                  (Move-Ahead mv i (pc i) away (inv.here t low) (inv.here i hi)
                    (inv.claims t i low hi (λ q. away (ground arith))))
                  (inv.claims i k hi hk ne))
        ]
  ]

pub Step-Inv : {s u : System} → Step s u → Inv s.mem s.pc → Inv u.mem u.pc
Step-Inv (pick t low mv) inv = record {
  here = Move-here t low mv inv;
  claims = Move-claims t low mv inv;
}

Inv-init : Inv init.mem init.pc
Inv-init = record {
  here = λ i h. record {
    numbered = λ q. absurd (ground arith);
    unnumbered = λ q. refl;
    open_door = λ q. absurd (ground arith);
    shut_door = λ q. refl;
  };
  claims = λ i k hi hk ne. tt;
}

pub Reach-Inv : {s : System} → Reach s → Inv s.mem s.pc
Reach-Inv start = Inv-init
Reach-Inv (later r st) = Step-Inv st (Reach-Inv r)

-- The thread is between `lock` and `unlock`.
unfoldable pub is_inside : Pc → Bool
is_inside (inside k) = true
is_inside (adding k v) = true
is_inside _ = false

inside-Before :
    (m : Shared) (i : ℕ) (p : Pc) (k : ℕ) (q : Pc)
    → is_inside p ≡ true
    → is_inside q ≡ true
    → Claim m i p k q
    → Before m i k
unfolding is_inside
inside-Before m i (inside c) k (inside d) a b h = h
inside-Before m i (inside c) k (adding d v) a b h = h
inside-Before m i (adding c u) k (inside d) a b h = h
inside-Before m i (adding c u) k (adding d v) a b h = h
inside-Before m i p k q a b h = absurd (ground arith)

pub Inv-exclusive :
    {m : Shared} {pc : ℕ → Pc}
    → Inv m pc
    → (i k : ℕ) → i < num_threads
    → k < num_threads
    → is_inside (pc i) ≡ true
    → is_inside (pc k) ≡ true
    → i ≡ k
Inv-exclusive {m} {pc} inv i k hi hk a b = elim (Bool-cases (i == k)) [
  | inl e ↦ ground arith
  | inr e ↦
      let first =
        inside-Before m i (pc i) k (pc k) a b (inv.claims i k hi hk (λ q. ground arith)) in
      let second =
        inside-Before m k (pc k) i (pc i) b a (inv.claims k i hk hi (λ q. ground arith)) in
      absurd (omega arith)
]

-- Whatever the order of their steps, two threads are never both between `lock` and `unlock`.
pub mutual_exclusion :
    {s : System}
    → Reach s
    → (i k : ℕ) → i < num_threads
    → k < num_threads
    → is_inside (s.pc i) ≡ true
    → is_inside (s.pc k) ≡ true
    → i ≡ k
mutual_exclusion r = Inv-exclusive (Reach-Inv r)

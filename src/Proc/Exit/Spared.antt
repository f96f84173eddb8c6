-- ===== src/Proc/Exit/Spared.antt =====
-- exit: what becomes of the entries of other processes.
use os_project03_thread.Common.{
  ℕ, ◌≡◌, ◌⊎◌, inl, inr, refl, ap, true, arith, ◌==◌, ◌+◌, ◌&&◌, leb, ltb, ==_refl, Bool-cases,
  sweep_lem,
}
use os_project03_thread.Kernel.State.{Kernel, Proc, is_sleeping, is_zombie, runnable, nproc}
use os_project03_thread.Kernel.Run.{set_proc}
use os_project03_thread.Proc.Sleep.{wake, wakeup1}
use os_project03_thread.Proc.Exit.{pass_child}

-- The entry `q` is `p`, but that a sleeper may have been woken, and that a child of `cur` may be one of
-- `init`.
pub record Spared (cur init : ℕ) (p q : Proc) : Type 0 where
  pub state : (q.state ≡ p.state) ⊎ ((is_sleeping p.state ≡ true) × (q.state ≡ runnable))
  pub parent : (q.parent ≡ p.parent) ⊎ ((p.parent ≡ cur) × (q.parent ≡ init))
  pub rest : q ≡ record p { state = q.state; parent = q.parent }

pub Spared-same : (cur init : ℕ) (p : Proc) → Spared cur init p p
Spared-same cur init p = record { state = inl refl; parent = inl refl; rest = refl }

module _ (cur init : ℕ) (old : Proc) where
  woken-Spared :
      (q : Proc)
      → is_sleeping q.state ≡ true
      → Spared cur init old q
      → Spared cur init old (record q { state = runnable })
  woken-Spared q e h = record {
    state = inr (ground (arith, h.state), refl);
    parent = h.parent;
    rest = ap {A = Proc} {B = Proc} (λ r. record r { state = runnable; parent = q.parent }) h.rest;
  }

  wake-Spared : (chan : ℕ) (q : Proc) → Spared cur init old q → Spared cur init old (wake chan q)
  unfolding wake
  wake-Spared chan q h = elim (Bool-cases (is_sleeping q.state && (q.chan == chan))) [
    | inl e ↦ rw e (woken-Spared q (ground arith) h)
    | inr e ↦ rw e h
  ]

  moved-Spared :
      (q : Proc)
      → q.parent ≡ cur
      → Spared cur init old q
      → Spared cur init old (record q { parent = init })
  moved-Spared q e h = record {
    state = h.state;
    parent = ground (arith, h.parent);
    rest = ap {A = Proc} {B = Proc} (λ r. record r { state = q.state; parent = init }) h.rest;
  }

  module _ {M : Type 0} where
    pub wakeup1-Spared :
        (chan j : ℕ) (k : Kernel M)
        → Spared cur init old (k.proc j)
        → Spared cur init old ((wakeup1 chan k).proc j)
    unfolding wakeup1
    wakeup1-Spared chan j k h =
        rw (sweep_lem (wake chan) nproc 1 k.proc j)
          (elim (Bool-cases (leb 1 j && ltb j (1 + nproc))) [
            | inl e ↦ rw e (wake-Spared chan (k.proc j) h)
            | inr e ↦ rw e h
          ])

    row_moved :
        (p j : ℕ) (k : Kernel M)
        → (k.proc p).parent ≡ cur
        → Spared cur init old (k.proc j)
        → Spared cur init old ((set_proc p (λ r. record r { parent = init }) k).proc j)
    row_moved p j k e h = elim (Bool-cases (j == p)) [
      | inl q ↦
          let same : j ≡ p = ground arith in
          rw (same, ==_refl p) (moved-Spared (k.proc p) e (rw same at h))
      | inr q ↦ rw q h
    ]

    pub pass_child-Spared :
        (p j : ℕ) (k : Kernel M)
        → k.initproc ≡ init
        → Spared cur init old (k.proc j)
        → Spared cur init old ((pass_child cur p k).proc j)
    unfolding pass_child wakeup1
    pass_child-Spared p j k e h = elim (Bool-cases ((k.proc p).parent == cur)) [
      | inl q ↦
          let moved = row_moved p j k (ground arith) h in
          rw (q, e)
            (elim (Bool-cases (is_zombie (k.proc p).state)) [
              | inl z ↦
                  rw z
                    (wakeup1-Spared init j (set_proc p (λ r. record r { parent = init }) k) moved)
              | inr z ↦ rw z moved
            ])
      | inr q ↦ rw q h
    ]

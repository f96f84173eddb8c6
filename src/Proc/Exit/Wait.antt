-- ===== src/Proc/Exit/Wait.antt =====
-- wait: its three outcomes.
use os_project03_thread.Common.{
  ℕ, zero, suc, ◌+◌, ◌≤◌, ◌<◌, ◌≡◌, ◌≢◌, inl, inr, refl, true, false, arith, ◌==◌, ◌&&◌, ◌||◌, Bool,
  Bool-cases, Option, none, ne→==_false, eq→==_true,
}
use os_project03_thread.Kernel.State.{Kernel, Proc, is_zombie, nproc, sleeping}
use os_project03_thread.Kernel.Ops.{Ops}
use os_project03_thread.Kernel.Run.{
  ok, switched, IsOpen, IsLocked, set_proc, acquire-entered, entered, entered-IsLocked,
  release-left, left, sched-switched,
}
use os_project03_thread.Proc.Sleep.{sleep}
use os_project03_thread.Proc.Exit.{havekids, wait_scan, wait_end, wait_pass, wait}

-- The entries that the scan stops at.
abbrev pub is_reapable : ℕ → Proc → Bool
is_reapable cur p = (p.parent == cur) && is_zombie p.state && (p.im_master == 1)

scan-rest :
    (t : ℕ → Proc) (cur n i : ℕ) (kids b : Bool)
    → wait_scan t cur (suc n) i kids ≡ havekids b
    → (wait_scan t cur n (i + 1) (kids || ((t i).parent == cur)) ≡ havekids b)
      × (is_reapable cur (t i) ≡ false)
unfolding wait_scan
scan-rest t cur n i kids b h = ground arith

zero_kids :
    (t : ℕ → Proc) (cur i : ℕ) (kids : Bool)
    → wait_scan t cur zero i kids ≡ havekids false
    → kids ≡ false
unfolding wait_scan
zero_kids t cur i kids h = ground arith

-- No child at all.
scan-none :
    (t : ℕ → Proc) (cur n i : ℕ) (kids : Bool)
    → wait_scan t cur n i kids ≡ havekids false
    → (kids ≡ false) × ((j : ℕ) → i ≤ j → j < i + n → (t j).parent ≢ cur)
scan-none t cur zero i kids h = (zero_kids t cur i kids h, λ j a b. absurd (omega arith))
scan-none t cur (suc n) i kids h =
    let rest =
      scan-none t cur n (i + 1) (kids || ((t i).parent == cur))
        (scan-rest t cur n i kids false h).0 in
    (ground arith, λ j a b. ground (arith, rest.1 j))

-- Children, but none to reap.
scan-waits :
    (t : ℕ → Proc) (cur n i : ℕ) (kids b : Bool)
    → wait_scan t cur n i kids ≡ havekids b
    → (j : ℕ) → i ≤ j
    → j < i + n
    → is_reapable cur (t j) ≡ false
scan-waits t cur zero i kids d h j a b = absurd (omega arith)
scan-waits t cur (suc n) i kids d h j a b = elim (Bool-cases (i == j)) [
  | inl e ↦ let q : i ≡ j = ground arith in rw q at (scan-rest t cur n i kids d h).1
  | inr e ↦
      scan-waits t cur n (i + 1) (kids || ((t i).parent == cur)) d (scan-rest t cur n i kids d h).0
        j (ground arith) (omega arith)
]

module _ {M : Type 0} (ops : Ops M) (cur : ℕ) (k : Kernel M) (open_k : IsOpen k) where
  -- `wait` without children returns -1 at once, with the lock free and the table as it was; and it
  -- does so only if no entry has the process as its parent.
  pub wait-none :
      wait_scan k.proc cur nproc 1 false ≡ havekids false
      → (k' : Kernel M) × (wait ops cur k ≡ ok none k')
        × IsOpen k'
        × (k'.proc ≡ k.proc)
        × ((j : ℕ) → 1 ≤ j → j ≤ nproc → (k.proc j).parent ≢ cur)
  unfolding wait wait_pass wait_end
  wait-none e = (
    left (entered k),
    rw (acquire-entered k open_k, e, release-left (entered k) (entered-IsLocked k open_k)) refl,
    ground arith,
    refl,
    λ j a b. (scan-none k.proc cur nproc 1 false e).1 j a (omega arith),
  )

  -- With children none of which is to be reaped, a process that is not killed goes to sleep on its
  -- own entry, inside the lock.
  pub wait_sleeps :
      cur ≢ 0
      → wait_scan k.proc cur nproc 1 false ≡ havekids true
      → (k.proc cur).killed ≡ 0
      → ((j : ℕ) → 1 ≤ j → j ≤ nproc → is_reapable cur (k.proc j) ≡ false)
        × ((k' : Kernel M) × (wait ops cur k ≡ switched k')
            × IsLocked k'
            × ((k'.proc cur).state ≡ sleeping)
            × ((k'.proc cur).chan ≡ cur)
            × ((j : ℕ) → j ≢ cur → k'.proc j ≡ k.proc j))
  unfolding wait wait_pass wait_end sleep
  wait_sleeps ne e alive =
      let k' = set_proc cur (λ p. record p { chan = cur; state = sleeping }) (entered k) in
      (
        λ j a b. scan-waits k.proc cur nproc 1 false true e j a (omega arith),
        (
          k',
          rw
              (
                acquire-entered k open_k,
                e,
                eq→==_true alive,
                ne→==_false ne,
                sched-switched {A = Option ℕ} cur k' (ground arith) (ground arith),
              )
              refl,
          ground arith,
          ground arith,
          ground arith,
          λ j h. ground arith,
        ),
      )

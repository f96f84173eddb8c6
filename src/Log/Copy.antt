-- ===== src/Log/Copy.antt =====
-- Copying a row of blocks to another: what `write_log` and `install_trans` have in common.
use os_project03_thread.Common.{
  ℕ, zero, suc, ◌+◌, ◌≤◌, ◌<◌, ◌≡◌, ◌≢◌, inl, inr, refl, arith, ◌∙◌, update, for_range, ◌==◌,
  Bool-cases,
}
use os_project03_thread.Disk.{Blocks, Store, view}
use os_project03_thread.Log.{Log, install_round, write_log_round}
use os_project03_thread.Disk.Through.{Through, Through-copy}

module _ (from to : ℕ → ℕ) where
  -- `body` writes block `from i` to block `to i`; the cache may take in blocks on the way.
  pub record IsCopy (body : ℕ → Store → Store) : Type 1 where
    pub disk_here : (i : ℕ) (s : Store) → (body i s).disk (to i) ≡ view s (from i)
    pub view_here : (i : ℕ) (s : Store) → view (body i s) (to i) ≡ view s (from i)
    pub disk_away : (i : ℕ) (s : Store) (b : ℕ) → b ≢ to i → (body i s).disk b ≡ s.disk b
    pub view_away : (i : ℕ) (s : Store) (b : ℕ) → b ≢ to i → view (body i s) b ≡ view s b
    pub through :
        (P Q : Blocks → Type 0) (i : ℕ) (s : Store)
        → ((d : Blocks) → Q d → P d)
        → (Q s.disk → Q (update s.disk (to i) (view s (from i))))
        → Through P Q s
        → Through P Q (body i s)

  -- The rows of `n` blocks do not overlap, and the targets are different blocks.
  pub record AreApart (n : ℕ) : Type 0 where
    pub distinct : (i j : ℕ) → i < n → j < n → i ≢ j → to i ≢ to j
    pub apart : (i j : ℕ) → i < n → j < n → from i ≢ to j

  module _ (body : ℕ → Store → Store) (copy : IsCopy body) where
    -- A block that is no target is as before.
    pub copy_away :
        (n i : ℕ) (s : Store) (b : ℕ)
        → ((j : ℕ) → i ≤ j → j < i + n → b ≢ to j)
        → ((for_range body n i s).disk b ≡ s.disk b) × (view (for_range body n i s) b ≡ view s b)
    unfolding for_range
    copy_away zero i s b h = (refl, refl)
    copy_away (suc n) i s b h =
        let rest = copy_away n (i + 1) (body i s) b (λ j p q. h j (omega arith) (omega arith)) in
        let here = h i (omega arith) (omega arith) in
        (rest.0 ∙ copy.disk_away i s b here, rest.1 ∙ copy.view_away i s b here)

    -- Target `j` holds what source `j` held.
    pub copy_here :
        (m n i : ℕ) (s : Store) (j : ℕ)
        → AreApart m
        → i + n ≤ m
        → i ≤ j
        → j < i + n
        → ((for_range body n i s).disk (to j) ≡ view s (from j))
          × (view (for_range body n i s) (to j) ≡ view s (from j))
    unfolding for_range
    copy_here m zero i s j a fits low high = absurd (omega arith)
    copy_here m (suc n) i s j a fits low high = elim (Bool-cases (i == j)) [
      | inl e ↦
          let same : i ≡ j = ground arith in
          let rest =
            copy_away n (i + 1) (body i s) (to i)
              (λ k p q. a.distinct i k (omega arith) (omega arith) (omega arith)) in
          rw (← same) (rest.0 ∙ copy.disk_here i s, rest.1 ∙ copy.view_here i s)
      | inr e ↦
          let rest =
            copy_here m n (i + 1) (body i s) j a (omega arith) (ground arith) (omega arith) in
          let before = copy.view_away i s (from j) (a.apart j i (omega arith) (omega arith)) in
          (rest.0 ∙ before, rest.1 ∙ before)
    ]

    -- What each of the writes keeps holds throughout the copy.
    pub copy-Through :
        (P Q : Blocks → Type 0) (m n i : ℕ) (s : Store)
        → AreApart m
        → i + n ≤ m
        → ((d : Blocks) → Q d → P d)
        → ((d : Blocks) (j : ℕ) → i ≤ j → j < i + n → Q d → Q (update d (to j) (view s (from j))))
        → Through P Q s
        → Through P Q (for_range body n i s)
    unfolding for_range
    copy-Through P Q m zero i s a fits weak keep h = h
    copy-Through P Q m (suc n) i s a fits weak keep h =
        copy-Through P Q m n (i + 1) (body i s) a (omega arith) weak
          (λ d j p q x.
            rw (copy.view_away i s (from j) (a.apart j i (omega arith) (omega arith)))
              (keep d j (omega arith) (omega arith) x))
          (copy.through P Q i s weak (keep s.disk i (omega arith) (omega arith)) h)

-- `install_trans` copies the log to the homes.
pub install_round-IsCopy :
    (log : Log) → IsCopy (λ i. log.start + i + 1) log.lh.block (install_round log)
install_round-IsCopy log = record {
  disk_here = λ i s. ground arith;
  view_here = λ i s. ground arith;
  disk_away = λ i s b h. ground arith;
  view_away = λ i s b h. ground arith;
  through = λ P Q i s.
      Through-copy P Q (log.start + i + 1) (log.lh.block i) (log.start + i + 1) (log.lh.block i) s;
}

-- `write_log` copies the homes, as cached, to the log.
pub write_log_round-IsCopy :
    (log : Log) → IsCopy log.lh.block (λ i. log.start + i + 1) (write_log_round log)
write_log_round-IsCopy log = record {
  disk_here = λ i s. ground arith;
  view_here = λ i s. ground arith;
  disk_away = λ i s b h. ground arith;
  view_away = λ i s b h. ground arith;
  through = λ P Q i s.
      Through-copy P Q (log.start + i + 1) (log.lh.block i) (log.lh.block i) (log.start + i + 1) s;
}

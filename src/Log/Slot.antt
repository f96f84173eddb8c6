-- ===== src/Log/Slot.antt =====
-- The loop of `log_write`: a block that the transaction has already takes no further slot.
use os_project03_thread.Common.{
  ℕ, ◌+◌, ◌<◌, ◌≡◌, ◌≢◌, ◌⊎◌, inl, inr, refl, arith, update, ◌==◌, some, Option-cases, find_from,
  find_from-some, find_from-none, if◌then◌else◌,
}
use os_project03_thread.Disk.{Store}
use os_project03_thread.Log.{Log, LogHeader, log_slot, log_write, log_write_locked}

-- The slot of a block: where it is, or the first free one.
log_slot_lem :
    (b : ℕ) (lh : LogHeader)
    → ((log_slot b lh < lh.n) × (lh.block (log_slot b lh) ≡ b))
      ⊎ ((log_slot b lh ≡ lh.n) × ((j : ℕ) → j < lh.n → lh.block j ≢ b))
unfolding log_slot
log_slot_lem b lh = elim (Option-cases (find_from (λ j. lh.block j == b) lh.n 0)) [
  | inl e ↦ inr (
    rw (log_slot, e) refl,
    λ j p q.
        let absent = find_from-none (λ j. lh.block j == b) lh.n 0 j e (omega arith) (omega arith) in
        ground arith,
  )
  | inr (j, e) ↦
      let found = find_from-some (λ j. lh.block j == b) lh.n 0 j e in
      inl (rw (log_slot, e) (omega arith), rw (log_slot, e) (ground arith))
]

pub log_write-some :
    (b : ℕ) (before log log' : Log) (s s' : Store)
    → log_write b before log s ≡ some (log', s')
    → (log' ≡ record log {
      lh = record {
        n = (if log_slot b log.lh == log.lh.n then log.lh.n + 1 else log.lh.n);
        block = update log.lh.block (log_slot b log.lh) b;
      };
    })
unfolding log_write log_write_locked
log_write-some b before log log' s s' h = ground arith

slot_distinct :
    (b n : ℕ) (block : ℕ → ℕ) (p m : ℕ)
    → ((p < n) × (block p ≡ b) × (m ≡ n))
      ⊎ ((p ≡ n) × ((j : ℕ) → j < n → block j ≢ b) × (m ≡ n + 1))
    → ((i j : ℕ) → i < n → j < n → i ≢ j → block i ≢ block j)
    → (i j : ℕ) → i < m
    → j < m
    → i ≢ j
    → update block p b i ≢ update block p b j
slot_distinct b n block p m (inl (low, e, same)) d i j x y ne q =
    ground (arith, d i j (omega arith) (omega arith) ne, d p j, d i p)
slot_distinct b n block p m (inr (e, absent, more)) d i j x y ne q =
    ground (arith, d i j, absent i, absent j)

pub log_write-distinct :
    (b : ℕ) (before log log' : Log) (s s' : Store)
    → log_write b before log s ≡ some (log', s')
    → ((i j : ℕ) → i < log.lh.n → j < log.lh.n → i ≢ j → log.lh.block i ≢ log.lh.block j)
    → (i j : ℕ) → i < log'.lh.n
    → j < log'.lh.n
    → i ≢ j
    → log'.lh.block i ≢ log'.lh.block j
log_write-distinct b before log log' s s' h d = rw (log_write-some b before log log' s s' h) (
    slot_distinct b log.lh.n log.lh.block (log_slot b log.lh) _
      (elim (log_slot_lem b log.lh) [
        | inl c ↦ inl (c.0, c.1, ground (arith, c.0))
        | inr c ↦ inr (c.0, c.1, ground (arith, c.0))
      ])
      d)

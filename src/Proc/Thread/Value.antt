-- ===== src/Proc/Thread/Value.antt =====
-- The value given to thread_exit is the value that thread_join returns.
use os_project03_thread.Common.{
  ℕ, ◌≤◌, ◌≡◌, ◌≢◌, ◌∙◌, ap, refl, true, false, arith, ◌==◌, Bool-cases, inl, inr, Option, some,
  find_from-some, find_from_total,
}
use os_project03_thread.Kernel.State.{Kernel, Proc, nproc}
use os_project03_thread.Kernel.Ops.{Ops}
use os_project03_thread.Kernel.Run.{ok, switched, IsOpen, entered, left, left-IsOpen}
use os_project03_thread.Proc.Sleep.{wakeup1}
use os_project03_thread.Proc.Thread.{
  exit_thread, thread_exit, is_joinable, find_joinable, thread_join,
}
use os_project03_thread.Proc.Thread.Join.{
  Joined, join_found, exit_row, exit_rows, thread_exit-switched, left-IsLocked,
}

-- A search whose test holds at one index of the range only.
find_only :
    (t : ℕ → Proc) (m tid cur : ℕ)
    → 1 ≤ cur
    → cur ≤ nproc
    → is_joinable tid (t m).parent (t cur) ≡ true
    → ((j : ℕ) → j ≢ cur → is_joinable tid (t m).parent (t j) ≡ false)
    → find_joinable t m tid ≡ some cur
unfolding find_joinable
find_only t m tid cur a b h others =
    let (r, e) =
      find_from_total (λ p. is_joinable tid (t m).parent (t p)) nproc 1 cur a (omega arith) h in
    let found = find_from-some (λ p. is_joinable tid (t m).parent (t p)) nproc 1 r e in
    elim (Bool-cases (r == cur)) [
      | inl q ↦ e ∙ ap some (ground arith)
      | inr q ↦ ground (arith, found, others r)
    ]

module _ {M : Type 0} (ops : Ops M) (cur m retval : ℕ) (k : Kernel M) (open_k : IsOpen k)
    (in_table : (1 ≤ cur) × (cur ≤ nproc)) (ne : m ≢ cur) where
  -- after the exit, with the lock freed by the scheduler
  abbrev ended : Kernel M
  ended = left (exit_thread cur retval (entered k))

  ended-finds :
      (k.proc m).parent ≡ (k.proc cur).parent
      → (k.proc cur).im_master ≢ 1
      → ((j : ℕ)
          → j ≢ cur
          → is_joinable (k.proc cur).order_of_thread (k.proc cur).parent (k.proc j) ≡ false)
      → find_joinable ended.proc m (k.proc cur).order_of_thread ≡ some cur
  unfolding is_joinable
  ended-finds same thread others =
      let row = exit_row cur retval k (left-IsLocked (Option ℕ) cur retval k open_k) in
      let rows = exit_rows cur retval (entered k) in
      find_only ended.proc m (k.proc cur).order_of_thread cur in_table.0 in_table.1
        (ground (arith, row.state, row.kept, rows m 0 0))
        (λ j h.
          rw
            (
              (rows m 0 0 ne).1 ∙ same,
              (rows j (k.proc cur).order_of_thread (k.proc cur).parent h).0,
            )
            (others j h))

  memory : ended.env ≡ k.env
  unfolding exit_thread wakeup1
  memory = refl

  -- The value that a thread of the table, no master, gives to `thread_exit` is the value that a
  -- master with the same parent gets from `thread_join` with the index of that thread, once the lock
  -- is free again, if no other entry can be joined by that index and kfree of the kernel stack of the
  -- thread succeeds. The entry is UNUSED after that.
  pub thread_exit-join :
      (k.proc m).im_master ≡ 1
      → (k.proc m).parent ≡ (k.proc cur).parent
      → (k.proc cur).im_master ≢ 1
      → ((j : ℕ)
          → j ≢ cur
          → is_joinable (k.proc cur).order_of_thread (k.proc cur).parent (k.proc j) ≡ false)
      → (e' : M) → ops.kfree (k.proc cur).kstack k.env ≡ some e'
      → (k₁ k₂ : Kernel M) × (thread_exit {A = Option ℕ} cur retval k ≡ switched k₁)
        × (thread_join ops m (k.proc cur).order_of_thread (left k₁) ≡ ok (some retval) k₂)
        × Joined m cur e' (left k₁) k₂
  thread_exit-join master same thread others e' freed =
      let row = exit_row cur retval k (left-IsLocked (Option ℕ) cur retval k open_k) in
      let stack : (ended.proc cur).kstack ≡ (k.proc cur).kstack = ground (arith, row.kept) in
      let taken : ops.kfree (ended.proc cur).kstack ended.env ≡ some e' =
        rw (stack, memory) freed in
      let (k₂, h, joined) =
        join_found ops m (k.proc cur).order_of_thread ended
          (left-IsOpen (exit_thread cur retval (entered k)))
          (ground (arith, exit_rows cur retval (entered k) m 0 0)) cur e'
          (ended-finds same thread others) taken in
      (
        exit_thread cur retval (entered k),
        k₂,
        thread_exit-switched (Option ℕ) cur retval k open_k,
        h ∙ ap (λ v. ok (some v) k₂) row.value,
        joined,
      )

-- ===== src/Log/Commit.antt =====
-- A commit, followed through each of its writes to the disk.
use os_project03_thread.Common.{ℕ, ◌+◌, ◌<◌, ◌≡◌, inl, inr, refl, arith, ◌∙◌, [], Bool-cases, ltb}
use os_project03_thread.Disk.{Block, Blocks, Store, view}
use os_project03_thread.Disk.Through.{Each, Through}
use os_project03_thread.Log.{Log, write_log, write_head, install_trans, emptied, commit}
use os_project03_thread.Log.Copy.{
  copy_here, copy-Through, install_round-IsCopy, write_log_round-IsCopy,
}
use os_project03_thread.Log.Head.{head_words_n, write_head_away, write_head-Through}
use os_project03_thread.Log.Phase.{
  IsLaidOut, IsUntouched, IsDone, IsLogged, Phase, before, during, log-AreApart, home-AreApart,
  before_write, head_write, home_write, clear_write,
}

-- What the transaction writes: the blocks as they are cached.
abbrev pub new_contents : Log → Store → ℕ → Block
new_contents log s i = view s (log.lh.block i)

module _ (log : Log) (laid : IsLaidOut log) (s : Store) where
  abbrev Stage : Blocks → Type 0
  Stage = Phase log s.disk (new_contents log s)

  write_log-Through :
      s.disk log.start 0 ≡ 0
      → s.past ≡ []
      → Through Stage (IsUntouched log s.disk) (write_log log s)
  unfolding write_log Through Each
  write_log-Through clear e =
      copy-Through log.lh.block (λ i. log.start + i + 1) _ (write_log_round-IsCopy log) Stage
        (IsUntouched log s.disk) log.lh.n log.lh.n 0 s (log-AreApart log laid) (omega arith)
        (λ d h. before h)
        (λ d j p q h. before_write log laid s.disk (new_contents log s) d j _ (omega arith) h)
        (record { clear = clear; same = λ b out. refl }, rw e tt)

  -- The log blocks hold the new contents.
  write_log_here :
      (i : ℕ)
      → i < log.lh.n
      → ((write_log log s).disk (log.start + i + 1) ≡ new_contents log s i)
        × (view (write_log log s) (log.start + i + 1) ≡ new_contents log s i)
  unfolding write_log
  write_log_here i p =
      copy_here log.lh.block (λ i. log.start + i + 1) _ (write_log_round-IsCopy log) log.lh.n
        log.lh.n 0 s i (log-AreApart log laid) (omega arith) (omega arith) (omega arith)

  abbrev headed : Store
  headed = write_head log (write_log log s)

  headed-Through :
      s.disk log.start 0 ≡ 0
      → s.past ≡ []
      → Through Stage (IsLogged log s.disk (new_contents log s)) headed
  headed-Through clear e =
      write_head-Through Stage (IsUntouched log s.disk) (IsLogged log s.disk (new_contents log s))
        log (write_log log s) (λ d h. before h)
        (λ h.
          head_write log laid s.disk (new_contents log s) (write_log log s).disk _ h
            (λ i p. (write_log_here i p).0))
        (write_log-Through clear e)

  headed-view : (i : ℕ) → i < log.lh.n → view headed (log.start + i + 1) ≡ new_contents log s i
  headed-view i p =
      (write_head_away log (write_log log s) (log.start + i + 1) (omega arith)).0
      ∙ (write_log_here i p).1

  installed-Through :
      s.disk log.start 0 ≡ 0
      → s.past ≡ []
      → Through Stage (IsLogged log s.disk (new_contents log s)) (install_trans log headed)
  unfolding install_trans
  installed-Through clear e =
      copy-Through (λ i. log.start + i + 1) log.lh.block _ (install_round-IsCopy log) Stage
        (IsLogged log s.disk (new_contents log s)) log.lh.n log.lh.n 0 headed
        (home-AreApart log laid) (omega arith) (λ d h. during h)
        (λ d j p q h.
          rw (headed-view j (omega arith))
            (home_write log laid s.disk (new_contents log s) d j (omega arith) h))
        (headed-Through clear e)

  installed_here :
      (i : ℕ)
      → i < log.lh.n
      → (install_trans log headed).disk (log.lh.block i) ≡ new_contents log s i
  unfolding install_trans
  installed_here i p =
      (copy_here (λ i. log.start + i + 1) log.lh.block _ (install_round-IsCopy log) log.lh.n
        log.lh.n 0 headed i (home-AreApart log laid) (omega arith) (omega arith) (omega arith)).0
      ∙ headed-view i p

  -- From a clear log, every disk that a commit leaves on the way is in one of the three phases, and
  -- the last one is in the third.
  pub commit-Through :
      s.disk log.start 0 ≡ 0
      → s.past ≡ []
      → Through Stage (IsDone log s.disk (new_contents log s)) (commit log s).1
  unfolding commit
  commit-Through clear e = elim (Bool-cases (ltb 0 log.lh.n)) [
    | inl h ↦ rw h (
        write_head-Through Stage (IsLogged log s.disk (new_contents log s))
          (IsDone log s.disk (new_contents log s)) (emptied log) (install_trans log headed)
          (λ d l. during l)
          (λ l.
            clear_write log laid s.disk (new_contents log s) (install_trans log headed).disk _
              (head_words_n (emptied log).lh _) l installed_here)
          (installed-Through clear e))
    | inr h ↦ rw h (
        unfold Through Each in
        (
          record { clear = clear; changed = λ i p. absurd (ground arith); same = λ b out un. refl },
          rw e tt,
        ))
  ]

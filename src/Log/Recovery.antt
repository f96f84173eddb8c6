-- ===== src/Log/Recovery.antt =====
-- What `recover_from_log` makes, after a restart, of each disk that a commit may leave.
use os_project03_thread.Common.{ℕ, ◌+◌, ◌<◌, ◌≡◌, ◌⊎◌, inl, inr, refl, arith, ◌∙◌, update, []}
use os_project03_thread.Disk.{Block, Blocks, Store, booted, view}
use os_project03_thread.Disk.Through.{Each, Through, Through-weaken, Through-past, Through-now}
use os_project03_thread.Log.{Log, read_head, install_trans, emptied, recover_from_log, commit}
use os_project03_thread.Log.Copy.{AreApart, copy_here, copy-Through, install_round-IsCopy}
use os_project03_thread.Log.Head.{head_words_n, read_head_lem, write_head-Through}
use os_project03_thread.Log.Phase.{
  IsLaidOut, IsUntouched, IsDone, IsLogged, Phase, before, during, after, home-AreApart, home_write,
  clear_write, IsUntouched-again, IsDone-again,
}
use os_project03_thread.Log.Commit.{new_contents, commit-Through}

ended :
    {log : Log} {old : Blocks} {x : ℕ → Block} (d : Blocks)
    → IsUntouched log old d ⊎ IsDone log old x d
    → Phase log old x d
ended d (inl h) = before h
ended d (inr h) = after h

-- `recover_from_log` on a machine that starts with the disk `d`, for the log that begins at `start`.
abbrev pub recovered : Log → Blocks → Store
recovered boot d = (recover_from_log boot (booted d)).1

module _ (log boot : Log) (e : boot.start ≡ log.start) (d : Blocks) where
  abbrev reading : Log
  reading = (read_head boot (booted d)).0

  abbrev cached : Store
  cached = (read_head boot (booted d)).1

  reading_start : reading.start ≡ log.start
  unfolding read_head
  reading_start = e

  reading_n : reading.lh.n ≡ d log.start 0
  unfolding read_head
  reading_n = rw e refl

  reading_block : (i : ℕ) → i < d log.start 0 → reading.lh.block i ≡ d log.start (i + 1)
  reading_block i p = rw (← e) ((read_head_lem boot (booted d)).1 i (rw e p))

  cached-view : (b : ℕ) → view cached b ≡ d b
  unfolding read_head
  cached-view b = ground arith

  none_apart : AreApart (λ i. reading.start + i + 1) reading.lh.block 0
  none_apart = record {
    distinct = λ i j p. absurd (omega arith);
    apart = λ i j p. absurd (omega arith);
  }

  -- A clear log: nothing is installed, and the header is written again.
  clear-Through :
      (P Q : Blocks → Type 0)
      → d log.start 0 ≡ 0
      → ((c : Blocks) → Q c → P c)
      → ((p : ℕ) (w : Block) → p ≡ log.start → w 0 ≡ 0 → Q (update d p w))
      → Q d
      → Through P Q (recovered boot d)
  unfolding recover_from_log install_trans read_head Through Each
  clear-Through P Q clear weak keep h =
      write_head-Through P (λ c. (c ≡ d) × Q c) Q (emptied reading) (install_trans reading cached)
        (λ c q. weak c q.1)
        (λ q. rw q.0 (keep _ _ reading_start (head_words_n (emptied reading).lh _)))
        (copy-Through (λ i. reading.start + i + 1) reading.lh.block _ (install_round-IsCopy reading)
          P (λ c. (c ≡ d) × Q c) 0 reading.lh.n 0 cached none_apart
          (omega (arith, reading_n, clear)) (λ c q. weak c q.1)
          (λ c j p q. absurd (omega (arith, reading_n, clear))) ((refl, h), tt))

  module _ (laid : IsLaidOut log) (old : Blocks) (x : ℕ → Block) (l : IsLogged log old x d) where
    same_n : reading.lh.n ≡ log.lh.n
    same_n = reading_n ∙ l.count

    same_block : (i : ℕ) → i < log.lh.n → reading.lh.block i ≡ log.lh.block i
    same_block i p = reading_block i (omega (arith, l.count)) ∙ l.names i p

    reading-AreApart : AreApart (λ i. reading.start + i + 1) reading.lh.block log.lh.n
    reading-AreApart = record {
      distinct = λ i j p q ne.
          rw (same_block i p, same_block j q) ((home-AreApart log laid).distinct i j p q ne);
      apart =
          λ i j p q. rw (same_block j q, reading_start) ((home-AreApart log laid).apart i j p q);
    }

    source : (i : ℕ) → i < log.lh.n → view cached (reading.start + i + 1) ≡ x i
    source i p = rw reading_start (cached-view (log.start + i + 1) ∙ l.copies i p)

    installs : (i : ℕ) → i < log.lh.n → (install_trans reading cached).disk (log.lh.block i) ≡ x i
    unfolding install_trans
    installs i p = rw (← same_block i p) (
        (copy_here (λ i. reading.start + i + 1) reading.lh.block _ (install_round-IsCopy reading)
          log.lh.n reading.lh.n 0 cached i reading-AreApart (omega (arith, same_n)) (omega arith)
          (omega (arith, same_n))).0
        ∙ source i p)

    abbrev Stage : Blocks → Type 0
    Stage = Phase log old x

    install-Through : Through Stage (IsLogged log old x) (install_trans reading cached)
    unfolding install_trans Through Each read_head
    install-Through =
        copy-Through (λ i. reading.start + i + 1) reading.lh.block _ (install_round-IsCopy reading)
          Stage (IsLogged log old x) log.lh.n reading.lh.n 0 cached reading-AreApart
          (omega (arith, same_n)) (λ d h. during h)
          (λ d j p q h.
            rw (source j (omega (arith, same_n)), same_block j (omega (arith, same_n)))
              (home_write log laid old x d j (omega (arith, same_n)) h))
          (l, tt)

    logged-Through : Through Stage (IsDone log old x) (recovered boot d)
    unfolding recover_from_log
    logged-Through =
        write_head-Through Stage (IsLogged log old x) (IsDone log old x) (emptied reading)
          (install_trans reading cached) (λ d h. during h)
          (λ h. rw reading_start (
            clear_write log laid old x (install_trans reading cached).disk _
              (head_words_n (emptied reading).lh _) h installs))
          install-Through

-- Recovery, itself cut off by a crash at any of its writes, leaves a disk of the same kind, and a
-- recovery that ends leaves the transaction undone or done, as the disk that it found had it.
pub phase-Through :
    (log boot : Log) (old : Blocks) (x : ℕ → Block) (d : Blocks)
    → boot.start ≡ log.start
    → IsLaidOut log
    → Phase log old x d
    → Through (Phase log old x) (λ c. IsUntouched log old c ⊎ IsDone log old x c) (recovered boot d)
phase-Through log boot old x d e laid (before o) =
    clear-Through log boot e d (Phase log old x) (λ c. IsUntouched log old c ⊎ IsDone log old x c)
      o.clear ended (λ p w q z. inl (rw q (IsUntouched-again log laid old x d w z o))) (inl o)
phase-Through log boot old x d e laid (during l) =
    Through-weaken (Phase log old x) (IsDone log old x)
      (λ c. IsUntouched log old c ⊎ IsDone log old x c) (recovered boot d) (λ c h. inr h)
      (logged-Through log boot e d laid old x l)
phase-Through log boot old x d e laid (after o) =
    clear-Through log boot e d (Phase log old x) (λ c. IsUntouched log old c ⊎ IsDone log old x c)
      o.clear ended (λ p w q z. inr (rw q (IsDone-again log laid old x d w z o))) (inr o)

-- A commit may be cut off by a crash after any of its writes, and the recovery that follows then
-- leaves every block outside the log as it was before the transaction, or else every logged block
-- with its new contents and the others as they were.
pub commit-Recovers :
    (log boot : Log) (s : Store)
    → boot.start ≡ log.start
    → IsLaidOut log
    → s.disk log.start 0 ≡ 0
    → s.past ≡ []
    → Through
        (λ d.
          IsUntouched log s.disk (recovered boot d).disk
          ⊎ IsDone log s.disk (new_contents log s) (recovered boot d).disk)
        (IsDone log s.disk (new_contents log s))
        (commit log s).1
commit-Recovers log boot s e laid clear fresh =
    Through-past (Phase log s.disk (new_contents log s)) _ _ (commit log s).1
      (λ d h. Through-now _ _ _ (phase-Through log boot s.disk (new_contents log s) d e laid h))
      (commit-Through log laid s clear fresh)

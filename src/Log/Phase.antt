-- ===== src/Log/Phase.antt =====
-- The disks that a commit goes through: before its header is written, while it is installed, and
-- after the header is cleared.
use os_project03_thread.Common.{ℕ, ◌+◌, ◌≤◌, ◌<◌, ◌≡◌, ◌≢◌, ◌⊎◌, arith, ◌∙◌, update}
use os_project03_thread.Disk.{Block, Blocks}
use os_project03_thread.Log.{Log, head_words}
use os_project03_thread.Log.Copy.{AreApart}
use os_project03_thread.Log.Head.{head_words_n, head_words_block}

-- A block that is not one of the log's.
abbrev pub Outside : Log → ℕ → Type 0
Outside log b = (b < log.start) ⊎ (log.start + log.size ≤ b)

-- The logged blocks are different blocks outside the log, and the log has room for them.
pub record IsLaidOut (log : Log) : Type 0 where
  pub distinct : (i j : ℕ) → i < log.lh.n → j < log.lh.n → i ≢ j → log.lh.block i ≢ log.lh.block j
  pub home : (i : ℕ) → i < log.lh.n → Outside log (log.lh.block i)
  pub room : log.lh.n + 1 ≤ log.size

-- `b` is none of the blocks of the transaction.
abbrev pub Unlogged : Log → ℕ → Type 0
Unlogged log b = (i : ℕ) → i < log.lh.n → b ≢ log.lh.block i

-- The header is clear, the homes hold the new contents `x`, and all other blocks the old.
pub record IsDone (log : Log) (old : Blocks) (x : ℕ → Block) (d : Blocks) : Type 0 where
  pub clear : d log.start 0 ≡ 0
  pub changed : (i : ℕ) → i < log.lh.n → d (log.lh.block i) ≡ x i
  pub same : (b : ℕ) → Outside log b → Unlogged log b → d b ≡ old b

-- The header is clear, and the blocks outside the log are the old ones.
pub record IsUntouched (log : Log) (old d : Blocks) : Type 0 where
  pub clear : d log.start 0 ≡ 0
  pub same : (b : ℕ) → Outside log b → d b ≡ old b

-- The header names the transaction, and the log holds its new contents.
pub record IsLogged (log : Log) (old : Blocks) (x : ℕ → Block) (d : Blocks) : Type 0 where
  pub count : d log.start 0 ≡ log.lh.n
  pub names : (i : ℕ) → i < log.lh.n → d log.start (i + 1) ≡ log.lh.block i
  pub copies : (i : ℕ) → i < log.lh.n → d (log.start + i + 1) ≡ x i
  pub same : (b : ℕ) → Outside log b → Unlogged log b → d b ≡ old b

pub data Phase (log : Log) (old : Blocks) (x : ℕ → Block) (d : Blocks) : Type 0 where
  before : IsUntouched log old d → Phase log old x d
  during : IsLogged log old x d → Phase log old x d
  after : IsDone log old x d → Phase log old x d

module _ (log : Log) (laid : IsLaidOut log) where
  pub log-AreApart : AreApart log.lh.block (λ i. log.start + i + 1) log.lh.n
  log-AreApart = record {
    distinct = λ i j p q ne. omega arith;
    apart = λ i j p q e. ground (arith, laid.home i p, laid.room);
  }

  pub home-AreApart : AreApart (λ i. log.start + i + 1) log.lh.block log.lh.n
  home-AreApart = record {
    distinct = laid.distinct;
    apart = λ i j p q e. ground (arith, laid.home j q, laid.room);
  }

  module _ (old : Blocks) (x : ℕ → Block) (d : Blocks) where
    -- A write into the log's data blocks, while the header is clear.
    pub before_write :
        (j : ℕ) (w : Block)
        → j < log.lh.n
        → IsUntouched log old d
        → IsUntouched log old (update d (log.start + j + 1) w)
    before_write j w p o = record {
      clear = ground (arith, o.clear);
      same = λ b out. ground (arith, laid.room, o.same b out);
    }

    -- The header is cleared again.
    pub IsUntouched-again :
        (w : Block) → w 0 ≡ 0 → IsUntouched log old d → IsUntouched log old (update d log.start w)
    IsUntouched-again w e o = record {
      clear = ground arith;
      same = λ b out. ground (arith, laid.room, o.same b out);
    }

    pub IsDone-again :
        (w : Block) → w 0 ≡ 0 → IsDone log old x d → IsDone log old x (update d log.start w)
    IsDone-again w e o = record {
      clear = ground arith;
      changed = λ i p. ground (arith, o.changed i p, laid.home i p, laid.room);
      same = λ b out un. ground (arith, laid.room, o.same b out un);
    }

    -- The header is written over a clear one.
    pub head_write :
        (w : Block)
        → IsUntouched log old d
        → ((i : ℕ) → i < log.lh.n → d (log.start + i + 1) ≡ x i)
        → IsLogged log old x (update d log.start (head_words log.lh w))
    head_write w o copies = record {
      count = ap_word 0 ∙ head_words_n log.lh w;
      names = λ i p. ap_word (i + 1) ∙ head_words_block log.lh w i p;
      copies = λ i p. ground (arith, copies i p);
      same = λ b out un. ground (arith, laid.room, o.same b out);
    }
      where
        ap_word :
            (a : ℕ) → update d log.start (head_words log.lh w) log.start a ≡ head_words log.lh w a
        ap_word a = ground arith

    -- A home is written from the log.
    pub home_write :
        (j : ℕ)
        → j < log.lh.n
        → IsLogged log old x d
        → IsLogged log old x (update d (log.lh.block j) (x j))
    home_write j p l = record {
      count = ground (arith, l.count, laid.home j p, laid.room);
      names = λ i q. ground (arith, l.names i q, laid.home j p, laid.room);
      copies = λ i q. ground (arith, l.copies i q, laid.home j p, laid.room);
      same = λ b out un. ground (arith, l.same b out un, un j p);
    }

    -- The header is cleared, and the homes hold the new contents.
    pub clear_write :
        (w : Block)
        → w 0 ≡ 0
        → IsLogged log old x d
        → ((i : ℕ) → i < log.lh.n → d (log.lh.block i) ≡ x i)
        → IsDone log old x (update d log.start w)
    clear_write w e l homes = record {
      clear = ground arith;
      changed = λ i p. ground (arith, homes i p, laid.home i p, laid.room);
      same = λ b out un. ground (arith, l.same b out un, laid.room);
    }

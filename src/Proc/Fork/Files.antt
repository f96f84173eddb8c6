-- ===== src/Proc/Fork/Files.antt =====
-- fork: the loop over the open files, and the working directory.
use os_project03_thread.Common.{
  ℕ, ◌+◌, ◌<◌, ◌≡◌, ◌≢◌, ◌⊎◌, sym, refl, ==_refl, arith, ◌==◌, Bool-cases, inl, inr, some,
}
use os_project03_thread.Kernel.State.{Kernel, SharedData, nofile}
use os_project03_thread.Kernel.Ops.{Ops}
use os_project03_thread.Kernel.Run.{for_cmd}
use os_project03_thread.Kernel.Returns.{Returns, for_cmd_below, each-Returns}
use os_project03_thread.Proc.Fork.{dup_file}

-- `Ready j` is what the file table is like when the files below `j` are taken.
module _ {M : Type 0} (ops : Ops M) (cur np : ℕ) (k : Kernel M) (Ready : ℕ → M → Type 0) where
  abbrev from : SharedData
  from = k.shared (k.proc cur).share_ptr

  abbrev to : ℕ
  to = (k.proc np).share_ptr

  -- The kernel at round `n`, on the file `j` and the shared data at `b`.
  pub record Dupped (n j b : ℕ) (k' : Kernel M) : Type 0 where
    pub table : (k'.proc ≡ k.proc) × (k'.frame ≡ k.frame) × (k'.next_pid ≡ k.next_pid)
    pub lock : (k'.lock ≡ k.lock) × (k'.cpu ≡ k.cpu)
    pub elsewhere : b ≢ to → k'.shared b ≡ k.shared b
    pub fields :
        ((k'.shared to).sz ≡ (k.shared to).sz)
        × ((k'.shared to).pgdir ≡ (k.shared to).pgdir)
        × ((k'.shared to).is_there ≡ (k.shared to).is_there)
    pub copied : j < n → (k'.shared to).ofile j ≡ from.ofile j
    pub ready : Ready n k'.env
    pub open_still : ((k'.shared to).ofile j ≡ 0) ⊎ (j < n)

  -- filedup of each open file succeeds in turn.
  pub record Taking : Type 0 where
    pub takes :
        (j : ℕ) (e : M)
        → j < nofile
        → from.ofile j ≢ 0
        → Ready j e
        → (e' : M) × (ops.filedup (from.ofile j) e ≡ some e') × Ready (j + 1) e'
    pub skips : (j : ℕ) (e : M) → j < nofile → from.ofile j ≡ 0 → Ready j e → Ready (j + 1) e

  dup_round :
      (n j b : ℕ) (k₁ : Kernel M)
      → to ≢ (k.proc cur).share_ptr
      → n < nofile
      → Taking
      → ((jb : ℕ × ℕ) → Dupped n jb.0 jb.1 k₁)
      → Returns (λ _. Dupped (n + 1) j b) (dup_file ops cur np n k₁)
  unfolding dup_file
  dup_round n j b k₁ ne low dups h =
      let read : k₁.shared (k₁.proc cur).share_ptr ≡ from =
        rw (h (0, 0)).table.0 ((h (0, (k.proc cur).share_ptr)).elsewhere (λ e. ne (sym e))) in
      rw read (elim (Bool-cases (from.ofile n == 0)) [
        | inl e ↦ rw e (record {
          table = (h (0, 0)).table;
          lock = (h (0, 0)).lock;
          elsewhere = (h (0, b)).elsewhere;
          fields = (h (0, 0)).fields;
          ready = dups.skips n k₁.env low (ground arith) (h (0, 0)).ready;
          copied =
              λ g. ground (arith, (h (j, b)).copied, (h (j, b)).open_still, (h (n, b)).open_still);
          open_still = ground (arith, (h (j, b)).open_still);
        })
        | inr e ↦
            let (m, q, taken) = dups.takes n k₁.env low (λ z. ground arith) (h (0, 0)).ready in
            rw e (
              rw (q, (h (0, 0)).table.0)
                (record {
                  table = (refl, (h (0, 0)).table.1, (h (0, 0)).table.2);
                  lock = (h (0, 0)).lock;
                  elsewhere = λ g. ground (arith, (h (0, b)).elsewhere);
                  fields = rw (==_refl to) (h (0, 0)).fields;
                  ready = taken;
                  copied = λ g. ground (arith, (h (j, b)).copied);
                  open_still = ground (arith, (h (j, b)).open_still);
                }))
      ])

  -- The shared data of the child is new, so that no file is open in it.
  pub files-Dupped :
      to ≢ (k.proc cur).share_ptr
      → Taking
      → Ready 0 k.env
      → ((j : ℕ) → (k.shared to).ofile j ≡ 0)
      → Returns
          (λ _ k'. (jb : ℕ × ℕ) → Dupped nofile jb.0 jb.1 k')
          (for_cmd (dup_file ops cur np) nofile 0 k)
  files-Dupped ne dups first closed =
      for_cmd_below nofile (λ n k'. (jb : ℕ × ℕ) → Dupped n jb.0 jb.1 k') (dup_file ops cur np)
        (λ n k₁ low h.
          each-Returns (λ (jb : ℕ × ℕ) _ k₂. Dupped (n + 1) jb.0 jb.1 k₂) (dup_file ops cur np n k₁)
            (0, 0) (λ jb. dup_round n jb.0 jb.1 k₁ ne low dups h))
        nofile 0 k (omega arith)
        (λ jb. record {
          table = (refl, refl, refl);
          lock = (refl, refl);
          elsewhere = λ g. refl;
          fields = (refl, refl, refl);
          ready = first;
          copied = λ g. absurd (omega arith);
          open_still = inl (closed jb.0);
        })

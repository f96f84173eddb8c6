-- ===== src/Machine.antt =====
-- proc.c on top of kalloc.c and vm.c: the operations that proc.c takes of them are theirs, over one
-- memory.
use os_project03_thread.Common.{
  ℕ, ◌+◌, ◌%◌, ◌/◌, ◌*◌, ◌^◌, ◌≤◌, ◌<◌, ◌≡◌, ◌≢◌, refl, ◌∙◌, arith, Bool, true, Option, none, some,
  List, ltb, length, inl,
}
use os_project03_thread.Kernel.State.{Kernel, pgsize}
use os_project03_thread.Kernel.Ops.{Ops}
use os_project03_thread.Kernel.Run.{ok, IsOpen}
use os_project03_thread.Kalloc
use os_project03_thread.Kalloc.{Kmem, kernbase}
use os_project03_thread.Proc.Alloc.{growproc}
use os_project03_thread.Proc.Alloc.Grow.{answer_up, growproc-sized}
use os_project03_thread.Vm.{Res, done, panics, spins, pgroundup, clearpteu}
use os_project03_thread.Vm.Space.{allocuvm, deallocuvm, copyuvm, freevm}
use os_project03_thread.Vm.Tables.{IsSpace, entry_of}
use os_project03_thread.Vm.Grow.{Unmapped, Fresh, allocuvm-Grown}

-- What is left of the operations: the assembly code, the hardware, and the file system.
pub record Rest : Type 0 where
  pub forkret : ℕ
  pub trapret : ℕ
  pub copyout : ℕ → ℕ → List ℕ → Kmem → Bool × Kmem
  pub switchuvm : ℕ → ℕ → Kmem → Option Kmem
  pub filedup : ℕ → Kmem → Option Kmem
  pub fileclose : ℕ → Kmem → Option Kmem
  pub idup : ℕ → Kmem → Kmem
  pub iput : ℕ → Kmem → Option Kmem

-- A panic of vm.c as proc.c sees it.
abbrev pub answered : {A : Type 0} → Res A → Option (A × Kmem)
answered (done a k) = some (a, k)
answered panics = none
answered spins = none

abbrev pub state_of : Res (Unit {0}) → Option Kmem
state_of (done a k) = some k
state_of panics = none
state_of spins = none

unfoldable pub kernel_ops : ℕ → ℕ → Rest → Ops Kmem
kernel_ops end data_start rest = record {
  forkret = rest.forkret;
  trapret = rest.trapret;
  kalloc = Kalloc.kalloc;
  kfree = Kalloc.kfree end;
  copyuvm = λ pgdir sz k. answered (copyuvm end data_start pgdir sz k);
  allocuvm = λ pgdir oldsz newsz k. answered (allocuvm end pgdir oldsz newsz k);
  deallocuvm = λ pgdir oldsz newsz k. answered (deallocuvm end pgdir oldsz newsz k);
  freevm = λ pgdir k. state_of (freevm end pgdir k);
  clearpteu = λ pgdir uva k. state_of (clearpteu pgdir uva k);
  copyout = rest.copyout;
  switchuvm = rest.switchuvm;
  filedup = rest.filedup;
  fileclose = rest.fileclose;
  idup = rest.idup;
  iput = rest.iput;
}

module _ (end data_start : ℕ) (rest : Rest) (cur n : ℕ) (k : Kernel Kmem) (open_k : IsOpen k) where
  abbrev group : ℕ
  group = (k.proc cur).share_ptr

  abbrev pgdir : ℕ
  pgdir = (k.shared group).pgdir

  abbrev oldsz : ℕ
  oldsz = (k.shared group).sz

  -- A process that asks `growproc` for `n` more bytes, below KERNBASE and with two free pages for each
  -- new page, gets them: the call returns 0 outside the lock, the size is larger by `n`, every new page
  -- is mapped for the user at a page of its own that was free before, the pages that were mapped before are mapped as before, and directory, page
  -- tables and free pages are still apart. The switch of the page directory is taken to leave memory
  -- alone.
  pub growproc-Grown :
      (ps : List ℕ)
      → 0 < n
      → oldsz + n < kernbase
      → IsSpace end k.env pgdir ps
      → Unmapped k.env pgdir (pgroundup oldsz) (oldsz + n)
      → oldsz + n ≤ pgroundup oldsz + length ps / 2 * pgsize
      → ((m : Kmem) → rest.switchuvm (k.proc cur).kstack pgdir m ≡ some m)
      → (k' : Kernel Kmem) × (growproc (kernel_ops end data_start rest) cur n k ≡ ok true k')
        × IsOpen k'
        × ((k'.shared group).sz ≡ oldsz + n)
        × ((left : List ℕ) × IsSpace end k'.env pgdir left
            × ((va : ℕ)
                → va % pgsize ≡ 0
                → pgroundup oldsz ≤ va
                → va < oldsz + n
                → Fresh end ps left (entry_of k'.env pgdir va)))
        × ((u v : ℕ)
            → u % pgsize ≡ 0
            → v % pgsize ≡ 0
            → pgroundup oldsz ≤ u
            → u < v
            → v < oldsz + n
            → entry_of k'.env pgdir u ≢ entry_of k'.env pgdir v)
        × ((va : ℕ)
            → va % pgsize ≡ 0
            → va < pgroundup oldsz
            → entry_of k'.env pgdir va ≡ entry_of k.env pgdir va)
  unfolding kernel_ops
  growproc-Grown ps pos below space un many switch =
      let (g, r) =
        allocuvm-Grown end pgdir oldsz (oldsz + n) below k.env ps (omega arith) space un many in
      let up : ltb n (2 ^ 31) ≡ true = ground arith in
      let same : (oldsz + n) % 2 ^ 32 ≡ oldsz + n = omega arith in
      let (k', run, open', sz, others, procs, env) =
        growproc-sized (kernel_ops end data_start rest) cur n k open_k (oldsz + n) g.mem g.mem
          (λ z. omega arith)
          (answer_up (kernel_ops end data_start rest) cur n k open_k up ∙ rw (same, r) refl)
          (λ z. omega arith) (switch g.mem) in
      (
        k',
        run,
        open',
        sz,
        (g.left, rw env g.space, λ va al low high. rw env (g.new va al low high)),
        λ u v au av low less high. rw env (g.apart u v au av low less high),
        λ va al high. rw env (g.old va al (omega arith) (inl high)),
      )

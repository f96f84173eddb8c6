-- ===== src/Examples/Spaces.antt =====
-- Runs of vm.c on an empty address space.
use os_project03_thread.Common.{
  ◌≢◌, ℕ, some, ◌%◌, ◌≤◌, ◌+◌, ◌<◌, ◌≡◌, ◌⊎◌, refl, arith, true, false, List, [], ◌∷◌, ◌==◌,
  if◌then◌else◌, length,
}
use os_project03_thread.Kernel.State.{pgsize}
use os_project03_thread.Kalloc.{Kmem}
use os_project03_thread.Kalloc.Free.{IsPage, Outside, Chain, HasFree}
use os_project03_thread.Vm.{all_pages, done, panics, pgroundup, mappages, is_present}
use os_project03_thread.Vm.Space.{allocuvm, copyuvm}
use os_project03_thread.Vm.Ends.{Ends}
use os_project03_thread.Vm.CopyEnds.{copyuvm-Ends}
use os_project03_thread.Vm.Tables.{entry_of, IsSpace}
use os_project03_thread.Vm.Map.{Mapped, mappages-IsSpace}
use os_project03_thread.Vm.Grow.{Grown, Fresh, Unmapped, allocuvm-Grown}
use os_project03_thread.Kernel.State.{Kernel}
use os_project03_thread.Kernel.Run.{ok, IsOpen}
use os_project03_thread.Proc.Alloc.{growproc}
use os_project03_thread.Machine.{Rest, kernel_ops, growproc-Grown}
use os_project03_thread.Examples.Boot.{table, groups, boot}

abbrev kernel_end : ℕ
kernel_end = 0x80100000

abbrev pgdir : ℕ
pgdir = 0x80200000

abbrev page1 : ℕ
page1 = 0x80201000

abbrev page2 : ℕ
page2 = 0x80202000

-- The directory is empty, and two pages are free.
abbrev empty_space : Kmem
empty_space = record { word = (λ a. if a == page1 then page2 else 0); freelist = page1 }

page1-IsPage : IsPage kernel_end page1
page1-IsPage = record { aligned = refl; above = (omega arith, omega arith); below = omega arith }

page2-IsPage : IsPage kernel_end page2
page2-IsPage = record { aligned = refl; above = (omega arith, omega arith); below = omega arith }

empty_space-IsSpace : IsSpace kernel_end empty_space pgdir (page1 ∷ page2 ∷ [])
unfolding HasFree Chain Outside
empty_space-IsSpace = record {
  free = (refl, page1-IsPage, ((λ e. omega arith), tt), (refl, page2-IsPage, tt, refl));
  dir = record { aligned = refl; above = (omega arith, omega arith); below = omega arith };
  dir_used = ((λ e. omega arith), ((λ e. omega arith), tt));
  table = λ i h t. absurd (ground arith);
  table_used = λ i h t. absurd (ground arith);
  not_dir = λ i h t. absurd (ground arith);
  distinct = λ i j h g ne t. absurd (ground arith);
}

mappages-IsSpace_example :
    (◌≡◌ {A = List ℕ} (page1 ∷ page2 ∷ []) []
      × (mappages pgdir 0x3000 pgsize 0x5000 2 empty_space ≡ done false empty_space))
    ⊎ (((is_present (entry_of empty_space pgdir 0x3000) ≡ true)
          × (mappages pgdir 0x3000 pgsize 0x5000 2 empty_space ≡ panics))
        ⊎ Mapped kernel_end empty_space pgdir 0x3000 0x5000 2 (page1 ∷ page2 ∷ []))
mappages-IsSpace_example =
    mappages-IsSpace kernel_end empty_space pgdir 0x3000 0x5000 2 (page1 ∷ page2 ∷ [])
      empty_space-IsSpace refl (omega arith)

empty_space-Unmapped : Unmapped empty_space pgdir 0 100
empty_space-Unmapped va av low high = let first : va ≡ 0 = omega arith in rw first refl

allocuvm-Grown_example :
    (g : Grown kernel_end
      (all_pages + 1)
      empty_space
      (page1 ∷ page2 ∷ [])
      pgdir
      (pgroundup 0)
      0
      100)
    × (allocuvm kernel_end pgdir 0 100 empty_space ≡ done 100 g.mem)
unfolding length
allocuvm-Grown_example =
    allocuvm-Grown kernel_end pgdir 0 100 (omega arith) empty_space (page1 ∷ page2 ∷ [])
      (omega arith) empty_space-IsSpace empty_space-Unmapped (omega arith)

copyuvm-Ends_example : Ends (copyuvm kernel_end 0x80108000 pgdir 100 empty_space)
copyuvm-Ends_example =
    copyuvm-Ends kernel_end 0x80108000 pgdir 100 empty_space (omega arith) (omega arith)
      (omega arith)

-- The process of entry 2 has this empty address space.
abbrev small_rest : Rest
small_rest = record {
  forkret = 100;
  trapret = 200;
  copyout = λ d a words m. (true, m);
  switchuvm = λ stack d m. some m;
  filedup = λ f m. some m;
  fileclose = λ f m. some m;
  idup = λ ip m. m;
  iput = λ ip m. some m;
}

abbrev small_kernel : Kernel Kmem
small_kernel = record {
  proc = table;
  shared = (λ a. record (groups a) { sz = 0; pgdir = pgdir });
  frame = boot.frame;
  ctx = boot.ctx;
  word = boot.word;
  initproc = 1;
  next_pid = 5;
  lock = boot.lock;
  cpu = boot.cpu;
  env = empty_space;
}

small_kernel-IsOpen : IsOpen small_kernel
small_kernel-IsOpen = record { free = refl; flat = refl }

growproc-Grown_example :
    (k' : Kernel Kmem) × (growproc (kernel_ops kernel_end 0x80108000 small_rest) 2 100 small_kernel
      ≡ ok true k')
    × IsOpen k'
    × ((k'.shared 20).sz ≡ 100)
    × ((left : List ℕ) × IsSpace kernel_end k'.env pgdir left
        × ((va : ℕ)
            → va % pgsize ≡ 0
            → 0 ≤ va
            → va < 100
            → Fresh kernel_end (page1 ∷ page2 ∷ []) left (entry_of k'.env pgdir va)))
    × ((u v : ℕ)
        → u % pgsize ≡ 0
        → v % pgsize ≡ 0
        → 0 ≤ u
        → u < v
        → v < 100
        → entry_of k'.env pgdir u ≢ entry_of k'.env pgdir v)
    × ((va : ℕ)
        → va % pgsize ≡ 0
        → va < 0
        → entry_of k'.env pgdir va ≡ entry_of empty_space pgdir va)
unfolding length
growproc-Grown_example =
    growproc-Grown kernel_end 0x80108000 small_rest 2 100 small_kernel small_kernel-IsOpen
      (page1 ∷ page2 ∷ []) (omega arith) (omega arith) empty_space-IsSpace empty_space-Unmapped
      (omega arith) (λ m. refl)

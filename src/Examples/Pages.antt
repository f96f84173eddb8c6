-- ===== src/Examples/Pages.antt =====
-- Runs of the page allocator.
use os_project03_thread.Common.{ℕ, refl, arith, [], ◌∷◌}
use os_project03_thread.Kalloc.{Kmem}
use os_project03_thread.Kalloc.Free.{IsPage, Outside, Chain, HasFree}

-- Nothing is free; the kernel ends at 0x80100000.
abbrev nothing_free : Kmem
nothing_free = record { word = λ _. 0; freelist = 0 }

abbrev pub kernel_end : ℕ
kernel_end = 0x80100000

abbrev pub first_page : ℕ
first_page = 0x80200000

nothing_free-HasFree : HasFree kernel_end nothing_free []
unfolding HasFree Chain
nothing_free-HasFree = refl

first_page-IsPage : IsPage kernel_end first_page
first_page-IsPage = record {
  aligned = refl;
  above = (omega arith, omega arith);
  below = omega arith;
}

first_page-Outside : Outside first_page []
unfolding Outside
first_page-Outside = tt

-- One page is free.
abbrev pub one_free : Kmem
one_free = record { word = λ _. 0; freelist = first_page }

pub one_free-HasFree : HasFree kernel_end one_free (first_page ∷ [])
unfolding HasFree Chain
one_free-HasFree = (refl, first_page-IsPage, first_page-Outside, refl)

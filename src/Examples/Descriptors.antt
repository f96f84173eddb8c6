-- ===== src/Examples/Descriptors.antt =====
-- Runs of the calls on descriptors.
use os_project03_thread.Common.{ℕ, ◌≡◌, ◌⊎◌, arith, none, some, [], ◌∷◌, ◌==◌, if◌then◌else◌}
use os_project03_thread.Files.{File, FileType}
use os_project03_thread.Pipe.{fresh_pipe}
use os_project03_thread.Descriptors.{World, sys_pipe}
use os_project03_thread.Descriptors.Ends.{IsCleared}
use os_project03_thread.Descriptors.Opened.{IsUndone}
use os_project03_thread.Descriptors.Piped.{IsPiped, sys_pipe-Piped}
use os_project03_thread.Examples.Pages.{kernel_end, first_page, one_free, one_free-HasFree}

abbrev unused : File
unused = record {
  type = FileType.fd_none;
  ref = 0;
  readable = 0;
  writable = 0;
  pipe = 0;
  ip = 0;
  off = 0;
}

-- The console is file 1, and descriptor 0 names it; one page is free.
abbrev console_open : World
console_open = record {
  ofile = λ fd. if fd == 0 then 1 else 0;
  file =
      λ f. if f == 1 then record unused { type = FileType.fd_inode; ref = 1; ip = 1 } else unused;
  kmem = one_free;
  pipe = λ _. fresh_pipe (λ _. 0);
  put = [];
}

console_open-IsCleared : IsCleared console_open.file
unfolding IsCleared
console_open-IsCleared f h = ground arith

sys_pipe-Piped_example :
    ((w' : World) × (sys_pipe kernel_end (some 4000) console_open ≡ some (none, w'))
      × IsUndone kernel_end (first_page ∷ []) console_open w')
    ⊎ ((fd0 fd1 : ℕ) × (w' : World) × (sys_pipe kernel_end (some 4000) console_open
          ≡ some (some (4000, fd0, fd1), w'))
        × IsPiped kernel_end (first_page ∷ []) console_open w' fd0 fd1)
sys_pipe-Piped_example =
    sys_pipe-Piped kernel_end 4000 console_open (first_page ∷ []) console_open-IsCleared
      one_free-HasFree

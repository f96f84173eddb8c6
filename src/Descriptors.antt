-- ===== src/Descriptors.antt =====
-- sysfile.c and pipe.c: the descriptors of a process, and the calls that make, copy and close them:
-- sys_dup, sys_close, pipealloc and sys_pipe, over the file table, the pages and the pipes.
pub mod Dup
pub mod Ends
pub mod Opened
pub mod Piped
use os_project03_thread.Common.{
  ℕ, ◌+◌, ◌*◌, Bool, true, false, Option, none, some, List, ◌∷◌, ◌==◌, leb, ltb, if◌then◌else◌,
  find_from, update,
}
use os_project03_thread.Kernel.State.{nofile}
use os_project03_thread.Kalloc.{Kmem, kalloc, kfree}
use os_project03_thread.Files.{
  File, FileType, Closing, nothing, closes_pipe, puts_inode, filealloc, filedup, fileclose,
}
use os_project03_thread.Pipe.{Pipe, fresh_pipe, pipeclose}
use os_project03_thread.Syscall.{argint, argptr}

-- What the calls work on: the descriptors of the process, the file table, the pages, the pipes by the
-- page that they stand in, and the inodes put so far, the last one first.
pub record World : Type 0 where
  pub ofile : ℕ → ℕ
  pub file : ℕ → File
  pub kmem : Kmem
  pub pipe : ℕ → Pipe
  pub put : List ℕ

infixl 5 ◌>>=◌
abbrev pub ◌>>=◌ : {A B : Type 0} → Option A → (A → Option B) → Option B
none >>= f = none
some a >>= f = f a

-- Descriptor `fd`, as `argint` fetched it: it, and the file.
unfoldable pub argfd : Option ℕ → (ℕ → ℕ) → Option (ℕ × ℕ)
argfd none ofile = none
argfd (some fd) ofile =
    if leb nofile fd then none else (if ofile fd == 0 then none else some (fd, ofile fd))

-- The lowest free descriptor, and the descriptors with the file there.
unfoldable pub fdalloc : ℕ → (ℕ → ℕ) → Option (ℕ × (ℕ → ℕ))
fdalloc f ofile = elim (find_from (λ fd. ofile fd == 0) nofile 0) [
  | none ↦ none
  | some fd ↦ some (fd, update ofile fd f)
]

-- A call that returns -1, or a value, with the world after it; `none` is a panic.
abbrev pub Call : Type 0 → Type 0
Call A = Option (Option A × World)

unfoldable pub sys_dup : Option ℕ → World → Call ℕ
sys_dup arg w = elim (argfd arg w.ofile) [
  | none ↦ some (none, w)
  | some (fd, f) ↦ elim (fdalloc f w.ofile) [
    | none ↦ some (none, w)
    | some (new, ofile) ↦
        filedup f w.file >>= λ t. some (some new, record w { ofile = ofile; file = t })
  ]
]

-- An end of the pipe in the page `p`.
abbrev pub pipe_end : ℕ → ℕ → ℕ → File → File
pipe_end p readable writable f = record f {
  type = FileType.fd_pipe;
  readable = readable;
  writable = writable;
  pipe = p;
}

-- `end` is the first address behind the kernel.
module _ (end : ℕ) where
  -- What `fileclose` does when its lock is free again.
  abbrev pub settle : Closing → World → Option World
  settle nothing w = some w
  settle (closes_pipe p writable) w =
      let closed = pipeclose (ltb 0 writable) (w.pipe p) in
      let w' = record w { pipe = update w.pipe p closed.0 } in
      if closed.2 then kfree end p w.kmem >>= (λ k. some (record w' { kmem = k })) else some w'
  settle (puts_inode ip) w = some (record w { put = ip ∷ w.put })

  unfoldable pub close : ℕ → World → Option World
  close f w = fileclose f w.file >>= λ r. settle r.0 (record w { file = r.1 })

  unfoldable pub sys_close : Option ℕ → World → Call ℕ
  sys_close arg w = elim (argfd arg w.ofile) [
    | none ↦ some (none, w)
    | some (fd, f) ↦ close f (record w { ofile = update w.ofile fd 0 }) >>= λ w'. some (some 0, w')
  ]

  -- The file for reading and the file for writing.
  unfoldable pub pipealloc : World → Call (ℕ × ℕ)
  pipealloc w =
      let a0 = filealloc w.file in
      let a1 = filealloc a0.1 in
      let page = kalloc w.kmem in
      let w0 = record w { file = a0.1 } in
      let w1 = record w { file = a1.1; kmem = page.1 } in
      let t0 = update a1.1 a0.0 (pipe_end page.0 1 0 (a1.1 a0.0)) in
      if a0.0 == 0
      then some (none, w)
      else (if a1.0 == 0
          then close a0.0 w0 >>= (λ w'. some (none, w'))
          else (if page.0 == 0
              then close a0.0 w1 >>= (λ w'. close a1.0 w' >>= λ w''. some (none, w''))
              else some (
                some (a0.0, a1.0),
                record w {
                  file = update t0 a1.0 (pipe_end page.0 0 1 (t0 a1.0));
                  kmem = page.1;
                  pipe = update w.pipe page.0 (fresh_pipe (w.pipe page.0).data_at);
                },
              )))

  -- The descriptors of the two files, or neither, and the files closed.
  unfoldable pub open_ends : ℕ → ℕ → World → Call (ℕ × ℕ)
  open_ends rf wf w = elim (fdalloc rf w.ofile) [
    | none ↦ close rf w >>= λ w'. close wf w' >>= λ w''. some (none, w'')
    | some (fd0, ofile) ↦ elim (fdalloc wf ofile) [
      | none ↦ close rf (record w { ofile = update ofile fd0 0 }) >>= λ w'.
          close wf w' >>= λ w''. some (none, w'')
      | some (fd1, ofile') ↦ some (some (fd0, fd1), record w { ofile = ofile' })
    ]
  ]

  -- `arg` is the address that `argptr` fetched: the two descriptors go there.
  unfoldable pub sys_pipe : Option ℕ → World → Call (ℕ × ℕ × ℕ)
  sys_pipe none w = some (none, w)
  sys_pipe (some fd) w = pipealloc w >>= λ r. elim r.0 [
    | none ↦ some (none, r.1)
    | some (rf, wf) ↦ open_ends rf wf r.1 >>= λ q. elim q.0 [
      | none ↦ some (none, q.1)
      | some (fd0, fd1) ↦ some (some (fd, fd0, fd1), q.1)
    ]
  ]

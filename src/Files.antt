-- ===== src/Files.antt =====
-- file.c and file.h: the table of open files and its reference counts, inside ftable.lock.
-- `&ftable.file[i]` is the number i + 1, and 0 is null.
pub mod Counts
use os_project03_thread.Common.{
  ℕ, ◌+◌, ◌-◌, Bool, Option, none, some, ◌==◌, ltb, leb, ◌||◌, ◌%◌, ◌^◌, if◌then◌else◌, find_from,
  update,
}

-- param.h
abbrev pub nfile : ℕ
nfile = 100

pub data FileType : Type 0 where
  fd_none fd_pipe fd_inode : FileType

-- `struct file`
pub record File : Type 0 where
  pub type : FileType
  pub ref : ℕ
  pub readable : ℕ
  pub writable : ℕ
  pub pipe : ℕ
  pub ip : ℕ
  pub off : ℕ

-- What `fileclose` goes on to do when the lock is free again: nothing, pipeclose, or iput in a
-- transaction.
pub data Closing : Type 0 where
  nothing : Closing
  closes_pipe : ℕ → ℕ → Closing
  puts_inode : ℕ → Closing

unfoldable pub find_free : (ℕ → File) → Option ℕ
find_free t = find_from (λ f. (t f).ref == 0) nfile 1

-- The file, or 0, and the table.
unfoldable pub filealloc : (ℕ → File) → ℕ × (ℕ → File)
filealloc t = elim (find_free t) [
  | none ↦ (0, t)
  | some f ↦ (f, update t f (record (t f) { ref = 1 }))
]

-- `f->ref < 1`, as an int.
abbrev pub lacks_ref : File → Bool
lacks_ref f = ltb f.ref 1 || leb (2 ^ 31) f.ref

-- `none` is a panic.
unfoldable pub filedup : ℕ → (ℕ → File) → Option (ℕ → File)
filedup f t =
    if lacks_ref (t f)
    then none
    else some (update t f (record (t f) { ref = ((t f).ref + 1) % 2 ^ 32 }))

abbrev pub closing : File → Closing
closing f = elim f.type [
  | FileType.fd_none ↦ nothing
  | FileType.fd_pipe ↦ closes_pipe f.pipe f.writable
  | FileType.fd_inode ↦ puts_inode f.ip
]

unfoldable pub fileclose : ℕ → (ℕ → File) → Option (Closing × (ℕ → File))
fileclose f t =
    if lacks_ref (t f)
    then none
    else if ltb 0 ((t f).ref - 1)
    then some (nothing, update t f (record (t f) { ref = (t f).ref - 1 }))
    else some (closing (t f), update t f (record (t f) { ref = 0; type = FileType.fd_none }))

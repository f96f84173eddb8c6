-- ===== src/Descriptors/Ends.antt =====
-- pipealloc: the two ends of a pipe in a page, and that closing both gives the page back.
use os_project03_thread.Common.{
  ℕ, false, true, ap, ◌≤◌, ◌≡◌, ◌≢◌, ◌⊎◌, inl, inr, refl, arith, some, List, ◌∷◌, ◌==◌, update,
  Option-cases, Bool-cases, find_from-some,
}
use os_project03_thread.Kalloc.{Kmem, kfree}
use os_project03_thread.Kalloc.Free.{IsPage, Outside, HasFree, kfree-HasFree}
use os_project03_thread.Files.{
  File, FileType, nfile, closes_pipe, closing, find_free, filealloc, fileclose,
}
use os_project03_thread.Files.Counts.{filealloc-none, filealloc-some}
use os_project03_thread.Pipe.{Pipe, fresh_pipe, pipeclose}
use os_project03_thread.Descriptors.{World, close, pipe_end}

-- The table with one reference to a new file, and with the last reference closed.
abbrev pub taken : (ℕ → File) → ℕ → ℕ → File
taken t f = update t f (record (t f) { ref = 1 })

abbrev pub dropped : (ℕ → File) → ℕ → ℕ → File
dropped t f = update t f (record (t f) { ref = 0; type = FileType.fd_none })

-- An entry of the file table without references has no type.
unfoldable pub IsCleared : (ℕ → File) → Type 0
IsCleared t = (f : ℕ) → (t f).ref ≡ 0 → (t f).type ≡ FileType.fd_none

-- `rf` and `wf` are the ends of a fresh pipe in the page `p`, each with one reference; the table was
-- `t` before, and `qs` are the free pages that are left.
pub record IsOpened (end : ℕ) (t file : ℕ → File) (kmem : Kmem) (pipe : ℕ → Pipe) (rf wf p : ℕ)
    (qs : List ℕ) : Type 0 where
  pub apart : rf ≢ wf
  pub rf_was : ((t rf).ref ≡ 0) × ((t rf).type ≡ FileType.fd_none)
  pub wf_was : ((t wf).ref ≡ 0) × ((t wf).type ≡ FileType.fd_none)
  pub read_end : file rf ≡ pipe_end p 1 0 (record (t rf) { ref = 1 })
  pub write_end : file wf ≡ pipe_end p 0 1 (record (t wf) { ref = 1 })
  pub others : (j : ℕ) → j ≢ rf → j ≢ wf → file j ≡ t j
  pub at_page : pipe p ≡ fresh_pipe (pipe p).data_at
  pub page : IsPage end p
  pub outside : Outside p qs
  pub rest_free : HasFree end kmem qs

-- The references and types of the two tables are the same.
unfoldable pub IsAsBefore : (t t' : ℕ → File) → Type 0
IsAsBefore t t' = (j : ℕ) → ((t' j).ref ≡ (t j).ref) × ((t' j).type ≡ (t j).type)

-- Closing the last reference.
pub fileclose_one :
    (f : ℕ) (t : ℕ → File)
    → (t f).ref ≡ 1
    → fileclose f t
      ≡ some (closing (t f), update t f (record (t f) { ref = 0; type = FileType.fd_none }))
unfolding fileclose
fileclose_one f t h = ground arith

-- A file that `filealloc` gave.
pub filealloc-cases :
    (t : ℕ → File)
    → (filealloc t ≡ (0, t))
      ⊎ ((f : ℕ) × (1 ≤ f)
          × ((t f).ref ≡ 0)
          × (filealloc t ≡ (f, update t f (record (t f) { ref = 1 }))))
unfolding find_free
filealloc-cases t = elim (Option-cases (find_free t)) [
  | inl e ↦ inl (filealloc-none t e)
  | inr (f, e) ↦
      let found = find_from-some (λ g. (t g).ref == 0) nfile 1 f e in
      inr (f, found.0, ground (arith, found), filealloc-some t f e)
]

-- Two entries that are cleared, and the others as they were.
pub dropped-IsAsBefore :
    (t file : ℕ → File) (rf wf : ℕ)
    → ((t rf).ref ≡ 0) × ((t rf).type ≡ FileType.fd_none)
    → ((t wf).ref ≡ 0) × ((t wf).type ≡ FileType.fd_none)
    → ((j : ℕ) → j ≢ rf → j ≢ wf → file j ≡ t j)
    → let file₁ : ℕ → File =
        update file rf (record (file rf) { ref = 0; type = FileType.fd_none }) in
      IsAsBefore t (update file₁ wf (record (file₁ wf) { ref = 0; type = FileType.fd_none }))
unfolding IsAsBefore
dropped-IsAsBefore t file rf wf r w others j = elim (Bool-cases (j == wf)) [
  | inl e ↦ (ground (arith, w), ground (arith, w))
  | inr e ↦ elim (Bool-cases (j == rf)) [
    | inl g ↦ (ground (arith, r), ground (arith, r))
    | inr g ↦
        let same = others j (λ z. ground arith) (λ z. ground arith) in
        (ground (arith, ap (λ h. h.ref) same), ground (arith, ap (λ h. h.type) same))
  ]
]

module _ (end : ℕ) where
  pub close_file :
      (f : ℕ) (w : World)
      → (w.file f).ref ≡ 1
      → (w.file f).type ≡ FileType.fd_none
      → close end f w
        ≡ some (record w {
          file = update w.file f (record (w.file f) { ref = 0; type = FileType.fd_none });
        })
  unfolding close
  close_file f w one kind = rw (close, fileclose_one f w.file one, kind) refl

  close_read :
      (f p : ℕ) (g : File) (w : World)
      → w.file f ≡ pipe_end p 1 0 (record g { ref = 1 })
      → w.pipe p ≡ fresh_pipe (w.pipe p).data_at
      → close end f w
        ≡ some (record w {
          file = update w.file f (record (w.file f) { ref = 0; type = FileType.fd_none });
          pipe = update w.pipe p (record (w.pipe p) { readopen = false });
        })
  unfolding close pipeclose fresh_pipe
  close_read f p g w e at =
      let one : (w.file f).ref ≡ 1 = ap (λ h. h.ref) e in
      let kind : closing (w.file f) ≡ closes_pipe p 0 = ap closing e in
      let still : (w.pipe p).writeopen ≡ true = ap (λ q. q.writeopen) at in
      rw (close, fileclose_one f w.file one, kind, still) refl

  close_write :
      (f p : ℕ) (g : File) (w : World) (k : Kmem)
      → w.file f ≡ pipe_end p 0 1 (record g { ref = 1 })
      → (w.pipe p).readopen ≡ false
      → kfree end p w.kmem ≡ some k
      → close end f w
        ≡ some (record w {
          file = update w.file f (record (w.file f) { ref = 0; type = FileType.fd_none });
          pipe = update w.pipe p (record (w.pipe p) { writeopen = false });
          kmem = k;
        })
  unfolding close pipeclose
  close_write f p g w k e shut freed =
      let one : (w.file f).ref ≡ 1 = ap (λ h. h.ref) e in
      let kind : closing (w.file f) ≡ closes_pipe p 1 = ap closing e in
      rw (close, fileclose_one f w.file one, kind, shut, freed) refl

  -- Closing both ends frees the page, and leaves the table as it was.
  pub close_ends :
      (t : ℕ → File) (rf wf p : ℕ) (qs : List ℕ) (w : World)
      → IsOpened end t w.file w.kmem w.pipe rf wf p qs
      → (w₁ w₂ : World) × (close end rf w ≡ some w₁)
        × (close end wf w₁ ≡ some w₂)
        × (w₂.ofile ≡ w.ofile)
        × (w₂.put ≡ w.put)
        × IsAsBefore t w₂.file
        × HasFree end w₂.kmem (p ∷ qs)
  unfolding IsAsBefore
  close_ends t rf wf p qs w h =
      let (k, freed, list) = kfree-HasFree end p w.kmem qs h.rest_free h.page h.outside in
      let file₁ : ℕ → File =
        update w.file rf (record (w.file rf) { ref = 0; type = FileType.fd_none }) in
      let w₁ : World = record w {
        file = file₁;
        pipe = update w.pipe p (record (w.pipe p) { readopen = false });
      } in
      let write_end : file₁ wf ≡ pipe_end p 0 1 (record (t wf) { ref = 1 }) =
        ground (arith, h.write_end, h.apart) in
      (
        w₁,
        record w₁ {
          file = update file₁ wf (record (file₁ wf) { ref = 0; type = FileType.fd_none });
          pipe = update w₁.pipe p (record (w₁.pipe p) { writeopen = false });
          kmem = k;
        },
        close_read rf p (t rf) w h.read_end h.at_page,
        close_write wf p (t wf) w₁ k write_end (ground arith) freed,
        refl,
        refl,
        dropped-IsAsBefore t w.file rf wf (h.rf_was) (h.wf_was) h.others,
        list,
      )

-- ===== src/Descriptors/Opened.antt =====
-- pipealloc: it makes the two ends of a pipe, or leaves all as it was.
use os_project03_thread.Common.{
  ℕ, false, ◌≤◌, ◌≡◌, ◌≢◌, ◌⊎◌, inl, inr, refl, arith, none, some, List, [], ◌∷◌, ◌==◌, update,
}
use os_project03_thread.Kalloc.{Kmem, kalloc}
use os_project03_thread.Kalloc.Free.{IsPage, Outside, HasFree, Chain}
use os_project03_thread.Files.{File, FileType, filealloc}
use os_project03_thread.Pipe.{fresh_pipe}
use os_project03_thread.Descriptors.{World, close, pipe_end, pipealloc}
use os_project03_thread.Descriptors.Ends.{
  IsCleared, IsOpened, IsAsBefore, filealloc-cases, close_file, dropped-IsAsBefore, taken, dropped,
}

-- The descriptors, the references and types of the files, and the free pages are as before.
pub record IsUndone (end : ℕ) (ps : List ℕ) (w w' : World) : Type 0 where
  pub ofile : (j : ℕ) → w'.ofile j ≡ w.ofile j
  pub put : w'.put ≡ w.put
  pub file : IsAsBefore w.file w'.file
  pub free : HasFree end w'.kmem ps

-- The first page of the free list is taken off it.
kalloc-some :
    (end p : ℕ) (qs : List ℕ) (k : Kmem)
    → HasFree end k (p ∷ qs)
    → (k' : Kmem) × (kalloc k ≡ (p, k')) × (p ≢ 0) × IsPage end p × Outside p qs × HasFree end k' qs
unfolding HasFree Chain kalloc
kalloc-some end p qs k (e, page, out, c) =
    (record k { freelist = k.word p }, rw e (ground arith), (λ z. ground arith), page, out, c)

kalloc-none : (end : ℕ) (k : Kmem) → HasFree end k [] → kalloc k ≡ (0, k)
unfolding HasFree Chain kalloc
kalloc-none end k h = ground arith

module _ (end : ℕ) (w : World) where
  close_new :
      (f : ℕ)
      → (w.file f).type ≡ FileType.fd_none
      → close end f (record w { file = taken w.file f })
        ≡ some (record w { file = dropped (taken w.file f) f })
  close_new f kind =
      close_file end f (record w { file = taken w.file f }) (ground arith) (ground arith)

  no_first : filealloc w.file ≡ (0, w.file) → pipealloc end w ≡ some (none, w)
  unfolding pipealloc
  no_first e = rw (pipealloc, e) refl

  no_second :
      (rf : ℕ) (w' : World)
      → 1 ≤ rf
      → filealloc w.file ≡ (rf, taken w.file rf)
      → filealloc (taken w.file rf) ≡ (0, taken w.file rf)
      → close end rf (record w { file = taken w.file rf }) ≡ some w'
      → pipealloc end w ≡ some (none, w')
  unfolding pipealloc
  no_second rf w' a e g c =
      let some_read : (rf == 0) ≡ false = ground arith in rw (pipealloc, e, g, some_read, c) refl

  no_page :
      (rf wf : ℕ) (w' w'' : World)
      → 1 ≤ rf
      → 1 ≤ wf
      → filealloc w.file ≡ (rf, taken w.file rf)
      → filealloc (taken w.file rf) ≡ (wf, taken (taken w.file rf) wf)
      → kalloc w.kmem ≡ (0, w.kmem)
      → close end rf (record w { file = taken (taken w.file rf) wf }) ≡ some w'
      → close end wf w' ≡ some w''
      → pipealloc end w ≡ some (none, w'')
  unfolding pipealloc
  no_page rf wf w' w'' a b e g k c d =
      let some_read : (rf == 0) ≡ false = ground arith in
      let some_write : (wf == 0) ≡ false = ground arith in
      rw (pipealloc, e, g, k, some_read, some_write, c, d) refl

  -- The world with both ends in the page `p`.
  abbrev opened : ℕ → ℕ → ℕ → Kmem → World
  opened rf wf p k =
      let t = taken (taken w.file rf) wf in
      let t₀ = update t rf (pipe_end p 1 0 (t rf)) in
      record w {
        file = update t₀ wf (pipe_end p 0 1 (t₀ wf));
        kmem = k;
        pipe = update w.pipe p (fresh_pipe (w.pipe p).data_at);
      }

  all_there :
      (rf wf p : ℕ) (k : Kmem)
      → 1 ≤ rf
      → 1 ≤ wf
      → filealloc w.file ≡ (rf, taken w.file rf)
      → filealloc (taken w.file rf) ≡ (wf, taken (taken w.file rf) wf)
      → p ≢ 0
      → kalloc w.kmem ≡ (p, k)
      → pipealloc end w ≡ some (some (rf, wf), opened rf wf p k)
  unfolding pipealloc
  all_there rf wf p k a b e g c d =
      let some_read : (rf == 0) ≡ false = ground arith in
      let some_write : (wf == 0) ≡ false = ground arith in
      let some_page : (p == 0) ≡ false = ground (arith, c) in
      rw (pipealloc, e, g, d, some_read, some_write, some_page) refl

  drop_one :
      (f : ℕ)
      → ((w.file f).ref ≡ 0) × ((w.file f).type ≡ FileType.fd_none)
      → IsAsBefore w.file (dropped (taken w.file f) f)
  unfolding IsAsBefore
  drop_one f (a, b) j = (ground arith, ground arith)

  drop_both :
      (rf wf : ℕ)
      → rf ≢ wf
      → ((w.file rf).ref ≡ 0) × ((w.file rf).type ≡ FileType.fd_none)
      → ((w.file wf).ref ≡ 0) × ((w.file wf).type ≡ FileType.fd_none)
      → let t : ℕ → File = taken (taken w.file rf) wf in
        (close end rf (record w { file = t }) ≡ some (record w { file = dropped t rf }))
        × (close end wf (record w { file = dropped t rf })
            ≡ some (record w { file = dropped (dropped t rf) wf }))
        × IsAsBefore w.file (dropped (dropped t rf) wf)
  drop_both rf wf apart r g =
      let t : ℕ → File = taken (taken w.file rf) wf in
      (
        close_file end rf (record w { file = t }) (ground arith) (ground (arith, r)),
        close_file end wf (record w { file = dropped t rf }) (ground arith) (ground (arith, g)),
        dropped-IsAsBefore w.file t rf wf r g (λ j a b. ground arith),
      )

  opened-IsOpened :
      (rf wf p : ℕ) (k : Kmem) (qs : List ℕ)
      → rf ≢ wf
      → ((w.file rf).ref ≡ 0) × ((w.file rf).type ≡ FileType.fd_none)
      → ((w.file wf).ref ≡ 0) × ((w.file wf).type ≡ FileType.fd_none)
      → IsPage end p
      → Outside p qs
      → HasFree end k qs
      → let w' = opened rf wf p k in IsOpened end w.file w'.file w'.kmem w'.pipe rf wf p qs
  unfolding fresh_pipe
  opened-IsOpened rf wf p k qs apart r g page out free = record {
    apart = apart;
    rf_was = r;
    wf_was = g;
    read_end = ground arith;
    write_end = ground arith;
    others = λ j a b. ground arith;
    at_page = ground arith;
    page = page;
    outside = out;
    rest_free = free;
  }

-- The ends of a pipe are there, or `pipealloc` returned -1 and all is undone.
unfoldable pub IsAllocated : ℕ → World → List ℕ → Type 0
IsAllocated end w ps =
    ((w' : World) × (pipealloc end w ≡ some (none, w')) × IsUndone end ps w w')
    ⊎ ((rf wf p : ℕ) × (qs : List ℕ) × (w' : World) × (ps ≡ p ∷ qs)
        × (pipealloc end w ≡ some (some (rf, wf), w'))
        × (w'.ofile ≡ w.ofile)
        × (w'.put ≡ w.put)
        × ((1 ≤ rf) × (1 ≤ wf))
        × IsOpened end w.file w'.file w'.kmem w'.pipe rf wf p qs)

-- What `pipealloc` does when it has both files: it goes by the free list.
files_there :
    (end : ℕ) (w : World) (ps : List ℕ) (rf wf : ℕ)
    → HasFree end w.kmem ps
    → (1 ≤ rf) × (1 ≤ wf)
    → (filealloc w.file ≡ (rf, taken w.file rf))
      × (filealloc (taken w.file rf) ≡ (wf, taken (taken w.file rf) wf))
    → rf ≢ wf
    → ((w.file rf).ref ≡ 0) × ((w.file rf).type ≡ FileType.fd_none)
    → ((w.file wf).ref ≡ 0) × ((w.file wf).type ≡ FileType.fd_none)
    → IsAllocated end w ps
unfolding IsAllocated
files_there end w [] rf wf h (a, b) (e, g) apart r s =
    let t : ℕ → File = taken (taken w.file rf) wf in
    let (c, d, same) = drop_both end w rf wf apart r s in
    let w' : World = record w { file = dropped (dropped t rf) wf } in
    inl (
      w',
      no_page end w rf wf (record w { file = dropped t rf }) w' a b e g (kalloc-none end w.kmem h) c
          d,
      record { ofile = λ j. refl; put = refl; file = same; free = h },
    )
files_there end w (p ∷ qs) rf wf h (a, b) (e, g) apart r s =
    let (k, d, positive, page, out, list) = kalloc-some end p qs w.kmem h in
    inr (
      rf,
      wf,
      p,
      qs,
      opened end w rf wf p k,
      refl,
      all_there end w rf wf p k a b e g positive d,
      refl,
      refl,
      (a, b),
      opened-IsOpened end w rf wf p k qs apart r s page out list,
    )

-- `pipealloc` gives two files for the ends of a fresh pipe in the first free page, or returns -1 and
-- undoes what it did.
pub pipealloc-Opened :
    (end : ℕ) (w : World) (ps : List ℕ)
    → IsCleared w.file
    → HasFree end w.kmem ps
    → IsAllocated end w ps
unfolding IsCleared IsAsBefore IsAllocated
pipealloc-Opened end w ps clear h = elim (filealloc-cases w.file) [
  | inl e ↦ inl (
    w,
    no_first end w e,
    record { ofile = λ j. refl; put = refl; file = λ j. (refl, refl); free = h },
  )
  | inr (rf, pos, was, e) ↦
      let t : ℕ → File = taken w.file rf in
      let r : ((w.file rf).ref ≡ 0) × ((w.file rf).type ≡ FileType.fd_none) = (was, clear rf was) in
      elim (filealloc-cases t) [
        | inl g ↦ inl (
          record w { file = dropped t rf },
          no_second end w rf (record w { file = dropped t rf }) pos e g (close_new end w rf r.1),
          record { ofile = λ j. refl; put = refl; file = drop_one end w rf r; free = h },
        )
        | inr (wf, pos', was', g) ↦
            let apart : rf ≢ wf = λ z. ground arith in
            let was : (w.file wf).ref ≡ 0 = ground arith in
            files_there end w ps rf wf h (pos, pos') (e, g) apart r (was, clear wf was)
      ]
]

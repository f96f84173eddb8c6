-- ===== src/Descriptors/Piped.antt =====
-- sys_pipe: the descriptors of a new pipe, or nothing changed.
use os_project03_thread.Common.{
  ℕ, ap, ◌≤◌, ◌≡◌, ◌≢◌, ◌⊎◌, inl, inr, refl, arith, none, some, List, ◌∷◌, update, sym, ◌∙◌,
}
use os_project03_thread.Kalloc.Free.{HasFree}
use os_project03_thread.Files.{File}
use os_project03_thread.Descriptors.{World, close, pipealloc, fdalloc, open_ends, sys_pipe}
use os_project03_thread.Descriptors.Dup.{IsLowest, fdalloc-IsLowest}
use os_project03_thread.Descriptors.Ends.{IsCleared, IsOpened, IsAsBefore, close_ends}
use os_project03_thread.Descriptors.Opened.{IsUndone, IsAllocated, pipealloc-Opened}

-- The two lowest free descriptors of `w` name the ends of a new pipe, in the first of the free pages.
pub record IsPiped (end : ℕ) (ps : List ℕ) (w w' : World) (fd0 fd1 : ℕ) : Type 0 where
  pub read_fd : IsLowest w.ofile fd0
  pub write_fd : IsLowest (update w.ofile fd0 (w'.ofile fd0)) fd1
  pub others : (j : ℕ) → j ≢ fd0 → j ≢ fd1 → w'.ofile j ≡ w.ofile j
  pub put : w'.put ≡ w.put
  pub ends :
      (p : ℕ) × (qs : List ℕ) × (ps ≡ p ∷ qs)
      × IsOpened end w.file w'.file w'.kmem w'.pipe (w'.ofile fd0) (w'.ofile fd1) p qs

module _ (end rf wf : ℕ) (w : World) where
  none_free :
      (w₁ w₂ : World)
      → fdalloc rf w.ofile ≡ none
      → close end rf w ≡ some w₁
      → close end wf w₁ ≡ some w₂
      → open_ends end rf wf w ≡ some (none, w₂)
  unfolding open_ends
  none_free w₁ w₂ e c d = rw (open_ends, e, c, d) refl

  one_free :
      (fd0 : ℕ) (ofile : ℕ → ℕ) (w₁ w₂ : World)
      → fdalloc rf w.ofile ≡ some (fd0, ofile)
      → fdalloc wf ofile ≡ none
      → close end rf (record w { ofile = update ofile fd0 0 }) ≡ some w₁
      → close end wf w₁ ≡ some w₂
      → open_ends end rf wf w ≡ some (none, w₂)
  unfolding open_ends
  one_free fd0 ofile w₁ w₂ e g c d = rw (open_ends, e, g, c, d) refl

  both_free :
      (fd0 fd1 : ℕ) (ofile ofile' : ℕ → ℕ)
      → fdalloc rf w.ofile ≡ some (fd0, ofile)
      → fdalloc wf ofile ≡ some (fd1, ofile')
      → open_ends end rf wf w ≡ some (some (fd0, fd1), record w { ofile = ofile' })
  unfolding open_ends
  both_free fd0 fd1 ofile ofile' e g = rw (open_ends, e, g) refl

module _ (end addr : ℕ) (w : World) where
  not_allocated :
      (w' : World)
      → pipealloc end w ≡ some (none, w')
      → sys_pipe end (some addr) w ≡ some (none, w')
  unfolding sys_pipe
  not_allocated w' e = rw (sys_pipe, e) refl

  not_opened :
      (rf wf : ℕ) (w₁ w' : World)
      → pipealloc end w ≡ some (some (rf, wf), w₁)
      → open_ends end rf wf w₁ ≡ some (none, w')
      → sys_pipe end (some addr) w ≡ some (none, w')
  unfolding sys_pipe
  not_opened rf wf w₁ w' e g = rw (sys_pipe, e, g) refl

  pipe_opened :
      (rf wf fd0 fd1 : ℕ) (w₁ w' : World)
      → pipealloc end w ≡ some (some (rf, wf), w₁)
      → open_ends end rf wf w₁ ≡ some (some (fd0, fd1), w')
      → sys_pipe end (some addr) w ≡ some (some (addr, fd0, fd1), w')
  unfolding sys_pipe
  pipe_opened rf wf fd0 fd1 w₁ w' e g = rw (sys_pipe, e, g) refl

-- The descriptors of the ends of a new pipe, or both ends closed.
open_ends-Opened :
    (end rf wf p : ℕ) (qs : List ℕ) (t : ℕ → File) (w : World)
    → (1 ≤ rf) × (1 ≤ wf)
    → IsOpened end t w.file w.kmem w.pipe rf wf p qs
    → ((w' : World) × (open_ends end rf wf w ≡ some (none, w'))
        × ((j : ℕ) → w'.ofile j ≡ w.ofile j)
        × (w'.put ≡ w.put)
        × IsAsBefore t w'.file
        × HasFree end w'.kmem (p ∷ qs))
      ⊎ ((fd0 fd1 : ℕ) × IsLowest w.ofile fd0
          × IsLowest (update w.ofile fd0 rf) fd1
          × (open_ends end rf wf w
              ≡ some (some (fd0, fd1), record w { ofile = update (update w.ofile fd0 rf) fd1 wf })))
open_ends-Opened end rf wf p qs t w pos h = elim (fdalloc-IsLowest rf w.ofile) [
  | inl (_, e) ↦
      let (w₁, w₂, c, d, o, put, same, list) = close_ends end t rf wf p qs w h in
      inl (w₂, none_free end rf wf w w₁ w₂ e c d, (λ j. ap (λ f. f j) o), put, same, list)
  | inr (fd0, low, e) ↦ elim (fdalloc-IsLowest wf (update w.ofile fd0 rf)) [
    | inl (_, g) ↦
        let back : ℕ → ℕ = update (update w.ofile fd0 rf) fd0 0 in
        let (w₁, w₂, c, d, o, put, same, list) =
          close_ends end t rf wf p qs (record w { ofile = back }) h in
        let restored : (j : ℕ) → back j ≡ w.ofile j = λ j. ground (arith, low.is_free) in
        inl (
          w₂,
          one_free end rf wf w fd0 (update w.ofile fd0 rf) w₁ w₂ e g c d,
          (λ j. rw (ap (λ f. f j) o) (restored j)),
          put,
          same,
          list,
        )
    | inr (fd1, low', g) ↦ inr (
      fd0,
      fd1,
      low,
      low',
      both_free end rf wf w fd0 fd1 (update w.ofile fd0 rf) (update (update w.ofile fd0 rf) fd1 wf)
          e g,
    )
  ]
]

piped :
    (end rf wf p fd0 fd1 : ℕ) (qs : List ℕ) (w w₁ : World)
    → (w₁.ofile ≡ w.ofile) × (w₁.put ≡ w.put)
    → 1 ≤ rf
    → IsOpened end w.file w₁.file w₁.kmem w₁.pipe rf wf p qs
    → IsLowest w.ofile fd0
    → IsLowest (update w.ofile fd0 rf) fd1
    → IsPiped end (p ∷ qs) w (record w₁ { ofile = update (update w.ofile fd0 rf) fd1 wf }) fd0 fd1
piped end rf wf p fd0 fd1 qs w w₁ (o, put) pos h low low' =
    let apart : fd0 ≢ fd1 = λ z. ground (arith, low'.is_free) in
    let ofile : ℕ → ℕ = update (update w.ofile fd0 rf) fd1 wf in
    let at_read : ofile fd0 ≡ rf = ground arith in
    let at_write : ofile fd1 ≡ wf = ground arith in
    record {
      read_fd = low;
      write_fd = rw at_read low';
      others = λ j a b. ground arith;
      put = put;
      ends = (p, qs, refl, rw (at_read, at_write) h);
    }

-- sys_pipe returns -1, and then the descriptors, the references and types of all files, the inodes put
-- and the list of free pages are as before; or it gives the two lowest free descriptors the ends of a
-- new pipe in the first free page. It does not panic. Before the call, the file table entries without
-- references have no type, and `ps` is the list of free pages.
pub sys_pipe-Piped :
    (end addr : ℕ) (w : World) (ps : List ℕ)
    → IsCleared w.file
    → HasFree end w.kmem ps
    → ((w' : World) × (sys_pipe end (some addr) w ≡ some (none, w')) × IsUndone end ps w w')
      ⊎ ((fd0 fd1 : ℕ) × (w' : World) × (sys_pipe end (some addr) w
            ≡ some (some (addr, fd0, fd1), w'))
          × IsPiped end ps w w' fd0 fd1)
unfolding IsAllocated
sys_pipe-Piped end addr w ps clear h = elim (pipealloc-Opened end w ps clear h) [
  | inl (w', e, undone) ↦ inl (w', not_allocated end addr w w' e, undone)
  | inr (rf, wf, p, qs, w₁, first, e, o, put, pos, opened) ↦
      elim (open_ends-Opened end rf wf p qs w.file w₁ pos opened) [
        | inl (w', g, o', put', same, list) ↦ inl (
          w',
          not_opened end addr w rf wf w₁ w' e g,
          record {
            ofile = λ j. o' j ∙ ap (λ f. f j) o;
            put = put' ∙ put;
            file = same;
            free = rw first list;
          },
        )
        | inr (fd0, fd1, low, low', g) ↦
            let low₀ : IsLowest w.ofile fd0 = rw (sym o) low in
            let low₁ : IsLowest (update w.ofile fd0 rf) fd1 = rw (sym o) low' in
            let w' : World = record w₁ { ofile = update (update w.ofile fd0 rf) fd1 wf } in
            inr (
              fd0,
              fd1,
              w',
              pipe_opened end addr w rf wf fd0 fd1 w₁ w' e (rw (sym o) g),
              rw first (piped end rf wf p fd0 fd1 qs w w₁ (o, put) pos.0 opened low₀ low₁),
            )
      ]
]

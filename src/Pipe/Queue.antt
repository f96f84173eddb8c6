-- ===== src/Pipe/Queue.antt =====
-- What is written to an empty pipe is what is read from it.
use os_project03_thread.Common.{
  ℕ, ◌+◌, ◌≤◌, ◌<◌, ◌≡◌, inl, inr, ◌∙◌, ap, sym, refl, arith, Bool, List, [], ◌∷◌, ◌++◌, length,
  Bool-cases,
}
use mathlib.Core.List.{append-nil, append_assoc}
use os_project03_thread.Pipe.{
  Pipe, returns, readers, writers, pipesize, is_full, is_empty, put, pipewrite_loop, piperead_copy,
  piperead,
}
use os_project03_thread.Pipe.Ring.{count, contents, IsRing, put-contents, put-count, slice}
use os_project03_thread.Pipe.Laws.{full-count, empty-count, piperead_copy-Read}

length-append : (xs ys : List ℕ) → length (xs ++ ys) ≡ length xs + length ys
unfolding length
length-append [] ys = omega arith
length-append (x ∷ xs) ys = ground (arith, length-append xs ys)

length_zero : (xs : List ℕ) → length xs ≡ 0 → xs ≡ []
unfolding length
length_zero [] h = refl
length_zero (x ∷ xs) h = absurd (omega arith)

contents_empty : (p : Pipe) → count p ≡ 0 → contents p ≡ []
unfolding contents slice
contents_empty p h = rw h refl

not_empty : (b : ℕ) (bs : List ℕ) → b ∷ bs ≡ [] → ⊥
unfolding length
not_empty b bs h = let e = ap length h in omega arith

-- Bytes that fit are written at once, whether the process is killed or not and the other end open or
-- not: the call returns `n` and wakes the readers.
pub pipewrite_fits :
    (killed : Bool) (n : ℕ) (bs : List ℕ) (p : Pipe)
    → IsRing p
    → count p + length bs ≤ pipesize
    → (q : Pipe) × (pipewrite_loop killed n bs p
        ≡ record { pipe = q; wakes = readers ∷ []; end = returns n })
      × IsRing q
      × (contents q ≡ contents p ++ bs)
unfolding pipewrite_loop length
pipewrite_fits killed n [] p r h = (p, refl, r, sym (append-nil (contents p)))
pipewrite_fits killed n (b ∷ bs) p r h =
    let room : count p < pipesize = omega arith in
    let next = put-contents b p r room in
    let rest =
      pipewrite_fits killed n bs (put b p) next.0 (rw (put-count p r b room) (omega arith)) in
    (
      rest.0,
      elim (Bool-cases (is_full p)) [
        | inl e ↦ absurd (ground (arith, (full-count p r).0 e))
        | inr e ↦ rw e rest.1
      ],
      rest.2,
      rest.3 ∙ rw next.1 (append_assoc (contents p) (b ∷ []) bs),
    )

copy-all :
    (n : ℕ) (p : Pipe)
    → IsRing p
    → length (contents p) ≤ n
    → ((piperead_copy n p).0 ≡ contents p) × (contents (piperead_copy n p).1 ≡ [])
copy-all n p r h =
    let done = piperead_copy-Read n p r in
    let len =
      ap length done.split ∙ length-append (piperead_copy n p).0 (contents (piperead_copy n p).1) in
    let empty : contents (piperead_copy n p).1 ≡ [] = elim done.ends [
      | inl e ↦ length_zero (contents (piperead_copy n p).1) (omega arith)
      | inr e ↦ contents_empty (piperead_copy n p).1 e.1
    ] in
    (sym (done.split ∙ rw empty (append-nil (piperead_copy n p).0)), empty)

-- Bytes, at least one, that are written to an empty pipe and fit in it are read back by a read of at least as many,
-- in order and all of them, and the pipe is empty again. Both calls return at once, and each wakes
-- the other side.
pub pipewrite-piperead :
    (killed : Bool) (b : ℕ) (bs : List ℕ) (p : Pipe) (n m : ℕ)
    → IsRing p
    → count p ≡ 0
    → length (b ∷ bs) ≤ pipesize
    → length (b ∷ bs) ≤ m
    → (q q' : Pipe) × (pipewrite_loop killed n (b ∷ bs) p
        ≡ record { pipe = q; wakes = readers ∷ []; end = returns n })
      × (piperead killed m q
          ≡ (b ∷ bs, record { pipe = q'; wakes = writers ∷ []; end = returns (length (b ∷ bs)) }))
      × (contents q' ≡ [])
unfolding piperead
pipewrite-piperead killed b bs p n m r e h g =
    let (q, wrote, ring, c) = pipewrite_fits killed n (b ∷ bs) p r (omega arith) in
    let same : contents q ≡ b ∷ bs = c ∙ rw (contents_empty p e) refl in
    let read = copy-all m q ring (rw same g) in
    (
      q,
      (piperead_copy m q).1,
      wrote,
      elim (Bool-cases (is_empty q)) [
        | inl f ↦ absurd (not_empty b bs (sym same ∙ contents_empty q ((empty-count q ring).0 f)))
        | inr f ↦ rw (f, read.0, same) refl
      ],
      read.1,
    )

-- ===== src/Pipe/Laws.antt =====
-- A pipe is a queue of at most PIPESIZE bytes: what a write adds and a read takes.
use os_project03_thread.Common.{
  ℕ, zero, suc, ◌%◌, ◌<◌, ◌≡◌, ◌⊎◌, inl, inr, ◌∙◌, ap, sym, refl, arith, Bool, true, false, List,
  [], ◌∷◌, ◌++◌, ◌||◌, not, if◌then◌else◌, Bool-cases, length,
}
use mathlib.Core.List.{append-nil, append_assoc}
use os_project03_thread.Pipe.{
  Pipe, Outcome, returns, fails, sleeps, readers, writers, pipesize, is_full, is_empty, put,
  get_byte, pipewrite_loop, piperead_copy,
}
use os_project03_thread.Pipe.Ring.{count, contents, IsRing, put-contents, get_byte-contents}

module _ (p : Pipe) (r : IsRing p) where
  pub full-count :
      (is_full p ≡ true → count p ≡ pipesize) × (is_full p ≡ false → count p < pipesize)
  unfolding count
  full-count = (λ h. ground (arith, r.small, r.bounded), λ h. ground (arith, r.small, r.bounded))

  pub empty-count : (is_empty p ≡ true → count p ≡ 0) × (is_empty p ≡ false → 0 < count p)
  unfolding count
  empty-count = (λ h. ground (arith, r.small, r.bounded), λ h. ground (arith, r.small, r.bounded))

-- What the loop of `pipewrite` has done with the bytes `bs`, out of `n`: `taken` are in the pipe,
-- and `left` are not.
pub record Written (n : ℕ) (p : Pipe) (bs : List ℕ) (o : Outcome) : Type 0 where
  pub taken : List ℕ
  pub left : List ℕ
  pub split : taken ++ left ≡ bs
  pub ring : IsRing o.pipe
  pub grown : contents o.pipe ≡ contents p ++ taken
  pub ends :
      ((left ≡ []) × (o.end ≡ returns n))
      ⊎ ((count o.pipe ≡ pipesize) × ((o.end ≡ fails) ⊎ (o.end ≡ sleeps writers left)))

stop :
    (killed : Bool) (n b : ℕ) (bs : List ℕ) (p : Pipe)
    → IsRing p
    → count p ≡ pipesize
    → (gone : Bool)
    → Written n p (b ∷ bs) (
        if gone
        then record { pipe = p; wakes = []; end = fails }
        else record { pipe = p; wakes = readers ∷ []; end = sleeps writers (b ∷ bs) })
stop killed n b bs p r h true = record {
  taken = [];
  left = b ∷ bs;
  split = refl;
  ring = r;
  grown = sym (append-nil (contents p));
  ends = inr (h, inl refl);
}
stop killed n b bs p r h false = record {
  taken = [];
  left = b ∷ bs;
  split = refl;
  ring = r;
  grown = sym (append-nil (contents p));
  ends = inr (h, inr refl);
}

-- `pipewrite` appends its bytes to the queue in order and none of them twice: it returns with all of
-- them in the pipe, or it stops at a full pipe, where it fails or sleeps with the rest still to
-- write.
pub pipewrite-Written :
    (killed : Bool) (n : ℕ) (bs : List ℕ) (p : Pipe)
    → IsRing p
    → Written n p bs (pipewrite_loop killed n bs p)
unfolding pipewrite_loop
pipewrite-Written killed n [] p r = record {
  taken = [];
  left = [];
  split = refl;
  ring = r;
  grown = sym (append-nil (contents p));
  ends = inl (refl, refl);
}
pipewrite-Written killed n (b ∷ bs) p r = elim (Bool-cases (is_full p)) [
  | inl e ↦ rw e (stop killed n b bs p r ((full-count p r).0 e) (not p.readopen || killed))
  | inr e ↦
      let next = put-contents b p r ((full-count p r).1 e) in
      let w = pipewrite-Written killed n bs (put b p) next.0 in
      rw e (record {
        taken = b ∷ w.taken;
        left = w.left;
        split = ap (λ xs. b ∷ xs) w.split;
        ring = w.ring;
        grown = w.grown ∙ rw next.1 (append_assoc (contents p) (b ∷ []) w.taken);
        ends = w.ends;
      })
]

-- What the copy loop of `piperead` has done: the bytes `xs` are those at the head of the queue, and
-- it stops after `n` bytes or at an empty pipe.
pub record Read (n : ℕ) (p : Pipe) (out : List ℕ × Pipe) : Type 0 where
  pub ring : IsRing out.1
  pub split : contents p ≡ out.0 ++ contents out.1
  pub ends : (length out.0 ≡ n) ⊎ ((length out.0 < n) × (count out.1 ≡ 0))

-- The copy loop of `piperead` takes the oldest bytes in order: as many as asked for, or all there
-- are.
pub piperead_copy-Read : (n : ℕ) (p : Pipe) → IsRing p → Read n p (piperead_copy n p)
unfolding piperead_copy length
piperead_copy-Read zero p r = record { ring = r; split = refl; ends = inl refl }
piperead_copy-Read (suc n) p r = elim (Bool-cases (is_empty p)) [
  | inl e ↦
      rw e (record { ring = r; split = refl; ends = inr (omega arith, (empty-count p r).0 e) })
  | inr e ↦
      let first = get_byte-contents p r ((empty-count p r).1 e) in
      let rest = piperead_copy-Read n (get_byte p) first.0 in
      rw e (record {
        ring = rest.ring;
        split = first.1 ∙ ap (λ xs. p.data_at (p.nread % pipesize) ∷ xs) rest.split;
        ends = ground (arith, rest.ends);
      })
]

-- ===== src/Bio/Ring.antt =====
-- The ring of buffers as a list: `prev` and `next` agree, and moves keep them so.
use os_project03_thread.Common.{
  ℕ, ◌≡◌, ◌≢◌, sym, ◌∙◌, List, [], ◌∷◌, ◌++◌, update, update_same, update_other,
}
use os_project03_thread.Kalloc.Free.{Outside}
use os_project03_thread.Bio.{Bcache, link_first, unlink}

-- From node `a` the links `n` lead through `l` to the head, and the links `p` back.
unfoldable pub Seg : (ℕ → ℕ) → (ℕ → ℕ) → ℕ → List ℕ → Type 0
Seg n p a [] = (n a ≡ 0) × (p 0 ≡ a)
Seg n p a (x ∷ xs) = (n a ≡ x) × (p x ≡ a) × Seg n p x xs

-- The entries are different.
unfoldable pub Apart : List ℕ → Type 0
Apart [] = Unit
Apart (x ∷ xs) = Outside x xs × Apart xs

-- The ring is `l`, most recently used first.
pub record IsRing (c : Bcache) (l : List ℕ) : Type 0 where
  pub seg : Seg c.next c.prev 0 l
  pub apart : Apart l
  pub no_head : Outside 0 l

pub Seg-next :
    (n p : ℕ → ℕ) (a : ℕ) (l : List ℕ) (q v : ℕ)
    → q ≢ a
    → Outside q l
    → Seg n p a l
    → Seg (update n q v) p a l
unfolding Seg Outside
Seg-next n p a [] q v ne out s = (update_other n q a v (λ e. ne (sym e)) ∙ s.0, s.1)
Seg-next n p a (x ∷ xs) q v ne out s =
    (update_other n q a v (λ e. ne (sym e)) ∙ s.0, s.1, Seg-next n p x xs q v out.0 out.1 s.2)

pub Seg-prev :
    (n p : ℕ → ℕ) (a : ℕ) (l : List ℕ) (q v : ℕ)
    → q ≢ 0
    → Outside q l
    → Seg n p a l
    → Seg n (update p q v) a l
unfolding Seg Outside
Seg-prev n p a [] q v ne out s = (s.0, update_other p q 0 v (λ e. ne (sym e)) ∙ s.1)
Seg-prev n p a (x ∷ xs) q v ne out s =
    (s.0, update_other p q x v (λ e. out.0 (sym e)) ∙ s.1, Seg-prev n p x xs q v ne out.1 s.2)

-- The node before `b`, and the node behind it, are nodes of the segment.
prev_in :
    (n p : ℕ → ℕ) (a b : ℕ) (xs ys : List ℕ) (q : ℕ)
    → Seg n p a (xs ++ b ∷ ys)
    → q ≢ a
    → Outside q (xs ++ b ∷ ys)
    → q ≢ p b
unfolding Seg Outside
prev_in n p a b [] ys q s ne out = λ e. ne (e ∙ s.1)
prev_in n p a b (x ∷ xs) ys q s ne out = prev_in n p x b xs ys q s.2 out.0 out.1

next_in :
    (n p : ℕ → ℕ) (a b : ℕ) (xs ys : List ℕ) (q : ℕ)
    → Seg n p a (xs ++ b ∷ ys)
    → q ≢ 0
    → Outside q (xs ++ b ∷ ys)
    → q ≢ n b
unfolding Seg Outside
next_in n p a b [] [] q s ne out = λ e. ne (e ∙ s.2.0)
next_in n p a b [] (y ∷ ys) q s ne out = λ e. out.1.0 (e ∙ s.2.0)
next_in n p a b (x ∷ xs) ys q s ne out = next_in n p x b xs ys q s.2 ne out.1

joined :
    (n p : ℕ → ℕ) (a b y : ℕ) (l : List ℕ)
    → p b ≡ a
    → n b ≡ y
    → Seg (update n a y) (update p y a) a l
    → Seg (update n (p b) (n b)) (update p (n b) (p b)) a l
joined n p a b y l e f s = rw (e, f) s

-- The links around `b` are joined.
Seg-unlink :
    (n p : ℕ → ℕ) (a b : ℕ) (xs ys : List ℕ)
    → Seg n p a (xs ++ b ∷ ys)
    → Outside a (xs ++ b ∷ ys)
    → Apart (xs ++ b ∷ ys)
    → Outside 0 (xs ++ b ∷ ys)
    → Seg (update n (p b) (n b)) (update p (n b) (p b)) a (xs ++ ys)
unfolding Seg Outside Apart
Seg-unlink n p a b [] [] s out apart head =
    joined n p a b 0 [] s.1 s.2.0 (update_same n a 0, update_same p 0 a)
Seg-unlink n p a b [] (y ∷ ys) s out apart head = joined n p a b y (y ∷ ys) s.1 s.2.0 (
  update_same n a y,
  update_same p y a,
  Seg-next n (update p y a) y ys a y out.1.0 out.1.1
      (Seg-prev n p y ys y a (λ e. head.1.0 (sym e)) apart.1.0 s.2.2),
)
Seg-unlink n p a b (x ∷ xs) ys s out apart head = (
  update_other n (p b) a (n b) (prev_in n p x b xs ys a s.2 out.0 out.1) ∙ s.0,
  update_other p (n b) x (p b) (next_in n p x b xs ys x s.2 (λ e. head.0 (sym e)) apart.0) ∙ s.1,
  Seg-unlink n p x b xs ys s.2 apart.0 apart.1 head.1,
)

-- The links after `b` is put between the head and the node `f`.
abbrev pub Linked : (ℕ → ℕ) → (ℕ → ℕ) → ℕ → ℕ → List ℕ → Type 0
Linked n p b f l = Seg (update (update n b f) 0 b) (update (update p b 0) f b) 0 (b ∷ l)

first_nil : (n p : ℕ → ℕ) (b : ℕ) → b ≢ 0 → Linked n p b 0 []
unfolding Seg
first_nil n p b ne = (
  update_same (update n b 0) 0 b,
  update_other (update p b 0) 0 b b ne ∙ update_same p b 0,
  (update_other (update n b 0) 0 b b ne ∙ update_same n b 0, update_same (update p b 0) 0 b),
)

first_cons :
    (n p : ℕ → ℕ) (b y : ℕ) (ys : List ℕ)
    → Seg n p 0 (y ∷ ys)
    → b ≢ 0
    → Outside b (y ∷ ys)
    → Apart (y ∷ ys)
    → Outside 0 (y ∷ ys)
    → Linked n p b y (y ∷ ys)
unfolding Seg Outside Apart
first_cons n p b y ys s ne out apart head = (
  update_same (update n b y) 0 b,
  update_other (update p b 0) y b b out.0 ∙ update_same p b 0,
  (
    update_other (update n b y) 0 b b ne ∙ update_same n b y,
    update_same (update p b 0) y b,
    Seg-next (update n b y) (update (update p b 0) y b) y ys 0 b head.0 head.1 (
        Seg-next n (update (update p b 0) y b) y ys b y out.0 out.1 (
          Seg-prev n (update p b 0) y ys y b (λ e. head.0 (sym e)) apart.0
            (Seg-prev n p y ys b 0 ne out.1 s.2))),
  ),
)

first_link : (n p : ℕ → ℕ) (a y : ℕ) (ys : List ℕ) → Seg n p a (y ∷ ys) → n a ≡ y
unfolding Seg
first_link n p a y ys s = s.0

last_link : (n p : ℕ → ℕ) (a : ℕ) → Seg n p a [] → n a ≡ 0
unfolding Seg
last_link n p a s = s.0

-- Buffer `b` is linked in behind the head.
Seg-first :
    (n p : ℕ → ℕ) (b : ℕ) (l : List ℕ)
    → Seg n p 0 l
    → b ≢ 0
    → Outside b l
    → Apart l
    → Outside 0 l
    → Linked n p b (n 0) l
Seg-first n p b [] s ne out apart head = rw (last_link n p 0 s) (first_nil n p b ne)
Seg-first n p b (y ∷ ys) s ne out apart head =
    rw (first_link n p 0 y ys s) (first_cons n p b y ys s ne out apart head)

next_not_self :
    (n p : ℕ → ℕ) (a b : ℕ) (xs ys : List ℕ)
    → Seg n p a (xs ++ b ∷ ys)
    → Apart (xs ++ b ∷ ys)
    → Outside 0 (xs ++ b ∷ ys)
    → b ≢ n b
unfolding Seg Outside Apart
next_not_self n p a b [] [] s apart head = λ e. head.0 (sym (e ∙ s.2.0))
next_not_self n p a b [] (y ∷ ys) s apart head = λ e. apart.0.0 (e ∙ s.2.0)
next_not_self n p a b (x ∷ xs) ys s apart head = next_not_self n p x b xs ys s.2 apart.1 head.1

pub unlink-Seg :
    (c : Bcache) (b : ℕ) (xs ys : List ℕ)
    → IsRing c (xs ++ b ∷ ys)
    → Seg (unlink b c).next (unlink b c).prev 0 (xs ++ ys)
unfolding unlink
unlink-Seg c b xs ys r =
    rw
      (update_other c.prev (c.next b) b (c.prev b)
        (next_not_self c.next c.prev 0 b xs ys r.seg r.apart r.no_head))
      (Seg-unlink c.next c.prev 0 b xs ys r.seg r.no_head r.apart r.no_head)

pub link_first-Seg :
    (c : Bcache) (b : ℕ) (l : List ℕ)
    → IsRing c l
    → b ≢ 0
    → Outside b l
    → Seg (link_first b c).next (link_first b c).prev 0 (b ∷ l)
unfolding link_first
link_first-Seg c b l r ne out =
    rw (update_other c.next b 0 (c.next 0) (λ e. ne (sym e)))
      (Seg-first c.next c.prev b l r.seg ne out r.apart r.no_head)

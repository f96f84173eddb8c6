-- ===== src/Kalloc/Free.antt =====
-- The free list holds distinct pages, and kalloc and kfree are pop and push on it.
use os_project03_thread.Common.{
  ℕ, ◌+◌, ◌%◌, ◌≤◌, ◌<◌, ◌≡◌, ◌≢◌, ◌⊎◌, inl, inr, refl, arith, false, some, List, [], ◌∷◌, update,
  update_same,
}
use os_project03_thread.Kernel.State.{pgsize}
use os_project03_thread.Kalloc.{Kmem, kernbase, phystop, junk, is_bad, kfree, kalloc}

-- A page that the allocator may give out.
pub record IsPage (end v : ℕ) : Type 0 where
  pub aligned : v % pgsize ≡ 0
  pub above : (end ≤ v) × (kernbase ≤ v)
  pub below : v < kernbase + phystop

-- The page `v` is none of the pages of the list.
unfoldable pub Outside : ℕ → List ℕ → Type 0
Outside v [] = Unit
Outside v (p ∷ ps) = (v ≢ p) × Outside v ps

-- `h` points at a null-terminated list of the pages `ps`, which are pairwise different.
unfoldable pub Chain : ℕ → (ℕ → ℕ) → ℕ → List ℕ → Type 0
Chain end w h [] = h ≡ 0
Chain end w h (p ∷ ps) = (h ≡ p) × IsPage end p × Outside p ps × Chain end w (w p) ps

-- The free list of the allocator is `ps`, first page first.
unfoldable pub HasFree : ℕ → Kmem → List ℕ → Type 0
HasFree end k ps = Chain end k.word k.freelist ps

good : (end v : ℕ) → IsPage end v → is_bad end v ≡ false
unfolding is_bad
good end v h = ground arith

-- Writing into a page outside the list leaves the list as it is.
Chain-keeps :
    (end : ℕ) (w : ℕ → ℕ) (v x : ℕ) (ps : List ℕ) (h : ℕ)
    → IsPage end v
    → Outside v ps
    → Chain end w h ps
    → Chain end (update (junk v w) v x) h ps
unfolding junk Chain Outside
Chain-keeps end w v x [] h page out c = c
Chain-keeps end w v x (p ∷ ps) h page (ne, out) (e, here, distinct, c) =
    let same : update (junk v w) v x p ≡ w p = ground arith in
    (e, here, distinct, rw same (Chain-keeps end w v x ps (w p) page out c))

-- `kfree` of a page that is not free puts it at the head of the free list.
pub kfree-HasFree :
    (end v : ℕ) (k : Kmem) (ps : List ℕ)
    → HasFree end k ps
    → IsPage end v
    → Outside v ps
    → (k' : Kmem) × (kfree end v k ≡ some k') × HasFree end k' (v ∷ ps)
unfolding HasFree Chain kfree
kfree-HasFree end v k ps h page out = (
  record { word = update (junk v k.word) v k.freelist; freelist = v },
  rw (good end v page) (ground arith),
  (
    refl,
    page,
    out,
    rw (update_same (junk v k.word) v k.freelist)
        (Chain-keeps end k.word v k.freelist ps k.freelist page out h),
  ),
)

-- `kalloc` takes the page at the head of the free list; 0 only if the list is empty.
pub kalloc-HasFree :
    (end : ℕ) (k : Kmem) (ps : List ℕ)
    → HasFree end k ps
    → ((ps ≡ []) × (kalloc k ≡ (0, k)))
      ⊎ ((p : ℕ) × (qs : List ℕ) × (k' : Kmem) × (ps ≡ p ∷ qs)
          × (kalloc k ≡ (p, k'))
          × (p ≢ 0)
          × HasFree end k' qs)
unfolding HasFree Chain kalloc
kalloc-HasFree end k [] h = inl (refl, ground arith)
kalloc-HasFree end k (p ∷ ps) (e, page, out, c) =
    inr (p, ps, record k { freelist = k.word p }, refl, rw e (ground arith), (λ z. ground arith), c)

-- A page that is freed is the next one given out, and the free list is then as it was.
pub kalloc-kfree :
    (end v : ℕ) (k : Kmem) (ps : List ℕ)
    → HasFree end k ps
    → IsPage end v
    → Outside v ps
    → (k₁ k₂ : Kmem) × (kfree end v k ≡ some k₁) × (kalloc k₁ ≡ (v, k₂)) × HasFree end k₂ ps
unfolding kfree kalloc HasFree
kalloc-kfree end v k ps h page out =
    let word : ℕ → ℕ = update (junk v k.word) v k.freelist in
    (
      record { word = word; freelist = v },
      record { word = word; freelist = word v },
      rw (good end v page) (ground arith),
      ground arith,
      rw (update_same (junk v k.word) v k.freelist)
          (Chain-keeps end k.word v k.freelist ps k.freelist page out h),
    )

-- ===== src/Proc/Exit/Reap.antt =====
-- wait: what its scan finds, and what becomes of the threads of a reaped child.
use os_project03_thread.Common.{
  sym, ap, some, false, ◌-◌, ◌%◌, ◌^◌, update, eq→==_true, ne→==_false, ℕ, ◌+◌, ◌<◌, ◌≡◌, ◌≢◌, ◌∙◌,
  ◌⊎◌, inl, inr, refl, true, arith, ◌==◌, ◌&&◌, not, Bool, Bool-cases,
}
use os_project03_thread.Kernel.State.{Kernel, Proc, unused, is_zombie, is_unused, max_threads}
use os_project03_thread.Kernel.Ops.{Ops}
use os_project03_thread.Kernel.Run.{for_cmd, set_proc, set_shared}
use os_project03_thread.Kernel.Returns.{Returns, for_cmd_below, each-Returns, weaken-Returns}
use os_project03_thread.Proc.Exit.{reap_round}

-- An entry that `wait` frees, and one that is freed.
abbrev pub is_dead : Proc → Bool
is_dead p = is_zombie p.state && not (p.pid == 0)

abbrev pub is_freed : Proc → Bool
is_freed p = is_unused p.state && (p.pid == 0)

-- `Ready n stack e`: with `n` threads counted and `stack` for the kernel stack of the child, 0 when it
-- is freed, kfree and freevm of its pages do not panic on the memory `e`.
pub record IsFreeable {M : Type 0} (ops : Ops M) (pgdir : ℕ) (Ready : ℕ → ℕ → M → Type 0)
    : Type 0 where
  pub stack :
      (n s : ℕ) (e : M) → s ≢ 0 → Ready n s e → (e' : M) × (ops.kfree s e ≡ some e') × Ready n 0 e'
  pub last :
      (s : ℕ) (e : M) → Ready 1 s e → (e' : M) × (ops.freevm pgdir e ≡ some e') × Ready 0 s e'
  pub fewer : (n s : ℕ) (e : M) → n ≢ 1 → Ready n s e → Ready ((n + 2 ^ 32 - 1) % 2 ^ 32) s e

module _ {M : Type 0} (ops : Ops M) (p : ℕ) (Ready : ℕ → ℕ → M → Type 0) where
  abbrev pub listed : Kernel M → ℕ → ℕ
  listed k i = (k.shared (k.proc p).share_ptr).threads i

  abbrev pub counted : Kernel M → ℕ
  counted k = (k.shared (k.proc p).share_ptr).num_of_thread

  abbrev pub IsReady : Kernel M → Type 0
  IsReady k = Ready (counted k) (k.proc p).kstack k.env

  -- One round: the lock, the list at `m`, and the row `j`.
  pub record Round (i m j : ℕ) (k k' : Kernel M) : Type 0 where
    pub lock : (k'.lock ≡ k.lock) × (k'.cpu ≡ k.cpu)
    pub list : listed k' m ≡ listed k m
    pub self : is_dead (k.proc (listed k i)) ≡ true → is_freed (k'.proc (listed k i)) ≡ true
    pub others :
        (((k'.proc j).state ≡ (k.proc j).state) × ((k'.proc j).pid ≡ (k.proc j).pid))
        ⊎ (is_freed (k'.proc j) ≡ true)
    pub kept :
        (listed k i ≡ j → is_dead (k.proc j) ≡ false)
        → ((k'.proc j).state ≡ (k.proc j).state) × ((k'.proc j).pid ≡ (k.proc j).pid)
    pub group :
        ((k'.proc j).share_ptr ≡ (k.proc j).share_ptr)
        × ((k'.shared (k.proc p).share_ptr).pgdir ≡ (k.shared (k.proc p).share_ptr).pgdir)
    pub ready : IsReady k'

  -- The kernel after a round that has freed its entry; `k₁` is the one when the stack is freed.
  abbrev finished : ℕ → Kernel M → Kernel M → M → Kernel M
  finished i k k₁ e =
      set_shared (k.proc p).share_ptr
        (λ s. record s { num_of_thread = (s.num_of_thread + 2 ^ 32 - 1) % 2 ^ 32 })
        (set_proc (listed k i)
          (λ r. record r {
            pid = 0;
            parent = 0;
            name = update r.name 0 0;
            killed = 0;
            state = unused;
          })
          (record (set_proc (listed k i) (λ r. record r { kstack = 0 }) k₁) { env = e }))

  abbrev unstacked : Kernel M → M → Kernel M
  unstacked k e = set_proc p (λ r. record r { kstack = 0 }) (record k { env = e })

  ready_at :
      (k' : Kernel M) (n : ℕ) (e : M)
      → counted k' ≡ n
      → (k'.proc p).kstack ≡ 0
      → k'.env ≡ e
      → Ready n 0 e
      → IsReady k'
  ready_at k' n e a b c r = rw (a, b, c) r

  finished_zero :
      (i m j : ℕ) (k : Kernel M) (e : M)
      → (k.proc p).kstack ≡ 0
      → Ready ((counted k + 2 ^ 32 - 1) % 2 ^ 32) 0 e
      → is_dead (k.proc (listed k i)) ≡ true
      → Round i m j k (finished i k k e)
  finished_zero i m j k e z r d = record {
    lock = (refl, refl);
    list = ground arith;
    self = λ h. ground arith;
    others = ground arith;
    kept = λ h. ground (arith, h);
    group = (ground arith, ground arith);
    ready =
        ready_at (finished i k k e) ((counted k + 2 ^ 32 - 1) % 2 ^ 32) e (ground arith)
          (ground arith) refl r;
  }

  finished_stack :
      (i m j : ℕ) (k : Kernel M) (e₁ e : M)
      → Ready ((counted k + 2 ^ 32 - 1) % 2 ^ 32) 0 e
      → is_dead (k.proc (listed k i)) ≡ true
      → Round i m j k (finished i k (unstacked k e₁) e)
  finished_stack i m j k e₁ e r d = record {
    lock = (refl, refl);
    list = ground arith;
    self = λ h. ground arith;
    others = ground arith;
    kept = λ h. ground (arith, h);
    group = (ground arith, ground arith);
    ready =
        ready_at (finished i k (unstacked k e₁) e) ((counted k + 2 ^ 32 - 1) % 2 ^ 32) e
          (ground arith) (ground arith) refl r;
  }

  module _ (pgdir : ℕ) (can : IsFreeable ops pgdir Ready) where
    -- What comes after the stack: freevm for the last thread.
    last_one :
        (k : Kernel M) (s : ℕ) (e : M)
        → Ready (counted k) s e
        → ((counted k ≡ 1) × ((e' : M) × (ops.freevm pgdir e ≡ some e') × Ready 0 s e'))
          ⊎ ((counted k ≢ 1) × Ready ((counted k + 2 ^ 32 - 1) % 2 ^ 32) s e)
    last_one k s e r = elim (Bool-cases (counted k == 1)) [
      | inl o ↦ let one : counted k ≡ 1 = ground arith in inl (one, can.last s e (rw one at r))
      | inr o ↦
          let more : counted k ≢ 1 = λ z. ground arith in
          inr (more, can.fewer (counted k) s e more r)
    ]

    zero_left : (k : Kernel M) → counted k ≡ 1 → (counted k + 2 ^ 32 - 1) % 2 ^ 32 ≡ 0
    zero_left k h = omega arith

    abbrev num_at : Kernel M → ℕ → ℕ
    num_at k i = (k.shared (k.proc (listed k i)).share_ptr).num_of_thread

    abbrev dir_at : Kernel M → ℕ → ℕ
    dir_at k i = (k.shared (k.proc (listed k i)).share_ptr).pgdir

    num_same :
        (k : Kernel M) (i : ℕ)
        → (k.proc (listed k i)).share_ptr ≡ (k.proc p).share_ptr
        → num_at k i ≡ counted k
    num_same k i e = ap (λ a. (k.shared a).num_of_thread) e

    dir_same :
        (k : Kernel M) (i : ℕ)
        → (k.proc (listed k i)).share_ptr ≡ (k.proc p).share_ptr
        → dir_at k i ≡ (k.shared (k.proc p).share_ptr).pgdir
    dir_same k i e = ap (λ a. (k.shared a).pgdir) e

    reap_round-Round :
        (i m j : ℕ) (k : Kernel M)
        → (k.shared (k.proc p).share_ptr).pgdir ≡ pgdir
        → (is_dead (k.proc (listed k i)) ≡ true
            → (k.proc (listed k i)).share_ptr ≡ (k.proc p).share_ptr)
        → IsReady k
        → Returns (λ _. Round i m j k) (reap_round ops p i k)
    unfolding reap_round
    reap_round-Round i m j k dir same r = elim (Bool-cases (is_dead (k.proc (listed k i)))) [
      | inr d ↦ rw d (record {
        lock = (refl, refl);
        list = refl;
        self = λ h. absurd (ground arith);
        others = inl (refl, refl);
        kept = λ h. (refl, refl);
        group = (refl, refl);
        ready = r;
      })
      | inl d ↦ elim (Bool-cases ((k.proc p).kstack == 0)) [
        | inl z ↦
            let zero_stack : (k.proc p).kstack ≡ 0 = ground arith in
            elim (last_one k 0 k.env (rw zero_stack at r)) [
              | inl (one, (e, f, r')) ↦
                  let one' : (num_at k i == 1) ≡ true =
                    rw (num_same k i (same d)) (eq→==_true one) in
                  let f' : ops.freevm (dir_at k i) k.env ≡ some e =
                    rw (dir_same k i (same d) ∙ dir) f in
                  rw (d, z, one', f')
                    (finished_zero i m j k e zero_stack (rw (zero_left k one) r') d)
              | inr (more, r') ↦
                  let more' : (num_at k i == 1) ≡ false =
                    rw (num_same k i (same d)) (ne→==_false more) in
                  rw (d, z, more') (finished_zero i m j k k.env zero_stack r' d)
            ]
        | inr z ↦
            let (e₁, f₁, r₁) =
              can.stack (counted k) (k.proc p).kstack k.env (λ q. ground arith) r in
            elim (last_one k 0 e₁ r₁) [
              | inl (one, (e, f, r')) ↦
                  let one' : (num_at k i == 1) ≡ true =
                    rw (num_same k i (same d)) (eq→==_true one) in
                  let f' : ops.freevm (dir_at k i) e₁ ≡ some e =
                    rw (dir_same k i (same d) ∙ dir) f in
                  rw (d, z, f₁, one', f') (finished_stack i m j k e₁ e (rw (zero_left k one) r') d)
              | inr (more, r') ↦
                  let more' : (num_at k i == 1) ≡ false =
                    rw (num_same k i (same d)) (ne→==_false more) in
                  rw (d, z, f₁, more') (finished_stack i m j k e₁ e₁ r' d)
            ]
      ]
    ]

    -- The loop before round `n`: from `k` on, the listed entries below `n` that were dead are freed.
    pub record Reaping (k : Kernel M) (n : ℕ) (k' : Kernel M) : Type 0 where
      pub lock : (k'.lock ≡ k.lock) × (k'.cpu ≡ k.cpu)
      pub list : (m : ℕ) → listed k' m ≡ listed k m
      pub done :
          (m : ℕ)
          → m < n
          → is_dead (k.proc (listed k m)) ≡ true
          → is_freed (k'.proc (listed k m)) ≡ true
      pub others :
          (j : ℕ)
          → (((k'.proc j).state ≡ (k.proc j).state) × ((k'.proc j).pid ≡ (k.proc j).pid))
            ⊎ (is_freed (k'.proc j) ≡ true)
      pub kept :
          (j : ℕ)
          → ((m : ℕ) → m < n → listed k m ≡ j → is_dead (k.proc j) ≡ false)
          → ((k'.proc j).state ≡ (k.proc j).state) × ((k'.proc j).pid ≡ (k.proc j).pid)
      pub group : (j : ℕ) → (k'.proc j).share_ptr ≡ (k.proc j).share_ptr
      pub space : (k'.shared (k.proc p).share_ptr).pgdir ≡ pgdir
      pub ready : IsReady k'

    Round-Reaping :
        (k k₁ k₂ : Kernel M) (n : ℕ)
        → Reaping k n k₁
        → ((mj : ℕ × ℕ) → Round n mj.0 mj.1 k₁ k₂)
        → Reaping k (n + 1) k₂
    Round-Reaping k k₁ k₂ n r s = record {
      lock = ground (arith, r.lock, (s (0, 0)).lock);
      list = λ m. (s (m, 0)).list ∙ r.list m;
      done = λ m a d. elim (Bool-cases (m == n)) [
        | inl e ↦
            let q : m ≡ n = ground arith in
            ground (
              arith,
              q,
              r.list m,
              (s (m, listed k m)).self,
              (s (m, listed k m)).others,
              r.others (listed k m),
            )
        | inr e ↦ ground (arith, r.done m, (s (m, listed k m)).others)
      ];
      others = λ j. ground (arith, (s (0, j)).others, r.others j);
      kept = λ j h.
          let (same, named) = r.kept j (λ m a. h m (omega arith)) in
          let (same', named') =
            (s (0, j)).kept
              (λ e. ground (arith, same, named, h n (omega arith) (sym (r.list n) ∙ e))) in
          (same' ∙ same, named' ∙ named);
      group = λ j. (s (0, j)).group.0 ∙ r.group j;
      space = (rw (r.group p) at (s (0, 0)).group.1) ∙ r.space;
      ready = (s (0, 0)).ready;
    }

    pub reap_loop :
        (k : Kernel M)
        → (k.shared (k.proc p).share_ptr).pgdir ≡ pgdir
        → ((m : ℕ)
            → m < max_threads
            → is_dead (k.proc (listed k m)) ≡ true
            → (k.proc (listed k m)).share_ptr ≡ (k.proc p).share_ptr)
        → IsReady k
        → Returns (λ _. Reaping k max_threads) (for_cmd (reap_round ops p) max_threads 0 k)
    reap_loop k dir same first =
        for_cmd_below max_threads (Reaping k) (reap_round ops p)
          (λ i k₁ low r.
            weaken-Returns (λ _ k₂. (mj : ℕ × ℕ) → Round i mj.0 mj.1 k₁ k₂) (λ _. Reaping k (i + 1))
              (reap_round ops p i k₁) (λ _ k₂. Round-Reaping k k₁ k₂ i r)
              (each-Returns (λ (mj : ℕ × ℕ) _ k₂. Round i mj.0 mj.1 k₁ k₂) (reap_round ops p i k₁)
                (0, 0)
                (λ mj.
                  reap_round-Round i mj.0 mj.1 k₁ (rw (r.group p) r.space)
                    (λ d.
                      rw (r.list i, r.group (listed k i), r.group p)
                        (same i low (ground (arith, r.list i, r.others (listed k i)))))
                    r.ready)))
          max_threads 0 k (omega arith)
          (record {
            lock = (refl, refl);
            list = λ m. refl;
            done = λ m a. absurd (omega arith);
            others = λ j. inl (refl, refl);
            kept = λ j h. (refl, refl);
            group = λ j. refl;
            space = dir;
            ready = first;
          })

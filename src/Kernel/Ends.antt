-- ===== src/Kernel/Ends.antt =====
-- How a system call ends: what holds when it returns, and what holds when it leaves the CPU.
use os_project03_thread.Common.{ℕ, zero, suc, ◌+◌, ◌≡◌, refl, Bool, true, false, Option, none, some}
use os_project03_thread.Kernel.State.{Kernel}
use os_project03_thread.Kernel.Run.{
  Run, ok, switched, spinning, panic, Cmd, and_then, called, asked, search_or, when, for_cmd,
}

-- A call that waits for another CPU does not end in this sense; a panic ends the call.
abbrev pub Ends : {M A : Type 0} → (A → Kernel M → Type 0) → (Kernel M → Type 0) → Run M A → Type 0
Ends P Q (ok a k) = P a k
Ends P Q (switched k) = Q k
Ends P Q spinning = ⊥
Ends P Q panic = Unit

module _ {M A : Type 0} where
  pub bind :
      {B : Type 0} (P : A → Kernel M → Type 0) (Q : Kernel M → Type 0) (R : B → Kernel M → Type 0)
      (r : Run M A) (f : A → Cmd M B)
      → Ends P Q r
      → ((a : A) (k : Kernel M) → P a k → Ends R Q (f a k))
      → Ends R Q (and_then r f)
  bind P Q R (ok a k) f h next = next a k h
  bind P Q R (switched k) f h next = h
  bind P Q R spinning f h next = h
  bind P Q R panic f h next = h

  pub when-Ends :
      (P : A → Kernel M → Type 0) (Q : Kernel M → Type 0) (b : Bool) (m n : Cmd M A) (k : Kernel M)
      → Ends P Q (m k)
      → Ends P Q (n k)
      → Ends P Q (when b m n k)
  when-Ends P Q true m n k h g = h
  when-Ends P Q false m n k h g = g

  pub search_or-Ends :
      {B : Type 0} (P : A → Kernel M → Type 0) (Q : Kernel M → Type 0) (o : Option B) (m : Cmd M A)
      (f : B → Cmd M A) (k : Kernel M)
      → Ends P Q (m k)
      → ((b : B) → o ≡ some b → Ends P Q (f b k))
      → Ends P Q (search_or o m f k)
  search_or-Ends P Q none m f k h g = h
  search_or-Ends P Q (some b) m f k h g = g b refl

  -- What one lemma says of the return, added to what another says.
  pub and_also :
      (P P' : A → Kernel M → Type 0) (Q Q' : Kernel M → Type 0) (r : Run M A)
      → Ends P Q r
      → Ends P' Q' r
      → Ends (λ a k. P a k × P' a k) Q' r
  and_also P P' Q Q' (ok a k) h g = (h, g)
  and_also P P' Q Q' (switched k) h g = g
  and_also P P' Q Q' spinning h g = h
  and_also P P' Q Q' panic h g = tt

module _ {M : Type 0} (P : Kernel M → Type 0) (Q : Kernel M → Type 0) where
  pub called-Ends :
      (o : Option M) (k : Kernel M)
      → ((m : M) → P (record k { env = m }))
      → Ends (λ _. P) Q (called o k)
  called-Ends none k h = tt
  called-Ends (some m) k h = h m

  pub asked-Ends :
      {A : Type 0} (o : Option (A × M)) (k : Kernel M)
      → ((m : M) → P (record k { env = m }))
      → Ends (λ _. P) Q (asked o k)
  asked-Ends none k h = tt
  asked-Ends (some (a, m)) k h = h m

  -- A loop keeps what each round keeps.
  pub for_cmd-Ends :
      (body : ℕ → Cmd M (Unit {0}))
      → ((i : ℕ) (k : Kernel M) → P k → Ends (λ _. P) Q (body i k))
      → (n i : ℕ) (k : Kernel M) → P k
      → Ends (λ _. P) Q (for_cmd body n i k)
  unfolding for_cmd
  for_cmd-Ends body keep zero i k h = h
  for_cmd-Ends body keep (suc n) i k h =
      bind (λ _. P) Q (λ _. P) (body i k) _ (keep i k h)
        (λ _ k' h'. for_cmd-Ends body keep n (i + 1) k' h')

-- ===== src/Kernel/Returns.antt =====
-- Commands that return: no panic, no wait and no switch.
use os_project03_thread.Common.{ℕ, zero, suc, ◌+◌, ◌≡◌, ◌≤◌, ◌<◌, refl, arith}
use mathlib.Core.Path.{subst}
use os_project03_thread.Kernel.State.{Kernel}
use os_project03_thread.Kernel.Run.{Run, ok, switched, spinning, panic, Cmd, and_then, for_cmd}

abbrev pub Returns : {M A : Type 0} → (A → Kernel M → Type 0) → Run M A → Type 0
Returns P (ok a k) = P a k
Returns P (switched k) = ⊥
Returns P spinning = ⊥
Returns P panic = ⊥

module _ {M A : Type 0} where
  pub bind-Returns :
      {B : Type 0} (P : A → Kernel M → Type 0) (R : B → Kernel M → Type 0) (r : Run M A)
      (f : A → Cmd M B)
      → Returns P r
      → ((a : A) (k : Kernel M) → P a k → Returns R (f a k))
      → Returns R (and_then r f)
  bind-Returns P R (ok a k) f h next = next a k h
  bind-Returns P R (switched k) f h next = absurd h
  bind-Returns P R spinning f h next = absurd h
  bind-Returns P R panic f h next = absurd h

  pub returned :
      (P : A → Kernel M → Type 0) (r : Run M A)
      → Returns P r
      → (a : A) × (k : Kernel M) × (r ≡ ok a k) × P a k
  returned P (ok a k) h = (a, k, refl, h)
  returned P (switched k) h = absurd h
  returned P spinning h = absurd h
  returned P panic h = absurd h

-- A loop whose rounds return, with an invariant of the round's number.
pub for_cmd-Returns :
    {M : Type 0} (P : ℕ → Kernel M → Type 0) (body : ℕ → Cmd M (Unit {0}))
    → ((i : ℕ) (k : Kernel M) → P i k → Returns (λ _. P (i + 1)) (body i k))
    → (n i : ℕ) (k : Kernel M) → P i k
    → Returns (λ _. P (i + n)) (for_cmd body n i k)
unfolding for_cmd
for_cmd-Returns P body keep zero i k h = subst (λ x. P x k) (omega arith) h
for_cmd-Returns P body keep (suc n) i k h =
    bind-Returns (λ _. P (i + 1)) (λ _. P (i + suc n)) (body i k) _ (keep i k h)
      (λ _ k' h'.
        subst (λ x. Returns (λ _. P x) (for_cmd body n (i + 1) k')) (omega arith)
          (for_cmd-Returns P body keep n (i + 1) k' h'))

-- The same for a loop whose rounds return below `top`.
pub for_cmd_below :
    {M : Type 0} (top : ℕ) (P : ℕ → Kernel M → Type 0) (body : ℕ → Cmd M (Unit {0}))
    → ((i : ℕ) (k : Kernel M) → i < top → P i k → Returns (λ _. P (i + 1)) (body i k))
    → (n i : ℕ) (k : Kernel M) → i + n ≤ top
    → P i k
    → Returns (λ _. P (i + n)) (for_cmd body n i k)
unfolding for_cmd
for_cmd_below top P body keep zero i k low h = subst (λ x. P x k) (omega arith) h
for_cmd_below top P body keep (suc n) i k low h =
    bind-Returns (λ _. P (i + 1)) (λ _. P (i + suc n)) (body i k) _ (keep i k (omega arith) h)
      (λ _ k' h'.
        subst (λ x. Returns (λ _. P x) (for_cmd body n (i + 1) k')) (omega arith)
          (for_cmd_below top P body keep n (i + 1) k' (omega arith) h'))

-- Facts about each index, put together.
pub each-Returns :
    {M A J : Type 0} (P : J → A → Kernel M → Type 0) (r : Run M A)
    → J
    → ((j : J) → Returns (P j) r)
    → Returns (λ a k. (j : J) → P j a k) r
each-Returns P (ok a k) j₀ h = h
each-Returns P (switched k) j₀ h = h j₀
each-Returns P spinning j₀ h = h j₀
each-Returns P panic j₀ h = h j₀

pub weaken-Returns :
    {M A : Type 0} (P R : A → Kernel M → Type 0) (r : Run M A)
    → ((a : A) (k : Kernel M) → P a k → R a k)
    → Returns P r
    → Returns R r
weaken-Returns P R (ok a k) f h = f a k h
weaken-Returns P R (switched k) f h = h
weaken-Returns P R spinning f h = h
weaken-Returns P R panic f h = h

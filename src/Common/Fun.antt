-- ===== src/Common/Fun.antt =====
-- Arrays and memories as functions of an address, changed at one place.
use Prim.Native.Nat.{ℕ, ◌+◌}
use mathlib.Core.List.{List, [], ◌∷◌}
use mathlib.Core.Path.{◌≡◌}
use mathlib.Core.Logic.{◌≢◌}
use native.Mathlib.Omega.{arith}
use os_project03_thread.Common.Tests.{◌==◌, if◌then◌else◌}

module _ {ℓ} {A : Type ℓ} where
  abbrev pub update : (ℕ → A) → ℕ → A → ℕ → A
  update f p v a = if a == p then v else f a

  pub update_same : (f : ℕ → A) (p : ℕ) (v : A) → update f p v p ≡ v
  update_same f p v = ground arith

  pub update_other : (f : ℕ → A) (p a : ℕ) (v : A) → a ≢ p → update f p v a ≡ f a
  update_other f p a v h = ground arith

-- `length` over the native numbers.
unfoldable pub length {ℓ} : {A : Type ℓ} → List A → ℕ
length [] = 0
length (x ∷ xs) = 1 + length xs

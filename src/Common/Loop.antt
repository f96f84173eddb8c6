-- ===== src/Common/Loop.antt =====
-- The counted loops of the C code, as recursion on the rounds that are left.
use Prim.Native.Nat.{ℕ, zero, suc, ◌+◌, ◌≤◌, ◌<◌}
use mathlib.Core.Path.{◌≡◌}
use mathlib.Core.Logic.{inl, inr}
use mathlib.Core.Bool.{Bool, true, false, ◌&&◌}
use mathlib.Core.Option.{Option, none, some}
use native.Mathlib.Omega.{arith}
use os_project03_thread.Common.Tests.{◌==◌, ltb, leb, if◌then◌else◌, Bool-cases}
use os_project03_thread.Common.Fun.{update}

-- `for (i = from; i < from + n; i++) if (test(i)) break;`: the `i` of the break.
unfoldable pub find_from : (ℕ → Bool) → ℕ → ℕ → Option ℕ
find_from test zero i = none
find_from test (suc n) i = let rest = find_from test n (i + 1) in if test i then some i else rest

-- What the search returns lies in the range, passes the test, and is the first that does.
pub find_from-some :
    (test : ℕ → Bool) (n i r : ℕ)
    → find_from test n i ≡ some r
    → (i ≤ r) × (r < i + n) × (test r ≡ true)
unfolding find_from
find_from-some test zero i r h = ground arith
find_from-some test (suc n) i r h = elim (Bool-cases (test i)) [
  | inl e ↦ ground arith
  | inr e ↦ ground (arith, find_from-some test n (i + 1) r)
]

pub find_from_first :
    (test : ℕ → Bool) (n i r j : ℕ) → find_from test n i ≡ some r → i ≤ j → j < r → test j ≡ false
unfolding find_from
find_from_first test zero i r j h a b = ground arith
find_from_first test (suc n) i r j h a b = elim (Bool-cases (test i)) [
  | inl e ↦ ground arith
  | inr e ↦ elim (Bool-cases (i == j)) [
    | inl q ↦ ground arith
    | inr q ↦ ground (arith, find_from_first test n (i + 1) r j)
  ]
]

pub find_from-none :
    (test : ℕ → Bool) (n i j : ℕ) → find_from test n i ≡ none → i ≤ j → j < i + n → test j ≡ false
unfolding find_from
find_from-none test zero i j h a b = absurd (omega arith)
find_from-none test (suc n) i j h a b = elim (Bool-cases (test i)) [
  | inl e ↦ ground arith
  | inr e ↦ elim (Bool-cases (i == j)) [
    | inl q ↦ ground arith
    | inr q ↦ ground (arith, find_from-none test n (i + 1) j)
  ]
]

-- A search that some index of the range satisfies succeeds.
pub find_from_total :
    (test : ℕ → Bool) (n i j : ℕ)
    → i ≤ j
    → j < i + n
    → test j ≡ true
    → (r : ℕ) × (find_from test n i ≡ some r)
unfolding find_from
find_from_total test zero i j a b h = absurd (omega arith)
find_from_total test (suc n) i j a b h = elim (Bool-cases (test i)) [
  | inl e ↦ (i, ground arith)
  | inr e ↦
      let rest = find_from_total test n (i + 1) j (ground arith) (ground arith) h in
      (rest.0, ground arith)
]

-- `for (i = from; i < from + n; i++) body(i);`
unfoldable pub for_range {ℓ} : {S : Type ℓ} → (ℕ → S → S) → ℕ → ℕ → S → S
for_range body zero i s = s
for_range body (suc n) i s = for_range body n (i + 1) (body i s)

-- What every round keeps holds at the end.
pub for_range_inv {ℓ κ} :
    {S : Type ℓ} (P : S → Type κ) (body : ℕ → S → S) (n i : ℕ) (s : S)
    → ((j : ℕ) (t : S) → P t → P (body j t))
    → P s
    → P (for_range body n i s)
unfolding for_range
for_range_inv P body zero i s keep h = h
for_range_inv P body (suc n) i s keep h =
    for_range_inv P body n (i + 1) (body i s) keep (keep i s h)

module _ {ℓ} {A : Type ℓ} where
  -- A loop that changes each entry of a range by a function of that entry.
  unfoldable pub sweep : (A → A) → ℕ → ℕ → (ℕ → A) → ℕ → A
  sweep f zero i t = t
  sweep f (suc n) i t = sweep f n (i + 1) (update t i (f (t i)))

  pub sweep_lem :
      (f : A → A) (n i : ℕ) (t : ℕ → A) (j : ℕ)
      → sweep f n i t j ≡ (if leb i j && ltb j (i + n) then f (t j) else t j)
  unfolding sweep
  sweep_lem f zero i t j = ground arith
  sweep_lem f (suc n) i t j = ground (arith, sweep_lem f n (i + 1) (update t i (f (t i))) j)

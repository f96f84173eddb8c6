-- ===== src/Ulib/Lines.antt =====
-- gets: what it takes of the input.
use os_project03_thread.Common.{
  ℕ, zero, suc, ◌-◌, ◌≤◌, ◌≡◌, refl, inl, inr, arith, List, [], ◌∷◌, ◌++◌, ◌==◌, ◌||◌, length, ap,
  Bool-cases,
}
use os_project03_thread.Ulib.{gets, gets_loop}

gets_loop_lem :
    (n : ℕ) (input : List ℕ)
    → ((gets_loop n input).0 ++ (gets_loop n input).1 ≡ input) × (length (gets_loop n input).0 ≤ n)
unfolding gets_loop length
gets_loop_lem zero input = (refl, omega arith)
gets_loop_lem (suc n) [] = (refl, omega arith)
gets_loop_lem (suc n) (c ∷ input) = elim (Bool-cases ((c == 10) || (c == 13))) [
  | inl e ↦ (rw e refl, rw e (omega arith))
  | inr e ↦
      let (same, small) = gets_loop_lem n input in (rw e (ap (λ s. c ∷ s) same), rw e (omega arith))
]

-- `gets` takes characters from the start of the input, at most `max - 1` of them.
pub gets_lem :
    (max : ℕ) (input : List ℕ)
    → ((gets max input).0 ++ (gets max input).1 ≡ input) × (length (gets max input).0 ≤ max - 1)
unfolding gets
gets_lem max input = gets_loop_lem (max - 1) input

-- ===== src/Strings/Lengths.antt =====
-- strlen: the index of the first NUL.
use os_project03_thread.Common.{
  ℕ, ◌<◌, ◌≡◌, ◌≢◌, inl, inr, arith, some, sym, ◌≤◌, Bool, ltb, ltb→lt, ◌==◌, Bool-cases,
  find_from-some, find_from_first, find_from_total,
}
use os_project03_thread.Strings.{strlen}

-- `strlen` of a string returns its length, with any fuel above that.
pub strlen_lem :
    (s : ℕ → ℕ) (n fuel : ℕ)
    → n < fuel
    → s n ≡ 0
    → ((j : ℕ) → j < n → s j ≢ 0)
    → strlen fuel s ≡ some n
unfolding strlen
strlen_lem s n fuel enough nul before =
    let test : ℕ → Bool = λ i. s i == 0 in
    let (r, found) = find_from_total test fuel 0 n (omega arith) (omega arith) (ground arith) in
    let there : s r ≡ 0 = ground (arith, find_from-some test fuel 0 r found) in
    let high : n ≤ r = elim (Bool-cases (ltb r n)) [
      | inl e ↦ absurd (before r (ltb→lt r n e) there)
      | inr e ↦ ground arith
    ] in
    let low : r ≤ n = elim (Bool-cases (ltb n r)) [
      | inl e ↦
          let first = find_from_first test fuel 0 r n found (omega arith) (ltb→lt n r e) in
          absurd (ground arith)
      | inr e ↦ ground arith
    ] in
    let same : r ≡ n = omega arith in rw (sym same) found

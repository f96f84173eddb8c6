-- ===== src/Ulib/Numbers.antt =====
-- A number that printint prints is what atoi reads.
use os_project03_thread.Common.{
  ℕ, zero, suc, ◌+◌, ◌-◌, ◌*◌, ◌/◌, ◌%◌, ◌^◌, ◌<◌, ◌≡◌, refl, inl, inr, arith, Bool, true, false,
  List, [], ◌∷◌, ◌==◌, leb, ◌∙◌, ap, Bool-cases, ◌&&◌,
}
use os_project03_thread.Ulib.{is_digit, digit, atoi, atoi_loop, digits_loop, printint}

-- A digit is read on top of the number so far.
digit_read :
    (n d : ℕ) (s : List ℕ)
    → d < 10
    → n * 10 + d < 2 ^ 32
    → atoi_loop n (digit d ∷ s) ≡ atoi_loop (n * 10 + d) s
unfolding atoi_loop
digit_read n d s small fits =
    let same : digit d ≡ d + 48 = ground arith in
    let is : is_digit (d + 48) ≡ true = ground arith in
    let value : (n * 10 + (d + 48) - 48) % 2 ^ 32 ≡ n * 10 + d = omega arith in
    rw (same, is, value) refl

-- What the digits of `x` do before the rest of the string.
digits_read :
    (fuel x : ℕ) (s : List ℕ)
    → x < fuel
    → x < 2 ^ 32
    → atoi_loop 0 (digits_loop fuel 10 x s) ≡ atoi_loop x s
unfolding digits_loop
digits_read zero x s a b = absurd (omega arith)
digits_read (suc n) x s a b = elim (Bool-cases (x / 10 == 0)) [
  | inl e ↦
      let same : 0 * 10 + x % 10 ≡ x = ground arith in
      rw e (digit_read 0 (x % 10) s (omega arith) (omega arith) ∙ ap (λ m. atoi_loop m s) same)
  | inr e ↦
      let same : x / 10 * 10 + x % 10 ≡ x = omega arith in
      rw e (
        digits_read n (x / 10) (digit (x % 10) ∷ s) (ground arith) (omega arith)
        ∙ digit_read (x / 10) (x % 10) s (omega arith) (omega arith)
        ∙ ap (λ m. atoi_loop m s) same)
]

-- `atoi` of what `printint` prints in decimal, signed or not, is the number, if it is not negative as a
-- signed number.
pub atoi-printint : (xx : ℕ) (sgn : Bool) → xx < 2 ^ 31 → atoi (printint xx 10 sgn) ≡ xx
unfolding atoi printint atoi_loop
atoi-printint xx sgn h =
    let small : leb (2 ^ 31) xx ≡ false = ground arith in
    let plain : (sgn && leb (2 ^ 31) xx) ≡ false = ground arith in
    rw plain (digits_read (xx + 1) xx [] (omega arith) (omega arith))

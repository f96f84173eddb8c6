-- ===== src/Ulib.antt =====
-- ulib.c and printf.c: strchr, gets, atoi and printint. A string is the list of its characters before
-- the NUL.
pub mod Numbers
pub mod Lines
use os_project03_thread.Common.{
  ℕ, zero, suc, ◌+◌, ◌-◌, ◌*◌, ◌/◌, ◌%◌, ◌^◌, Bool, true, false, ◌&&◌, ◌||◌, Option, none, some,
  List, [], ◌∷◌, ◌==◌, ltb, leb, if◌then◌else◌,
}

-- The index of the character in the string; `none` is 0.
unfoldable pub strchr : List ℕ → ℕ → ℕ → Option ℕ
strchr [] c i = none
strchr (x ∷ s) c i = let rest = strchr s c (i + 1) in if x == c then some i else rest

-- The loop of `gets`: what it stores and what is left of the input, with room for so many characters.
unfoldable pub gets_loop : ℕ → List ℕ → List ℕ × List ℕ
gets_loop zero input = ([], input)
gets_loop (suc n) [] = ([], [])
gets_loop (suc n) (c ∷ input) =
    let rest = gets_loop n input in
    if (c == 10) || (c == 13) then (c ∷ [], input) else (c ∷ rest.0, rest.1)

unfoldable pub gets : ℕ → List ℕ → List ℕ × List ℕ
unfolding gets_loop
gets max input = gets_loop (max - 1) input

abbrev pub is_digit : ℕ → Bool
is_digit c = leb 48 c && leb c 57

-- The loop of `atoi` from the number `n` on, as the machine adds.
unfoldable pub atoi_loop : ℕ → List ℕ → ℕ
atoi_loop n [] = n
atoi_loop n (c ∷ s) =
    let rest = atoi_loop ((n * 10 + c - 48) % 2 ^ 32) s in if is_digit c then rest else n

unfoldable pub atoi : List ℕ → ℕ
unfolding atoi_loop
atoi s = atoi_loop 0 s

-- The entry of `digits`
abbrev pub digit : ℕ → ℕ
digit d = if ltb d 10 then d + 48 else d + 55

-- The loop of `printint` that fills `buf`; the last character put there is the first of the list. The
-- number is divided in each round, so that more rounds than the number are enough.
unfoldable pub digits_loop : ℕ → ℕ → ℕ → List ℕ → List ℕ
digits_loop zero base x buf = buf
digits_loop (suc n) base x buf =
    let buf' = digit (x % base) ∷ buf in
    let rest = digits_loop n base (x / base) buf' in if x / base == 0 then buf' else rest

-- The characters that `printint` puts.
unfoldable pub printint : ℕ → ℕ → Bool → List ℕ
unfolding digits_loop
printint xx base sgn =
    let neg = sgn && leb (2 ^ 31) xx in
    let x = (if neg then 2 ^ 32 - xx else xx) in
    let buf = digits_loop (x + 1) base x [] in if neg then 45 ∷ buf else buf

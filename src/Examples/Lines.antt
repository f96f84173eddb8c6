-- ===== src/Examples/Lines.antt =====
-- Runs of the user library.
use os_project03_thread.Common.{◌≡◌, refl, arith, true, some, [], ◌∷◌}
use os_project03_thread.Ulib.{strchr, gets, gets_loop, atoi, printint, digits_loop}
use os_project03_thread.Ulib.Numbers.{atoi-printint}

number_printed : printint 1203 10 true ≡ 49 ∷ 50 ∷ 48 ∷ 51 ∷ []
unfolding printint digits_loop
number_printed = refl

line_taken : gets 10 (104 ∷ 105 ∷ 10 ∷ 106 ∷ []) ≡ (104 ∷ 105 ∷ 10 ∷ [], 106 ∷ [])
unfolding gets gets_loop
line_taken = refl

room_taken : gets 3 (104 ∷ 105 ∷ 10 ∷ 106 ∷ []) ≡ (104 ∷ 105 ∷ [], 10 ∷ 106 ∷ [])
unfolding gets gets_loop
room_taken = refl

character_found : strchr (104 ∷ 105 ∷ []) 105 0 ≡ some 1
unfolding strchr
character_found = refl

atoi-printint_example : atoi (printint 1203 10 true) ≡ 1203
atoi-printint_example = atoi-printint 1203 true (omega arith)

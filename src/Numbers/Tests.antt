-- ===== src/Numbers/Tests.antt =====
-- Examples for StringToInt: the largest `int`, and the smallest one.
use unix_thread_ipc.Prelude.{ℕ, ◌≡◌, refl, none, some, List, [], ◌∷◌}
use unix_thread_ipc.Prelude.Int.{negsuc}
use unix_thread_ipc.Numbers.{string_to_int, accumulate}
use unix_thread_ipc.Numbers.Parsing.{string_to_int_lem}

-- 2147483648
abbrev limit : List ℕ
limit = 49 ∷ 52 ∷ 55 ∷ 52 ∷ 56 ∷ 51 ∷ 54 ∷ 52 ∷ 56 ∷ []

string_to_int_lem_example :
    (string_to_int (50 ∷ limit) ≡ none)
    × (string_to_int (45 ∷ 50 ∷ limit) ≡ some (negsuc 2147483647))
    × (string_to_int (43 ∷ 50 ∷ limit) ≡ none)
string_to_int_lem_example =
    string_to_int_lem 50 limit
      (refl, (refl, (refl, (refl, (refl, (refl, (refl, (refl, (refl, (refl, tt))))))))))

-- A character that is no digit.
not_digit_test : string_to_int (49 ∷ 97 ∷ []) ≡ none
unfolding string_to_int accumulate
not_digit_test = refl

-- ===== src/Search/Tests.antt =====
-- A search at a concrete input: "aab" in "aaaab".
use unix_thread_ipc.Prelude.{
  ℕ, ◌≡◌, refl, false, if◌then◌else◌, some, [], ◌∷◌, get_or, ◌+◌, ◌-◌, ltb,
}
use unix_thread_ipc.Search.{case_func, memmatch}
use unix_thread_ipc.Search.Positions.{search_from}
use unix_thread_ipc.Search.Naive.{memmatch-naive}

-- The haystack at 100, the needle behind it at 105.
abbrev text : ℕ → ℕ
text p = get_or (97 ∷ 97 ∷ 97 ∷ 97 ∷ 98 ∷ 65 ∷ 65 ∷ 66 ∷ []) (p - 100) 0

-- `std::tolower` of ASCII letters.
abbrev lower : ℕ → ℕ
lower c = if ltb 64 c then (if ltb c 91 then c + 32 else c) else c

text-memmatch : memmatch text lower 100 5 105 3 false ≡ some (some 102)
unfolding memmatch
text-memmatch = refl

memmatch-naive_example :
    memmatch text lower 100 5 105 3 false
    ≡ some (search_from text (case_func lower false) 105 3 3 100)
memmatch-naive_example = memmatch-naive text lower 100 5 105 3 false

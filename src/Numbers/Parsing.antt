-- ===== src/Numbers/Parsing.antt =====
-- `StringToInt` against the value of a decimal number.
use unix_thread_ipc.Prelude.{
  ℕ, ◌+◌, ◌-◌, ◌*◌, ◌≤◌, ◌≡◌, true, none, some, List, [], ◌∷◌, All, arith, leb, if◌then◌else◌,
}
use unix_thread_ipc.Prelude.Int.{pos}
use unix_thread_ipc.Numbers.{is_digit, accumulate, negated, string_to_int}

-- The value of the digits `cs` behind a number with value `n`.
abbrev pub value : ℕ → List ℕ → ℕ
value n [] = n
value n (c ∷ cs) = value (10 * n + (c - 48)) cs

value-le : (n : ℕ) (cs : List ℕ) → n ≤ value n cs
value-le n [] = omega arith
value-le n (c ∷ cs) = omega (arith, value-le (10 * n + (c - 48)) cs)

abbrev pub AreDigits : List ℕ → Type 0
AreDigits = All (λ c. is_digit c ≡ true)

accumulate_lem :
    (n : ℕ) (cs : List ℕ)
    → AreDigits cs
    → n ≤ 2147483648
    → accumulate n cs ≡ (if leb (value n cs) 2147483648 then some (value n cs) else none)
unfolding accumulate
accumulate_lem n [] digits h = ground arith
accumulate_lem n (c ∷ cs) (d, digits) h =
    ground (arith, accumulate_lem (10 * n + (c - 48)) cs digits, value-le (10 * n + (c - 48)) cs)

-- `StringToInt` of decimal digits, at least one, gives their value with a `-` or without, and
-- fails exactly if an `int` cannot hold it.
pub string_to_int_lem :
    (c : ℕ) (cs : List ℕ)
    → AreDigits (c ∷ cs)
    → let n = value 0 (c ∷ cs) in
      (string_to_int (c ∷ cs) ≡ (if leb n 2147483647 then some (pos n) else none))
      × (string_to_int (45 ∷ c ∷ cs) ≡ (if leb n 2147483648 then some (negated n) else none))
      × (string_to_int (43 ∷ c ∷ cs) ≡ (if leb n 2147483647 then some (pos n) else none))
unfolding string_to_int
string_to_int_lem c cs digits =
    let run = accumulate_lem 0 (c ∷ cs) digits (omega arith) in
    (ground (arith, run, digits.0), ground (arith, run), ground (arith, run))

-- ===== src/Numbers.antt =====
-- StringToInt of common/string_utils.cc.
--
-- A string is the list of its characters before the terminating zero. `total`, which the source
-- accumulates in the negative direction, is kept as its absolute value.
pub mod Parsing
mod Tests
use unix_thread_ipc.Prelude.{
  ℕ, zero, suc, ◌+◌, ◌-◌, ◌*◌, ◌%◌, ◌^◌, Bool, true, false, ◌&&◌, ◌||◌, Option, none, some, List,
  [], ◌∷◌, ltb, leb, ◌==◌, if◌then◌else◌,
}
use unix_thread_ipc.Prelude.Int.{ℤ, pos, negsuc, int32}

-- Whether a character is between '0' and '9'.
abbrev pub is_digit : ℕ → Bool
is_digit c = leb 48 c && leb c 57

-- The loop of `StringTToInt`: `none` where it returns false.
unfoldable pub accumulate : ℕ → List ℕ → Option ℕ
accumulate total [] = some total
accumulate total (c ∷ rest) =
    let later = accumulate (10 * total + (c - 48)) rest in
    if is_digit c
    then (if ltb 214748364 total || ((total == 214748364) && ltb 8 (c - 48)) then none else later)
    else none

-- `-total` and `total`
abbrev pub negated : ℕ → ℤ
negated zero = pos zero
negated (suc n) = negsuc n

-- The end of `StringTToInt`, with the sign and the result of the loop.
abbrev pub with_sign : Bool → Option ℕ → Option ℤ
with_sign minus none = none
with_sign true (some total) = some (negated total)
with_sign false (some total) = if total == 2147483648 then none else some (pos total)

-- The value, or `none` for a result of false.
unfoldable pub string_to_int : List ℕ → Option ℤ
unfolding accumulate
string_to_int [] = some (pos 0)
string_to_int (c ∷ rest) =
    let signed = accumulate 0 rest in
    let unsigned = accumulate 0 (c ∷ rest) in
    if c == 45
    then with_sign true signed
    else if c == 43
    then with_sign false signed
    else with_sign false unsigned

-- `number` at the end of the digits in ParseLeadingIntegerT.
unfoldable pub leading_number : ℕ → List ℕ → ℕ
leading_number number [] = number
leading_number number (c ∷ rest) =
    let later = leading_number (number * 10 + (c - 48)) rest in if is_digit c then later else number

-- ParseLeadingInteger: the number as an int, while it fits a long.
unfoldable pub parse_leading_integer : List ℕ → ℤ
unfolding leading_number
parse_leading_integer str = int32 (leading_number 0 str % 2 ^ 32)

-- ===== src/Search.antt =====
-- memmatch of common/string_utils.cc, which looks for the characters `needle` in `haystack`.
--
-- Memory is a function from addresses to characters, so that the two may overlap. `std::tolower` is
-- the parameter `to_lower`. NULL is `none`, and the loop, which moves `haystack` back, takes fuel.
pub mod Positions
pub mod Naive
mod Tests
use unix_thread_ipc.Prelude.{
  ℕ, zero, suc, ◌+◌, ◌-◌, Bool, true, false, not, Option, none, some, ltb, ◌==◌, if◌then◌else◌,
}

-- `CaseSensitiveFunctor` and `CaseInSensitiveFunctor`
abbrev pub case_func : (ℕ → ℕ) → Bool → ℕ → ℕ
case_func to_lower true c = c
case_func to_lower false c = to_lower c

-- Enough fuel for a haystack of `t` characters and a needle of `n`.
abbrev pub enough : ℕ → ℕ → ℕ
enough zero n = 1
enough (suc t) n = enough t n + (n + 1)

module _ (memory : ℕ → ℕ) (func : ℕ → ℕ) (hayend needlestart neelen : ℕ) where
  -- The loop: `none` if the fuel runs out, and else its result.
  unfoldable pub scan : ℕ → ℕ → ℕ → Option (Option ℕ)
  scan zero haystack needle = none
  scan (suc fuel) haystack needle =
      let matched = scan fuel (haystack + 1) (needle + 1) in
      let backed_up = scan fuel (haystack - (needle - needlestart) + 1) needlestart in
      let advanced = scan fuel (haystack + 1) needle in
      if ltb haystack hayend
      then if func (memory haystack) == func (memory needle)
        then if needle + 1 == needlestart + neelen
          then some (some (haystack + 1 - neelen))
          else matched
        else if not (needle == needlestart)
        then backed_up
        else advanced
      else some none

unfoldable pub memmatch :
    (memory to_lower : ℕ → ℕ) (haystack haylen needle neelen : ℕ) (case_sensitive : Bool)
    → Option (Option ℕ)
unfolding scan
memmatch memory to_lower haystack haylen needle neelen case_sensitive =
    if neelen == 0
    then some (some haystack)
    else if ltb haylen neelen
    then some none
    else if haystack == needle
    then some (some haystack)
    else scan memory (case_func to_lower case_sensitive) (haystack + haylen) needle neelen
        (enough haylen neelen) haystack needle

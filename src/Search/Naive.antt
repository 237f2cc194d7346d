-- ===== src/Search/Naive.antt =====
-- `memmatch` against the search that tries one position after the other.
use mathlib.Core.Path.{subst}
use unix_thread_ipc.Prelude.{
  ℕ, ◌+◌, ◌-◌, ◌≡◌, sym, ap, ◌∙◌, Bool, true, false, some, arith, ltb, ◌==◌, ==_of_eq, ==_of_ne,
  ℕ_discrete, dec_lt,
}
use unix_thread_ipc.Search.{case_func, memmatch}
use unix_thread_ipc.Search.Positions.{
  matches, search_from, matches-none, matches_self, search_from-none, search_from-hit, scan-start,
}

-- `memmatch` returns the first address in the haystack where the characters of the needle are, and
-- NULL if there is none, as the search of every position in turn does; its loop ends. An empty needle
-- is found at the start.
pub memmatch-naive :
    (memory to_lower : ℕ → ℕ) (haystack haylen needle neelen : ℕ) (case_sensitive : Bool)
    → memmatch memory to_lower haystack haylen needle neelen case_sensitive
      ≡ some (
          search_from memory
            (case_func to_lower case_sensitive)
            needle
            neelen
            (haylen + 1 - neelen)
            haystack)
unfolding memmatch
memmatch-naive memory to_lower haystack haylen needle neelen case_sensitive =
    let func = case_func to_lower case_sensitive in
    elim (ℕ_discrete neelen 0) [
      | yes e ↦
          let no_needle : (neelen == 0) ≡ true = ==_of_eq neelen 0 e in
          let all : matches memory func haystack needle neelen ≡ true =
            subst (λ i. matches memory func haystack needle i ≡ true) (sym e)
              (matches-none memory func haystack needle) in
          rw (no_needle) (
            ap some (
              sym (
                search_from-hit memory func needle neelen (haylen + 1 - neelen) haystack all
                  (omega arith))))
      | no some_needle ↦ elim (dec_lt haylen neelen) [
        | yes long ↦
            let too_long : ltb haylen neelen ≡ true = ground arith in
            let no_place : haylen + 1 - neelen ≡ 0 = omega arith in
            rw (==_of_ne neelen 0 some_needle, too_long)
              (ap some (
                sym (
                  ap (λ i. search_from memory func needle neelen i haystack) no_place
                  ∙ search_from-none memory func needle neelen haystack)))
        | no fits ↦
            let fitting : ltb haylen neelen ≡ false = ground arith in
            elim (ℕ_discrete haystack needle) [
              | yes e ↦
                  let all : matches memory func haystack needle neelen ≡ true =
                    subst (λ q. matches memory func haystack q neelen ≡ true) e
                      (matches_self memory func haystack neelen) in
                  rw (==_of_ne neelen 0 some_needle, fitting, ==_of_eq haystack needle e)
                    (ap some (
                      sym (
                        search_from-hit memory func needle neelen (haylen + 1 - neelen) haystack all
                          (omega arith))))
              | no ne ↦
                  rw (==_of_ne neelen 0 some_needle, fitting, ==_of_ne haystack needle ne)
                    (scan-start memory func haystack haylen needle neelen (omega arith))
            ]
      ]
    ]

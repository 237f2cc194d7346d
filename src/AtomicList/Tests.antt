-- ===== src/AtomicList/Tests.antt =====
-- Examples for the list: threads 1 and 2 put 7 and 8 at the same time, and thread 1 dismisses node 0.
use unix_thread_ipc.Prelude.{◌+◌, ◌*◌, ◌≡◌, refl, List, [], ◌∷◌, length, arith}
use unix_thread_ipc.Registry.Cells.{count}
use unix_thread_ipc.AtomicList.{new_list, idle, Move, put, dismiss, go_on, run}
use unix_thread_ipc.AtomicList.Invariant.{run-kept}
use unix_thread_ipc.AtomicList.Progress.{alone, put_returns}

abbrev moves : List Move
moves =
    put 1 7 ∷ put 2 8 ∷ go_on 1 ∷ go_on 2 ∷ go_on 1 ∷ go_on 2 ∷ go_on 2 ∷ dismiss 1 0 ∷ go_on 1 ∷ []

-- The value is still there.
dismissed_test : (run new_list moves).values ≡ 7 ∷ 8 ∷ []
unfolding run
dismissed_test = refl

run-kept_example : count 7 (run new_list moves).values ≡ count 7 (run new_list moves).stored
run-kept_example = run-kept moves 7 (λ e. absurd (omega (arith, e)))

-- Thread 2 has read a head that is no longer the head.
abbrev behind : List Move
behind = put 1 7 ∷ put 2 8 ∷ go_on 2 ∷ go_on 1 ∷ go_on 1 ∷ []

put_returns_example :
    let s = run new_list behind in
    let s' = alone s 2 (2 * length s.values + 3) in (s'.pc 2 ≡ idle) × (s'.stored ≡ 8 ∷ s.stored)
unfolding run
put_returns_example = put_returns behind 2 8 refl

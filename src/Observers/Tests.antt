-- ===== src/Observers/Tests.antt =====
-- Examples for the observers: observer 9 on thread 1 for topic 4.
use unix_thread_ipc.Prelude.{◌≡◌, [], ◌∷◌, some}
use unix_thread_ipc.Observers.{Service, new_service}
use unix_thread_ipc.Observers.Registration.{is_observing}
use unix_thread_ipc.Observers.Operations.{add, remove, apply, apply_all, apply_all-IsTidy}
use unix_thread_ipc.Observers.Effects.{apply_lem}

abbrev observed : Service
observed = apply_all new_service (add 1 9 (some 4) ∷ add 2 9 (some 4) ∷ [])

apply_lem_example :
    is_observing (apply observed (remove 1 9 (some 4))) 4 2 9 ≡ is_observing observed 4 2 9
apply_lem_example =
    apply_lem observed (remove 1 9 (some 4)) 4 2 9
      (apply_all-IsTidy (add 1 9 (some 4) ∷ add 2 9 (some 4) ∷ []))

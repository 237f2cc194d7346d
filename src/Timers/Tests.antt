-- ===== src/Timers/Tests.antt =====
-- Two timers at concrete times: one repeats, and its callback creates a third.
use unix_thread_ipc.Prelude.{
  ℕ, ◌+◌, ◌*◌, ◌≤◌, ◌<◌, ◌≡◌, refl, Bool, true, false, none, some, List, [], ◌∷◌, ◌++◌, arith, ◌==◌,
  if◌then◌else◌, All,
}
use unix_thread_ipc.Prelude.Int.{pos}
use unix_thread_ipc.Prelude.Map
use unix_thread_ipc.Prelude.Map.{Map}
use unix_thread_ipc.Timers.{
  Timer, Op, create, destroy, Timers, no_timers, deadline_of, set_insert, set_erase, construct,
  reschedule, run_due, run_callbacks,
}
use unix_thread_ipc.Timers.Kept.{IsValid}
use unix_thread_ipc.Timers.Upkeep.{
  IsAllocator, IsArmed, Reach, start, constructed, called_back, upkeep,
}
use unix_thread_ipc.Timers.Follows.{IsCreate}
use unix_thread_ipc.Timers.Firing.{due, run_callbacks-due}
use unix_thread_ipc.Timers.Destroyed.{destroyed-access}

-- An address behind all others.
abbrev next_address : Map Timer → ℕ
next_address [] = 1
next_address ((p, t) ∷ heap) = next_address heap + p

next_address-new : (p : ℕ) (heap : Map Timer) → next_address heap ≤ p → Map.lookup p heap ≡ none
unfolding Map.lookup
next_address-new p [] h = refl
next_address-new p ((q, t) ∷ heap) h =
    ground (arith, next_address-new p heap, next_address-positive heap)
  where
    next_address-positive : (m : Map Timer) → 0 < next_address m
    next_address-positive [] = omega arith
    next_address-positive ((k, u) ∷ m) = omega (arith, next_address-positive m)

next_address-IsAllocator : IsAllocator next_address
next_address-IsAllocator heap = next_address-new (next_address heap) heap (omega arith)

-- Each reading is 10 milliseconds after the one before.
abbrev ticking : ℕ → ℕ
ticking n = 100 + 10 * n

abbrev creating : ℕ → Timers → List Op
creating p s = if p == 1 then create (pos 0) false ∷ [] else []

creating-IsCreate : (p : ℕ) (t : Timers) → All IsCreate (creating p t)
creating-IsCreate p t = pick (p == 1)
  where
    pick : (b : Bool) → All IsCreate (if b then create (pos 0) false ∷ [] else [])
    pick true = (tt, tt)
    pick false = tt

-- Timer 1 repeats every 5 milliseconds, timer 2 is due 3 milliseconds after it is made.
abbrev two_made : (ℕ → Timers → List Op) → Timers
two_made callback =
    construct ticking next_address callback (pos 3) false
      (construct ticking next_address callback (pos 5) true no_timers)

two_made-Reach :
    (callback : ℕ → Timers → List Op) → Reach ticking next_address callback (two_made callback)
two_made-Reach callback = constructed (pos 3) false (constructed (pos 5) true start)

-- The pass fires both and leaves timer 1 and the new one.
abbrev passed : Timers
passed = record {
  heap =
      (1, record { delay = pos 5; repeat = true; deadline = 155 })
      ∷ (2, record { delay = pos 3; repeat = false; deadline = 123 })
      ∷ (4, record { delay = pos 0; repeat = false; deadline = 170 })
      ∷ [];
  queue = 1 ∷ 4 ∷ [];
  timeout = some 10;
  reads = 10;
  fired = 1 ∷ 2 ∷ [];
}

two_made-passed : run_callbacks ticking next_address creating (two_made creating) ≡ some passed
unfolding run_callbacks run_due reschedule construct set_insert set_erase Map.insert Map.lookup
two_made-passed = refl

upkeep_example : IsValid passed × IsArmed ticking passed
upkeep_example =
    upkeep ticking next_address creating passed next_address-IsAllocator
      (called_back two_made-passed (two_made-Reach creating))

two_made-IsValid : (callback : ℕ → Timers → List Op) → IsValid (two_made callback)
two_made-IsValid callback =
    (upkeep ticking next_address callback (two_made callback) next_address-IsAllocator
      (two_made-Reach callback)).0

run_callbacks-due_example :
    (s' : Timers) × ((run_callbacks ticking next_address creating (two_made creating) ≡ some s')
      × (s'.fired
          ≡ (two_made creating).fired
            ++ due
                (ticking (two_made creating).reads)
                (deadline_of (two_made creating).heap)
                (two_made creating).queue))
run_callbacks-due_example =
    run_callbacks-due ticking next_address creating (two_made creating) next_address-IsAllocator
      creating-IsCreate (two_made-IsValid creating)

-- The callback of timer 1 destroys timer 2.
abbrev destroying : ℕ → Timers → List Op
destroying p s = if p == 1 then destroy 2 ∷ [] else []

destroyed-access_example :
    run_callbacks ticking next_address destroying (two_made destroying) ≡ none
unfolding construct set_insert Map.insert Map.lookup
destroyed-access_example =
    destroyed-access ticking next_address destroying 1 2 [] (two_made destroying)
      (two_made-IsValid destroying) refl refl (λ t. refl)

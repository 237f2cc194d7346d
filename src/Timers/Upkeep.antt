-- ===== src/Timers/Upkeep.antt =====
-- The timers and the platform timer over the life of a thread.
use mathlib.Core.Path.{subst}
use unix_thread_ipc.Prelude.{
  ℕ, suc, ◌-◌, ◌≡◌, ◌≢◌, refl, sym, ap, ◌∙◌, Bool, true, false, Option, none, some, List, [], ◌∷◌,
  ◌++◌, All, arith, leb, if◌then◌else◌,
}
use unix_thread_ipc.Prelude.Int.{ℤ}
use unix_thread_ipc.Prelude.Map
use unix_thread_ipc.Prelude.Map.{Map, lookup-insert, lookup-erase}
use unix_thread_ipc.Timers.{
  Timer, Op, create, destroy, Timers, no_timers, deadline_or, deadline_of, set_erase, set_next_fire,
  rearm_for, rearm_timer, construct, cancel, destruct, perform, reschedule, call, run_due, rearmed,
  run_callbacks,
}
use unix_thread_ipc.Timers.Order.{set_erase-gone}
use unix_thread_ipc.Timers.Kept.{
  IsLive, IsKept, IsValid, enter-IsKept, erase-IsKept, leave-IsKept, erase-elsewhere,
}

module _ (clock : ℕ → ℕ) where
  -- The platform timer has the timeout of the first timer at the last reading of the clock.
  abbrev armed_for : List ℕ → Timers → Option ℕ
  armed_for [] s = none
  armed_for (p ∷ rest) s = some (set_next_fire (deadline_of s.heap p - clock (s.reads - 1)))

  abbrev pub IsArmed : Timers → Type 0
  IsArmed s = s.timeout ≡ armed_for s.queue s

-- A pass of the callback that accesses no destroyed timer leaves such a state.
abbrev pub WhenSome : (Timers → Type 0) → Option Timers → Type 0
WhenSome P none = Unit
WhenSome P (some s) = P s

-- `operator new` gives an address that is not in use.
abbrev pub IsAllocator : (Map Timer → ℕ) → Type 0
IsAllocator allocate = (heap : Map Timer) → Map.lookup (allocate heap) heap ≡ none

pub live-other :
    (heap : Map Timer) (p : ℕ) (l : List ℕ)
    → Map.lookup p heap ≡ none
    → All (IsLive heap) l
    → All (λ y. y ≢ p) l
live-other heap p [] new live = tt
live-other heap p (x ∷ l) new (h, live) =
    ((λ e. h (ap (λ i. Map.lookup i heap) e ∙ new)), live-other heap p l new live)

module _ (clock : ℕ → ℕ) (allocate : Map Timer → ℕ) (callback : ℕ → Timers → List Op)
    (fresh : IsAllocator allocate) where
  rearm_for-IsValid :
      (l : List ℕ) (s : Timers) → IsValid s → IsValid (rearm_for clock allocate callback l s)
  rearm_for-IsValid [] s valid = valid
  rearm_for-IsValid (p ∷ rest) s valid = valid

  rearm_for-IsArmed :
      (l : List ℕ) (s : Timers)
      → s.queue ≡ l
      → IsArmed clock (rearm_for clock allocate callback l s)
  rearm_for-IsArmed [] s e = sym (ap (λ q. armed_for clock q (record s { timeout = none })) e)
  rearm_for-IsArmed (p ∷ rest) s e =
      let armed = rearm_for clock allocate callback (p ∷ rest) s in
      ap (λ i. some (set_next_fire (deadline_of s.heap p - clock i))) (omega arith)
      ∙ sym (ap (λ q. armed_for clock q armed) e)

  -- Both after an operation that ends by rearming the platform timer.
  abbrev IsUpkept : Timers → Type 0
  IsUpkept s = IsValid s × IsArmed clock s

  rearm_timer-IsUpkept : (s : Timers) → IsValid s → IsUpkept (rearm_timer clock allocate callback s)
  rearm_timer-IsUpkept s valid =
      (rearm_for-IsValid s.queue s valid, rearm_for-IsArmed s.queue s refl)

  construct-IsUpkept :
      (delay : ℤ) (repeat : Bool) (s : Timers)
      → IsValid s
      → IsUpkept (construct clock allocate callback delay repeat s)
  unfolding construct
  construct-IsUpkept delay repeat s valid = rearm_timer-IsUpkept _ (
      enter-IsKept (allocate s.heap) _ s.heap s.queue
        (live-other s.heap (allocate s.heap) s.queue (fresh s.heap) valid.1) valid)

  cancel-IsUpkept : (p : ℕ) (s : Timers) → IsValid s → IsUpkept (cancel clock allocate callback p s)
  unfolding cancel
  cancel-IsUpkept p s valid = rearm_timer-IsUpkept _ (erase-IsKept p s.heap s.queue valid)

  -- A rearmed platform timer, when a timer that is not in the set leaves the heap.
  leave-IsUpkept :
      (p : ℕ) (l : List ℕ) (s : Timers)
      → s.queue ≡ l
      → All (λ y. y ≢ p) l
      → IsKept (Map.erase p s.heap) s.queue
      → let armed = rearm_for clock allocate callback l s in
        IsUpkept (record armed { heap = Map.erase p armed.heap })
  leave-IsUpkept p [] s e other kept = (
    kept,
    sym (ap (λ q. armed_for clock q (record s { timeout = none; heap = Map.erase p s.heap })) e),
  )
  leave-IsUpkept p (x ∷ rest) s e other kept =
      let armed = rearm_for clock allocate callback (x ∷ rest) s in
      let (same, _) = erase-elsewhere p s.heap (x ∷ rest) other in
      (
        kept,
        ap (λ i. some (set_next_fire (deadline_of s.heap x - clock i))) (omega arith)
            ∙ ap (λ t. some (set_next_fire (deadline_or t - clock (suc s.reads - 1)))) same
            ∙ sym (ap (λ q. armed_for clock q (record armed { heap = Map.erase p armed.heap })) e),
      )

  destruct-IsUpkept :
      (p : ℕ) (s : Timers) → IsValid s → IsUpkept (destruct clock allocate callback p s)
  unfolding destruct cancel
  destruct-IsUpkept p s valid =
      let left = set_erase (deadline_of s.heap) p s.queue in
      leave-IsUpkept p left (record s { queue = left }) refl
        (set_erase-gone (deadline_of s.heap) p s.queue valid.0)
        (leave-IsKept p s.heap s.queue valid)

  either-IsValid : (c : Bool) (s t : Timers) → IsValid s → IsValid t → IsValid (if c then s else t)
  either-IsValid true s t first second = first
  either-IsValid false s t first second = second

  reschedule-IsValid :
      (p : ℕ) (t : Timer) (s : Timers)
      → All (λ y. y ≢ p) s.queue
      → IsValid s
      → IsValid (reschedule clock allocate callback p t s)
  unfolding reschedule
  reschedule-IsValid p t s other valid =
      either-IsValid t.repeat _ s
        (rearm_timer-IsUpkept _ (enter-IsKept p _ s.heap s.queue other valid)).0 valid

  perform-IsValid :
      (ops : List Op) (s : Timers) → IsValid s → IsValid (perform clock allocate callback ops s)
  perform-IsValid [] s valid = valid
  perform-IsValid (create delay repeat ∷ ops) s valid =
      perform-IsValid ops _ (construct-IsUpkept delay repeat s valid).0
  perform-IsValid (destroy p ∷ ops) s valid = perform-IsValid ops _ (destruct-IsUpkept p s valid).0

  -- A timer that is found, or none.
  found-WhenSome :
      (o : Option Timer) (f : Timer → Option Timers)
      → ((t : Timer) → WhenSome IsValid (f t))
      → WhenSome IsValid (elim o [ none ↦ none | some t ↦ f t ])
  found-WhenSome none f each = tt
  found-WhenSome (some t) f each = each t

  either-WhenSome :
      (c : Bool) (r s : Option Timers)
      → WhenSome IsValid r
      → WhenSome IsValid s
      → WhenSome IsValid (if c then r else s)
  either-WhenSome true r s first second = first
  either-WhenSome false r s first second = second

  call-IsValid : (p : ℕ) (s : Timers) → IsValid s → IsValid (call clock allocate callback p s)
  call-IsValid p s valid =
      let started = record s { fired = s.fired ++ (p ∷ []) } in
      perform-IsValid (callback p started) started valid

  run_due-IsValid :
      (now : ℕ) (l : List ℕ) (s : Timers)
      → IsValid s
      → WhenSome IsValid (run_due clock allocate callback now l s)
  unfolding run_due
  run_due-IsValid now [] s valid = valid
  run_due-IsValid now (p ∷ rest) s valid =
      let left = set_erase (deadline_of s.heap) p s.queue in
      let taken = record s { queue = left } in
      found-WhenSome (Map.lookup p s.heap) _ (λ t.
        either-WhenSome (leb t.deadline now) _ (some s)
          (run_due-IsValid now rest _ (
            call-IsValid p _ (
              reschedule-IsValid p t taken (set_erase-gone (deadline_of s.heap) p s.queue valid.0)
                (erase-IsKept p s.heap s.queue valid))))
          valid)

  rearmed-IsUpkept :
      (o : Option Timers)
      → WhenSome IsValid o
      → WhenSome IsUpkept (rearmed clock allocate callback o)
  rearmed-IsUpkept none valid = tt
  rearmed-IsUpkept (some s) valid = rearm_timer-IsUpkept s valid

  run_callbacks-IsUpkept :
      (s : Timers) → IsValid s → WhenSome IsUpkept (run_callbacks clock allocate callback s)
  unfolding run_callbacks
  run_callbacks-IsUpkept s valid =
      rearmed-IsUpkept _
        (run_due-IsValid (clock s.reads) s.queue (record s { reads = suc s.reads }) valid)

-- The life of the timers of a thread, step by step.
pub data Reach (clock : ℕ → ℕ) (allocate : Map Timer → ℕ) (callback : ℕ → Timers → List Op)
    : Timers → Type 0 where
  start : Reach clock allocate callback no_timers
  constructed :
      {s : Timers} (delay : ℤ) (repeat : Bool)
      → Reach clock allocate callback s
      → Reach clock allocate callback (construct clock allocate callback delay repeat s)
  destructed :
      {s : Timers} (p : ℕ)
      → Reach clock allocate callback s
      → Reach clock allocate callback (destruct clock allocate callback p s)
  called_back :
      {s s' : Timers}
      → run_callbacks clock allocate callback s ≡ some s'
      → Reach clock allocate callback s
      → Reach clock allocate callback s'

-- In every state that constructors, destructors and passes of the callback lead to, whatever the
-- callbacks of the timers do, the set is in strict order of deadline and address, has only timers
-- that exist, and the platform timer has the timeout of its first one, or none if it is empty.
pub upkeep :
    (clock : ℕ → ℕ) (allocate : Map Timer → ℕ) (callback : ℕ → Timers → List Op) (s : Timers)
    → IsAllocator allocate
    → Reach clock allocate callback s
    → IsValid s × IsArmed clock s
upkeep clock allocate callback s fresh start = ((tt, tt), refl)
upkeep clock allocate callback s fresh (constructed {s = t} delay repeat reach) =
    construct-IsUpkept clock allocate callback fresh delay repeat t
      (upkeep clock allocate callback t fresh reach).0
upkeep clock allocate callback s fresh (destructed {s = t} p reach) =
    destruct-IsUpkept clock allocate callback fresh p t
      (upkeep clock allocate callback t fresh reach).0
upkeep clock allocate callback s fresh (called_back {s = t} run reach) =
    subst (WhenSome (λ r. IsValid r × IsArmed clock r)) run (
      run_callbacks-IsUpkept clock allocate callback fresh t
        (upkeep clock allocate callback t fresh reach).0)

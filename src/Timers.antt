-- ===== src/Timers.antt =====
-- TimedCall and TimerSingleton of common/timed_call.cc, for one thread.
--
-- A timer is known by its address. The set of timers is the list of its addresses in their order,
-- which TimedCallPtrLessThan reads from the timers themselves. `clock` gives each reading of the
-- time in milliseconds, `allocate` the address of a new timer, and `callback` what the callback of a
-- timer does with timers. The platform timer is the one of Windows, by its timeout.
pub mod Order
pub mod Kept
pub mod Upkeep
pub mod Follows
pub mod Firing
pub mod Destroyed
mod Tests
use unix_thread_ipc.Prelude.{
  ℕ, zero, suc, ◌+◌, ◌-◌, ◌^◌, Bool, true, false, Option, none, some, List, [], ◌∷◌, ◌++◌, ltb, leb,
  ◌==◌, if◌then◌else◌,
}
use unix_thread_ipc.Prelude.Int.{ℤ, pos, negsuc}
use unix_thread_ipc.Prelude.Map
use unix_thread_ipc.Prelude.Map.{Map}

-- `TimedCall`
pub record Timer : Type 0 where
  pub delay : ℤ
  pub repeat : Bool
  pub deadline : ℕ

-- The time `delay` after `now`. A deadline is not before the time 0.
abbrev pub later_by : ℕ → ℤ → ℕ
later_by now (pos d) = now + d
later_by now (negsuc d) = now - suc d

-- What a callback can do with timers.
pub data Op : Type 0 where
  create : (delay : ℤ) (repeat : Bool) → Op
  destroy : ℕ → Op

pub record Timers : Type 0 where
  pub heap : Map Timer  -- the timers that exist
  pub queue : List ℕ  -- `timer_queue_`
  pub timeout : Option ℕ  -- of `platform_timer_`
  pub reads : ℕ  -- of the clock
  pub fired : List ℕ  -- the timers whose callback has been called

-- The constructor of `TimerSingleton`
abbrev pub no_timers : Timers
no_timers = record { heap = []; queue = []; timeout = none; reads = 0; fired = [] }

abbrev pub deadline_or : Option Timer → ℕ
deadline_or none = 0
deadline_or (some t) = t.deadline

-- `deadline()` of the timer at an address.
abbrev pub deadline_of : Map Timer → ℕ → ℕ
deadline_of heap p = deadline_or (Map.lookup p heap)

-- `TimedCallPtrLessThan`
abbrev pub less : (ℕ → ℕ) → ℕ → ℕ → Bool
less key a b = if key a == key b then ltb a b else ltb (key a) (key b)

-- `insert` and `erase` of the set.
unfoldable pub set_insert : (ℕ → ℕ) → ℕ → List ℕ → List ℕ
set_insert key p [] = p ∷ []
set_insert key p (x ∷ rest) =
    let later = x ∷ set_insert key p rest in
    if less key x p then later else if less key p x then p ∷ x ∷ rest else x ∷ rest

unfoldable pub set_erase : (ℕ → ℕ) → ℕ → List ℕ → List ℕ
set_erase key p [] = []
set_erase key p (x ∷ rest) =
    let later = x ∷ set_erase key p rest in
    if less key x p then later else if less key p x then x ∷ rest else rest

-- `PlatformTimer::SetNextFire`
abbrev pub set_next_fire : ℕ → ℕ
set_next_fire timeout =
    let bounded = if ltb (2 ^ 31 - 1) timeout then 2 ^ 31 - 1 else timeout in
    if ltb bounded 10 then 10 else bounded

module _ (clock : ℕ → ℕ) (allocate : Map Timer → ℕ) (callback : ℕ → Timers → List Op) where
  -- `next_fire` is 0 for a deadline that has passed.
  abbrev pub rearm_for : List ℕ → Timers → Timers
  rearm_for [] s = record s { timeout = none }
  rearm_for (p ∷ rest) s = record s {
    timeout = some (set_next_fire (deadline_of s.heap p - clock s.reads));
    reads = suc s.reads;
  }

  abbrev pub rearm_timer : Timers → Timers
  rearm_timer s = rearm_for s.queue s

  abbrev pub insert : ℕ → Timers → Timers
  insert p s = rearm_timer (record s { queue = set_insert (deadline_of s.heap) p s.queue })

  abbrev pub erase : ℕ → Timers → Timers
  erase p s = rearm_timer (record s { queue = set_erase (deadline_of s.heap) p s.queue })

  -- The constructor and the destructor of `TimedCall`, and `Cancel`.
  unfoldable pub construct : (delay : ℤ) (repeat : Bool) → Timers → Timers
  unfolding set_insert Map.insert
  construct delay repeat s =
      let p = allocate s.heap in
      let timer : Timer = record {
        delay = delay;
        repeat = repeat;
        deadline = later_by (clock s.reads) delay;
      } in
      insert p (record s { heap = Map.insert p timer s.heap; reads = suc s.reads })

  unfoldable pub cancel : ℕ → Timers → Timers
  unfolding set_erase
  cancel p s = erase p s

  unfoldable pub destruct : ℕ → Timers → Timers
  unfolding cancel Map.erase
  destruct p s =
      let cancelled = cancel p s in record cancelled { heap = Map.erase p cancelled.heap }

  abbrev pub perform : List Op → Timers → Timers
  perform [] s = s
  perform (create delay repeat ∷ rest) s = perform rest (construct delay repeat s)
  perform (destroy p ∷ rest) s = perform rest (destruct p s)

  -- The first part of `Fire`, for the timer `t` at `p`.
  unfoldable pub reschedule : ℕ → Timer → Timers → Timers
  unfolding set_insert Map.insert
  reschedule p t s =
      if t.repeat
      then insert p (record s {
        heap = Map.insert p (record t { deadline = later_by (clock s.reads) t.delay }) s.heap;
        reads = suc s.reads;
      })
      else s

  abbrev pub call : ℕ → Timers → Timers
  call p s =
      let started = record s { fired = s.fired ++ (p ∷ []) } in perform (callback p started) started

  -- The loop of `Callback`: `none` for an access to a timer that has been destroyed.
  unfoldable pub run_due : ℕ → List ℕ → Timers → Option Timers
  unfolding reschedule set_erase
  run_due now [] s = some s
  run_due now (p ∷ rest) s = elim (Map.lookup p s.heap) [
    | none ↦ none
    | some t ↦
        let taken = record s { queue = set_erase (deadline_of s.heap) p s.queue } in
        let later = run_due now rest (call p (reschedule p t taken)) in
        if leb t.deadline now then later else some s
  ]

  abbrev pub rearmed : Option Timers → Option Timers
  rearmed none = none
  rearmed (some s) = some (rearm_timer s)

  -- `Callback`
  unfoldable pub run_callbacks : Timers → Option Timers
  unfolding run_due
  run_callbacks s = rearmed (run_due (clock s.reads) s.queue (record s { reads = suc s.reads }))

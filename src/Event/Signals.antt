-- ===== src/Event/Signals.antt =====
-- The end of a wait in common/event.cc.
use unix_thread_ipc.Prelude.{ℕ, suc, Bool, true, false, none, ◌≡◌, refl, arith}
use unix_thread_ipc.Event.{
  Call, wait, wait_with_timeout, Pc, outside, locking, entered, blocked, woken, retrying, Event,
  wait_section, acquire, Step, lock, do_wait, do_timed, relock, retry_wait, retry_timed, Reach,
}
use unix_thread_ipc.Event.Exclusion.{is_blocked, Reach-unblocked}

-- Steps of thread `i` alone.
pub data Alone (i : ℕ) (e : Event) : Event → Type 0 where
  stop : Alone i e e
  more : {e' e'' : Event} → Alone i e e' → Step e' i e'' → Alone i e e''

-- Thread `i` has called `c`, a wait, and does not have the mutex.
pub data IsWaiting (c : Call) : Pc → Type 0 where
  at_lock : IsWaiting c (locking c)
  asleep : IsWaiting c (blocked c)
  awake : IsWaiting c (woken c)

abbrev pub is_wait : Call → Bool
is_wait wait = true
is_wait wait_with_timeout = true
is_wait _ = false

-- What thread `i` reaches: its call has returned true, and the event is reset.
abbrev pub Returned : ℕ → Event → Event → Type 0
Returned i e e' =
    Alone i e e'
    × (e'.pc i ≡ outside)
    × (e'.signalled ≡ false)
    × (e'.taken ≡ suc e.taken)
    × (e'.owner ≡ none)

module _ (e : Event) (i : ℕ) (on : e.signalled ≡ true) (free : e.owner ≡ none) where
  section_lem :
      (p : Pc) (c : Call)
      → let e' = wait_section (acquire e i p) i c in
        (e'.pc i ≡ outside) × (e'.signalled ≡ false) × (e'.taken ≡ suc e.taken) × (e'.owner ≡ none)
  unfolding wait_section
  section_lem p c = (ground arith, ground arith, ground arith, ground arith)

  here_lem : (p : Pc) → (acquire e i p).pc i ≡ p
  here_lem p = ground arith

  enter :
      (c : Call)
      → is_wait c ≡ true
      → e.pc i ≡ locking c
      → Step (acquire e i (entered c)) i (wait_section (acquire e i (entered c)) i c)
  enter wait w at = do_wait (here_lem (entered wait)) refl
  enter wait_with_timeout w at = do_timed (here_lem (entered wait_with_timeout)) refl
  enter Call.signal w at = cc

  retry :
      (c : Call)
      → is_wait c ≡ true
      → Step (acquire e i (retrying c)) i (wait_section (acquire e i (retrying c)) i c)
  retry wait w = retry_wait (here_lem (retrying wait)) refl
  retry wait_with_timeout w = retry_timed (here_lem (retrying wait_with_timeout)) refl
  retry Call.signal w = cc

  finish :
      (p : Pc) (c : Call)
      → Alone i e (acquire e i p)
      → Step (acquire e i p) i (wait_section (acquire e i p) i c)
      → (e' : Event) × Returned i e e'
  finish p c run st =
      let (a, b, d, f) = section_lem p c in
      (wait_section (acquire e i p) i c, (more run st, a, b, d, f))

  returns :
      (c : Call) (p : Pc)
      → is_wait c ≡ true
      → e.pc i ≡ p
      → is_blocked p ≡ false
      → IsWaiting c p
      → (e' : Event) × Returned i e e'
  returns c _ w at b at_lock = finish (entered c) c (more stop (lock c at free refl)) (enter c w at)
  returns c _ w at b asleep = cc
  returns c _ w at b awake = finish (retrying c) c (more stop (relock c at free refl)) (retry c w)

-- From every reachable state in which the event is signalled and its mutex is free, any thread
-- that is in `Wait` or `WaitWithTimeout` (and has not timed out) returns true by steps of its own,
-- and leaves the event reset: no wake-up is lost.
pub wait_returns :
    {e : Event} (i : ℕ) (c : Call)
    → Reach e
    → e.signalled ≡ true
    → e.owner ≡ none
    → is_wait c ≡ true
    → IsWaiting c (e.pc i)
    → (e' : Event) × Returned i e e'
wait_returns {e} i c r on free w waiting =
    returns e i on free c (e.pc i) w refl (Reach-unblocked i r on) waiting

-- ===== src/Event.antt =====
-- common/event.cc and event.h: the auto-reset event, over the mutex and the condition variable of
-- common/mutex_posix.cc, for any number of threads in any interleaving.
--
-- `pthread_mutex_*` and `pthread_cond_*` are the constructors of `Step` that take, hand over or
-- wait for the mutex, with the behaviour that POSIX documents: a wait gives up the mutex as it
-- blocks, a broadcast unblocks all that are blocked, a wait may end for no reason, and it ends
-- with the mutex reacquired. What a thread does between `Lock` and `Unlock` is one step, or one
-- step for each stretch between waits. Elapsed time is left open: a timed wait may time out
-- whenever it is blocked, and its remaining time may be up whenever it is woken.
pub mod Exclusion
pub mod Signals
pub mod Deadline
mod Tests
use unix_thread_ipc.Prelude.{
  ℕ, suc, Bool, true, false, Option, none, some, ◌≡◌, ◌==◌, if◌then◌else◌,
}

-- The member function that a thread is in.
pub data Call : Type 0 where
  signal wait wait_with_timeout : Call

-- Where a thread stands.
pub data Pc : Type 0 where
  outside : Pc
  locking : Call → Pc  -- at `MutexLock lock(&mutex_)`
  entered : Call → Pc  -- has the mutex, at the first test of `signal_`
  blocked : Call → Pc  -- in `condition_.Wait` or `WaitWithTimeout`, without the mutex
  woken : Call → Pc  -- unblocked, and not yet in possession of the mutex
  expired : Pc  -- as `woken`, and the timed wait has timed out
  retrying : Call → Pc  -- back from the wait, with the mutex
  gave_up : Pc  -- back from a wait that timed out, with the mutex

pub record Event : Type 0 where
  pub owner : Option ℕ  -- who has `mutex_`
  pub signalled : Bool  -- `signal_`
  pub pc : ℕ → Pc
  pub raised : ℕ  -- how often `signal_` went from false to true
  pub taken : ℕ  -- how many waits have returned with the event signalled

-- The constructor, before any thread has used the event.
abbrev pub new_event : Event
new_event = record { owner = none; signalled = false; pc = λ _. outside; raised = 0; taken = 0 }

abbrev pub update : (ℕ → Pc) → ℕ → Pc → ℕ → Pc
update f i p j = if i == j then p else f j

-- `SignalAll`: every blocked thread is unblocked.
abbrev pub wake : Pc → Pc
wake (blocked c) = woken c
wake p = p

-- `Signal` behind the lock, and the release of the lock, by thread `i`.
unfoldable pub signal_section : Event → ℕ → Event
signal_section e i =
    if e.signalled then record e { owner = none; pc = update e.pc i outside } else record e {
      owner = none;
      signalled = true;
      pc = update (λ j. wake (e.pc j)) i outside;
      raised = suc e.raised;
    }

-- The loop test of `Wait` and `WaitWithTimeout`: return with the signal reset, or block.
unfoldable pub wait_section : Event → ℕ → Call → Event
wait_section e i c =
    if e.signalled
    then record e {
      owner = none;
      signalled = false;
      pc = update e.pc i outside;
      taken = suc e.taken;
    }
    else record e { owner = none; pc = update e.pc i (blocked c) }

-- A timed wait returns false.
unfoldable pub fail_section : Event → ℕ → Event
fail_section e i = record e { owner = none; pc = update e.pc i outside }

abbrev pub move : Event → ℕ → Pc → Event
move e i p = record e { pc = update e.pc i p }

abbrev pub acquire : Event → ℕ → Pc → Event
acquire e i p = record e { owner = some i; pc = update e.pc i p }

-- One step of thread `i`.
pub data Step (e : Event) (i : ℕ) (e' : Event) : Type 0 where
  call : (c : Call) → e.pc i ≡ outside → e' ≡ move e i (locking c) → Step e i e'
  lock :
      (c : Call) → e.pc i ≡ locking c → e.owner ≡ none → e' ≡ acquire e i (entered c) → Step e i e'
  do_signal : e.pc i ≡ entered signal → e' ≡ signal_section e i → Step e i e'
  do_wait : e.pc i ≡ entered wait → e' ≡ wait_section e i wait → Step e i e'
  do_timed :
      e.pc i ≡ entered wait_with_timeout → e' ≡ wait_section e i wait_with_timeout → Step e i e'
  spurious : (c : Call) → e.pc i ≡ blocked c → e' ≡ move e i (woken c) → Step e i e'
  time_out : e.pc i ≡ blocked wait_with_timeout → e' ≡ move e i expired → Step e i e'
  relock :
      (c : Call) → e.pc i ≡ woken c → e.owner ≡ none → e' ≡ acquire e i (retrying c) → Step e i e'
  relock_expired : e.pc i ≡ expired → e.owner ≡ none → e' ≡ acquire e i gave_up → Step e i e'
  retry_wait : e.pc i ≡ retrying wait → e' ≡ wait_section e i wait → Step e i e'
  retry_timed :
      e.pc i ≡ retrying wait_with_timeout → e' ≡ wait_section e i wait_with_timeout → Step e i e'
  out_of_time :
      e.pc i ≡ retrying wait_with_timeout
      → e.signalled ≡ false
      → e' ≡ fail_section e i
      → Step e i e'
  fail : e.pc i ≡ gave_up → e' ≡ fail_section e i → Step e i e'

pub data Reach : Event → Type 0 where
  start : Reach new_event
  next : {e e' : Event} (i : ℕ) → Reach e → Step e i e' → Reach e'

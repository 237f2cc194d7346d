-- ===== src/Event/Tests.antt =====
-- Examples for common/event.cc and common/mutex_posix.cc: thread 1 blocks in `Wait`, then thread 0 signals.
use unix_thread_ipc.Prelude.{◌≡◌, refl, false}
use unix_thread_ipc.Event.{
  signal, wait, locking, entered, Event, new_event, move, acquire, wait_section, signal_section,
  call, lock, do_wait, do_signal, Reach, start, next,
}
use unix_thread_ipc.Event.Exclusion.{is_blocked, Reach-unblocked}
use unix_thread_ipc.Event.Signals.{awake, Returned, wait_returns}

abbrev waiter_in : Event
waiter_in = acquire (move new_event 1 (locking wait)) 1 (entered wait)

abbrev signaller_in : Event
signaller_in = acquire (move (wait_section waiter_in 1 wait) 0 (locking signal)) 0 (entered signal)

abbrev signalled_once : Event
signalled_once = signal_section signaller_in 0

waiter_in-Reach : Reach waiter_in
waiter_in-Reach = next 1 (next 1 start (call wait refl refl)) (lock wait refl refl refl)

signaller_in-Reach : Reach signaller_in
unfolding wait_section
signaller_in-Reach =
    next 0 (next 0 (next 1 waiter_in-Reach (do_wait refl refl)) (call signal refl refl))
      (lock signal refl refl refl)

signalled_once-Reach : Reach signalled_once
unfolding wait_section
signalled_once-Reach = next 0 signaller_in-Reach (do_signal refl refl)

Reach-unblocked_example : is_blocked (signalled_once.pc 1) ≡ false
unfolding signal_section wait_section
Reach-unblocked_example = Reach-unblocked 1 signalled_once-Reach refl

wait_returns_example : (e' : Event) × Returned 1 signalled_once e'
unfolding signal_section wait_section
wait_returns_example = wait_returns 1 wait signalled_once-Reach refl refl refl awake

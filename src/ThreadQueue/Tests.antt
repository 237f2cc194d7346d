-- ===== src/ThreadQueue/Tests.antt =====
-- Examples for ThreadSpecificQueue: two messages to a thread in its loop, the second while the
-- first is on its way.
use unix_thread_ipc.Prelude.{ℕ, ◌≡◌, refl, ◌++◌, none, some, [], ◌∷◌, true, false}
use unix_thread_ipc.ThreadQueue.{Message, push, signal, wait, pop_messages}
use unix_thread_ipc.ThreadQueue.Traffic.{
  until, waiting, handled, Traffic, fresh, do_push, do_signal, begin, wake, pop, dispatch,
  end_batch, Steps, stop, more,
}
use unix_thread_ipc.ThreadQueue.Delivery.{messages_of, batch, delivery}
use unix_thread_ipc.ThreadQueue.Wakeup.{no_lost_wakeup}
use unix_thread_ipc.ThreadQueue.Drain.{Served, drain}

abbrev first : Message ℕ
first = record { message_type = 0; message_data = some 10 }

abbrev second : Message ℕ
second = record { message_type = 1; message_data = none }

abbrev both_pushed : Traffic ℕ
both_pushed = record {
  queue = record { thread_id = 5; event_queue = first ∷ second ∷ []; signalled = true };
  senders = 1;
  receiver = waiting (until 3);
  sent = first ∷ second ∷ [];
  log = [];
}

both_pushed-Steps : Steps (fresh 5) both_pushed
unfolding push signal
both_pushed-Steps =
    more
      (more (more (more stop (begin (until 3) refl refl)) (do_push first refl))
        (do_push second refl))
      (do_signal 1 refl refl)

-- The owner has handled both, with nothing left.
abbrev all_handled : Traffic ℕ
all_handled = record {
  queue = record { thread_id = 5; event_queue = []; signalled = false };
  senders = 0;
  receiver = waiting (until 3);
  sent = first ∷ [];
  log = (handled, first) ∷ [];
}

all_handled-Steps : Steps (fresh 5) all_handled
unfolding push signal wait pop_messages
all_handled-Steps =
    more
      (more
        (more
          (more
            (more (more (more stop (begin (until 3) refl refl)) (do_push first refl))
              (do_signal 0 refl refl))
            (wake (until 3) (record { thread_id = 5; event_queue = first ∷ []; signalled = false })
              refl refl refl))
          (pop (until 3) refl refl))
        (dispatch (until 3) first [] refl refl refl))
      (end_batch (until 3) refl refl)

delivery_example :
    both_pushed.sent
    ≡ messages_of both_pushed.log ++ (batch both_pushed.receiver ++ both_pushed.queue.event_queue)
delivery_example = delivery 5 both_pushed-Steps

no_lost_wakeup_example : all_handled.sent ≡ messages_of all_handled.log
no_lost_wakeup_example = no_lost_wakeup 5 (until 3) all_handled-Steps refl refl refl

drain_example :
    (s' : Traffic ℕ) × Served both_pushed (first ∷ second ∷ []) s' × (s'.queue.event_queue ≡ [])
drain_example = drain 5 (until 3) both_pushed-Steps refl (refl, (refl, tt))

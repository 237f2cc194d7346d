-- ===== src/ThreadQueue/Delivery.antt =====
-- Where the messages of a queue of common/message_queue_android.cc are.
use mathlib.Core.List.{map-append}
use unix_thread_ipc.Prelude.{
  ℕ, List, [], ◌∷◌, ◌++◌, map, append_assoc, append-nil, ◌≡◌, refl, ap, ◌∙◌, arith,
}
use unix_thread_ipc.ThreadQueue.{Message, push, signal, wait, pop_messages}
use unix_thread_ipc.ThreadQueue.Traffic.{
  Receiver, dispatching, Fate, Traffic, fresh, discard, Step, do_push, do_signal, begin, wake, pop,
  dispatch, leave, end_batch, Steps, stop, more,
}

module _ {D : Type 0} where
  abbrev pub messages_of : List (Fate × Message D) → List (Message D)
  messages_of = map (λ p. p.1)

  -- The batch that the owner is working on.
  abbrev pub batch : Receiver D → List (Message D)
  batch (dispatching mode l) = l
  batch _ = []

  -- Every message sent is in the log, in the batch or in the queue, in this order.
  abbrev pub IsComplete : Traffic D → Type 0
  IsComplete s = s.sent ≡ messages_of s.log ++ (batch s.receiver ++ s.queue.event_queue)

  messages_of-discard : (l : List (Message D)) → messages_of (discard l) ≡ l
  messages_of-discard [] = refl
  messages_of-discard (m ∷ l) = ap (λ r. m ∷ r) (messages_of-discard l)

  Step-IsComplete : {s s' : Traffic D} → Step s s' → IsComplete s → IsComplete s'
  unfolding push signal wait pop_messages
  Step-IsComplete {s} (do_push m eq) h = rw eq (ap (λ l. l ++ (m ∷ [])) h ∙ simp append_assoc)
  Step-IsComplete {s} (do_signal k at eq) h = ground arith
  Step-IsComplete {s} (begin mode at eq) h = ground arith
  Step-IsComplete {s} (wake mode q at w eq) h = ground arith
  Step-IsComplete {s} (pop mode at eq) h = rw (eq, append-nil) (rw at at h)
  Step-IsComplete {s} (dispatch mode m rest at no_exit eq) h =
      rw eq (simp (map-append, append_assoc) (rw at at h))
  Step-IsComplete {s} (leave mode m rest at exit eq) h =
      rw eq (simp (map-append, messages_of-discard, append_assoc) (rw at at h))
  Step-IsComplete {s} (end_batch mode at eq) h = ground arith

  Steps-IsComplete : {s s' : Traffic D} → Steps s s' → IsComplete s → IsComplete s'
  Steps-IsComplete stop h = h
  Steps-IsComplete (more r st) h = Step-IsComplete st (Steps-IsComplete r h)

  -- Whatever the interleaving, the messages that were sent are, in the order of sending, those that
  -- left the queue (handled, or dropped when the loop ended), those of the batch in progress, and
  -- those that wait.
  pub delivery :
      (id : ℕ) {s : Traffic D}
      → Steps (fresh id) s
      → s.sent ≡ messages_of s.log ++ (batch s.receiver ++ s.queue.event_queue)
  delivery id r = Steps-IsComplete r refl

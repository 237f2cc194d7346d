-- ===== src/ThreadQueue/Wakeup.antt =====
-- When the owner of a queue of common/message_queue_android.cc is woken.
use unix_thread_ipc.Prelude.{
  ℕ, ◌<◌, Bool, true, false, [], append-nil, ◌≡◌, ◌⊎◌, inl, inr, refl, ◌∙◌, arith,
}
use unix_thread_ipc.ThreadQueue.{push, signal, wait, pop_messages}
use unix_thread_ipc.ThreadQueue.Traffic.{
  Mode, Receiver, waiting, awake, Traffic, fresh, Step, do_push, do_signal, begin, wake, pop,
  dispatch, leave, end_batch, Steps, stop, more,
}
use unix_thread_ipc.ThreadQueue.Delivery.{messages_of, delivery}

module _ {D : Type 0} where
  abbrev pub is_awake : Receiver D → Bool
  is_awake (awake mode) = true
  is_awake _ = false

  -- If a message waits, then the event is signalled, or a sender is about to signal it, or the
  -- owner is about to take the messages.
  abbrev pub IsNoticed : Traffic D → Type 0
  IsNoticed s =
      (s.queue.event_queue ≡ [])
      ⊎ ((s.queue.signalled ≡ true) ⊎ ((0 < s.senders) ⊎ (is_awake s.receiver ≡ true)))

  Step-IsNoticed : {s s' : Traffic D} → Step s s' → IsNoticed s → IsNoticed s'
  unfolding push signal wait pop_messages
  Step-IsNoticed {s} (do_push m eq) h = rw eq (inr (inr (inl (omega arith))))
  Step-IsNoticed {s} (do_signal k at eq) h = rw eq (inr (inl refl))
  Step-IsNoticed {s} (begin mode at eq) h = ground arith
  Step-IsNoticed {s} (wake mode q at w eq) h = rw eq (inr (inr (inr refl)))
  Step-IsNoticed {s} (pop mode at eq) h = rw eq (inl refl)
  Step-IsNoticed {s} (dispatch mode m rest at no_exit eq) h = ground arith
  Step-IsNoticed {s} (leave mode m rest at exit eq) h = ground arith
  Step-IsNoticed {s} (end_batch mode at eq) h = ground arith

  Steps-IsNoticed : {s s' : Traffic D} → Steps s s' → IsNoticed s → IsNoticed s'
  Steps-IsNoticed stop h = h
  Steps-IsNoticed (more r st) h = Step-IsNoticed st (Steps-IsNoticed r h)

  pub no_lost_wakeup-queue :
      (id : ℕ) {s : Traffic D} (mode : Mode)
      → Steps (fresh id) s
      → s.receiver ≡ waiting mode
      → s.queue.signalled ≡ false
      → s.senders ≡ 0
      → s.queue.event_queue ≡ []
  no_lost_wakeup-queue id mode r at off none_left =
      let h = Steps-IsNoticed r (inl refl) in ground (arith, h)

  -- While the owner is blocked in `Wait` with the event not signalled and no sender on its way,
  -- every message that was sent has left the queue, in the order of sending.
  pub no_lost_wakeup :
      (id : ℕ) {s : Traffic D} (mode : Mode)
      → Steps (fresh id) s
      → s.receiver ≡ waiting mode
      → s.queue.signalled ≡ false
      → s.senders ≡ 0
      → s.sent ≡ messages_of s.log
  no_lost_wakeup id {s} mode r at off none_left =
      delivery id r ∙ rw (at, no_lost_wakeup-queue id mode r at off none_left, append-nil)

-- ===== src/MessageQueue/Looping.antt =====
-- What `Start` does with the messages of its thread, in common/message_queue_android.cc.
use unix_thread_ipc.Prelude.{
  ℕ, suc, ◌≡◌, ◌≢◌, refl, ◌∙◌, ap, Bool, true, false, Option, none, some, List, [], ◌∷◌, ◌++◌,
  ==_of_eq, ==_of_ne, arith, All, Option-cases, Bool-cases, inl, inr, if◌then◌else◌,
}
use unix_thread_ipc.Prelude.Map
use unix_thread_ipc.Prelude.Map.{lookup-insert}
use unix_thread_ipc.ThreadQueue.{Message, Queue, wait, pop_messages}
use unix_thread_ipc.MessageQueue.{android_loop_exit, Process, deleted_all, get_registered_handler}
use unix_thread_ipc.MessageQueue.Loops.{
  Outcome, returned, blocked, handle_thread_message, dispatch_message, dispatch_until,
  dispatch_list, get_and_dispatch_messages, start,
}

module _ {D H : Type 0} (handle : H → ℕ → Option D → Process D H → Process D H) where
  -- The queue of thread `self` after its messages have been taken.
  abbrev pub taken : Process D H → ℕ → Queue D → Process D H
  taken p self q = record p {
    message_queues =
        Map.insert self (record q { event_queue = []; signalled = false }) p.message_queues;
  }

  dispatch_until-first_exit :
      (exit_type : ℕ) (p : Process D H) (before after : List (Message D)) (m : Message D)
      → m.message_type ≡ exit_type
      → All (λ x. x.message_type ≢ exit_type) before
      → dispatch_until handle exit_type p (before ++ (m ∷ after)) ≡ (
          let p' = dispatch_list handle p before in
          (true, record p' { freed = p'.freed ++ deleted_all (m ∷ after) }))
  unfolding dispatch_until dispatch_list
  dispatch_until-first_exit exit_type p [] after m exit all =
      rw (dispatch_until, ==_of_eq m.message_type exit_type exit) refl
  dispatch_until-first_exit exit_type p (x ∷ before) after m exit (ne, all) =
      rw (dispatch_until, ==_of_ne x.message_type exit_type ne)
        (dispatch_until-first_exit exit_type (dispatch_message handle p x) before after m exit all)

  dispatch_until-none_exit :
      (exit_type : ℕ) (p : Process D H) (l : List (Message D))
      → All (λ x. x.message_type ≢ exit_type) l
      → dispatch_until handle exit_type p l ≡ (false, dispatch_list handle p l)
  unfolding dispatch_until dispatch_list
  dispatch_until-none_exit exit_type p [] all = refl
  dispatch_until-none_exit exit_type p (x ∷ l) (ne, all) =
      rw (dispatch_until, ==_of_ne x.message_type exit_type ne)
        (dispatch_until-none_exit exit_type (dispatch_message handle p x) l all)

  -- What follows the dispatching of one batch.
  abbrev after_batch : ℕ → ℕ → Bool × Process D H → Outcome D H
  after_batch fuel self (done, p) = elim done [
    | true ↦ returned p
    | false ↦ get_and_dispatch_messages handle fuel p self android_loop_exit
  ]

  start-suc :
      (fuel : ℕ) (p : Process D H) (self : ℕ) (q : Queue D)
      → Map.lookup self p.message_queues ≡ some q
      → q.signalled ≡ true
      → start handle (suc fuel) p self
        ≡ after_batch fuel self
            (dispatch_until handle android_loop_exit (taken p self q) q.event_queue)
  unfolding start wait pop_messages get_and_dispatch_messages dispatch_until
  start-suc fuel p self q found signalled =
      rw (get_and_dispatch_messages, found, wait, signalled) refl

  -- A `Start` that finds its event signalled and an exit message in its queue returns: the messages
  -- before the first exit message have been dispatched in their order, with the queue already
  -- empty, and the exit message and those after it are deleted and dispatched to no handler. This
  -- holds for every handler, also for one that posts, stops or ends threads.
  pub start-exit :
      (fuel : ℕ) (p : Process D H) (self : ℕ) (q : Queue D) (before after : List (Message D))
      (m : Message D)
      → Map.lookup self p.message_queues ≡ some q
      → q.signalled ≡ true
      → q.event_queue ≡ before ++ (m ∷ after)
      → m.message_type ≡ android_loop_exit
      → All (λ x. x.message_type ≢ android_loop_exit) before
      → start handle (suc fuel) p self ≡ (
          let p' = dispatch_list handle (taken p self q) before in
          returned (record p' { freed = p'.freed ++ deleted_all (m ∷ after) }))
  start-exit fuel p self q before after m found signalled queue exit all =
      start-suc fuel p self q found signalled
      ∙ ap (after_batch fuel self) (
          ap (dispatch_until handle android_loop_exit (taken p self q)) queue
          ∙ dispatch_until-first_exit android_loop_exit (taken p self q) before after m exit all)

  -- The handlers do not touch the queue of thread `self`.
  abbrev pub Leaves : ℕ → Type 0
  Leaves self =
      (h : H) (message_type : ℕ) (d : Option D) (p : Process D H)
      → Map.lookup self (handle h message_type d p).message_queues
        ≡ Map.lookup self p.message_queues

  lookup-dispatch_message :
      (self : ℕ)
      → Leaves self
      → (p : Process D H) (m : Message D)
      → Map.lookup self (dispatch_message handle p m).message_queues
        ≡ Map.lookup self p.message_queues
  unfolding dispatch_message handle_thread_message get_registered_handler
  lookup-dispatch_message self leaves p m =
      elim (Option-cases (Map.lookup m.message_type p.handlers)) [
        | inl unregistered ↦
            rw (dispatch_message, handle_thread_message, get_registered_handler, unregistered) refl
        | inr (none, null) ↦
            rw (dispatch_message, handle_thread_message, get_registered_handler, null) refl
        | inr (some h, registered) ↦
            rw (dispatch_message, handle_thread_message, get_registered_handler, registered)
              (leaves h m.message_type m.message_data p)
      ]

  lookup-dispatch_list :
      (self : ℕ)
      → Leaves self
      → (p : Process D H) (l : List (Message D))
      → Map.lookup self (dispatch_list handle p l).message_queues ≡ Map.lookup self p.message_queues
  unfolding dispatch_list
  lookup-dispatch_list self leaves p [] = refl
  lookup-dispatch_list self leaves p (m ∷ l) =
      lookup-dispatch_list self leaves (dispatch_message handle p m) l
      ∙ lookup-dispatch_message self leaves p m

  idle :
      (fuel self : ℕ) (p : Process D H) (q : Queue D)
      → Map.lookup self p.message_queues ≡ some (record q { event_queue = []; signalled = false })
      → get_and_dispatch_messages handle (suc fuel) p self android_loop_exit ≡ blocked p
  unfolding wait get_and_dispatch_messages
  idle fuel self p q found = rw (get_and_dispatch_messages, found) refl

  -- A `Start` without an exit message in its queue does not return, if the handlers leave the queue
  -- of their thread alone: it dispatches, where its event is signalled, all messages in their order
  -- and then blocks, with the queue empty and the event not signalled. Two rounds of fuel are
  -- enough.
  pub start-blocked :
      (fuel : ℕ) (p : Process D H) (self : ℕ) (q : Queue D)
      → Leaves self
      → Map.lookup self p.message_queues ≡ some q
      → All (λ x. x.message_type ≢ android_loop_exit) q.event_queue
      → start handle (suc (suc fuel)) p self
        ≡ blocked (if q.signalled then dispatch_list handle (taken p self q) q.event_queue else p)
  unfolding start get_and_dispatch_messages wait
  start-blocked fuel p self q leaves found all = elim (Bool-cases q.signalled) [
    | inr quiet ↦ rw (start, get_and_dispatch_messages, found, wait, quiet) refl
    | inl signalled ↦ rw signalled (
        start-suc (suc fuel) p self q found signalled
        ∙ ap (after_batch (suc fuel) self)
            (dispatch_until-none_exit android_loop_exit (taken p self q) q.event_queue all)
        ∙ idle fuel self (dispatch_list handle (taken p self q) q.event_queue) q (
            lookup-dispatch_list self leaves (taken p self q) q.event_queue
            ∙ ground (
              arith,
              lookup-insert self self (record q { event_queue = []; signalled = false })
                  p.message_queues,
            )))
  ]

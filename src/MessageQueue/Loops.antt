-- ===== src/MessageQueue/Loops.antt =====
-- Dispatching in common/message_queue_android.cc: HandleThreadMessage, GetAndDispatchMessages,
-- RunOnce and DispatchOnce, without other threads in between: what those may do at each point is in
-- ThreadQueue/Traffic.antt.
--
-- A handler may change the whole state. The loop over batches takes fuel: a handler that posts to
-- its own thread can keep it going for ever.
use unix_thread_ipc.Prelude.{
  ℕ, zero, suc, Bool, true, false, Option, none, some, List, [], ◌∷◌, ◌++◌, ◌==◌,
}
use unix_thread_ipc.Prelude.Map
use unix_thread_ipc.ThreadQueue.{Message, Queue, wait, pop_messages}
use unix_thread_ipc.MessageQueue.{
  android_loop_exit, Process, deleted, deleted_all, get_registered_handler, get_queue,
}

-- How a call that may block ends. A `fault` is a failed assertion of `GetQueue`, or the use of a
-- queue that has been destroyed.
pub data Outcome (D H : Type 0) : Type 0 where
  returned : Process D H → Outcome D H
  blocked : Process D H → Outcome D H
  fault : Process D H → Outcome D H
  out_of_fuel : Process D H → Outcome D H

module _ {D H : Type 0} (handle : H → ℕ → Option D → Process D H → Process D H) where
  -- `HandleThreadMessage` with `RegisteredHandler::Invoke`
  unfoldable pub handle_thread_message : ℕ → Option D → Process D H → Process D H
  unfolding get_registered_handler
  handle_thread_message message_type message_data p = elim (get_registered_handler p message_type) [
    | none ↦ p
    | some none ↦ p
    | some (some instance_) ↦ handle instance_ message_type message_data p
  ]

  -- One message of a local queue: it is deleted after its handler returns.
  unfoldable pub dispatch_message : Process D H → Message D → Process D H
  unfolding handle_thread_message
  dispatch_message p m =
      let p' = handle_thread_message m.message_type m.message_data p in
      record p' { freed = p'.freed ++ deleted m.message_data }

  -- The inner loop of `GetAndDispatchMessages`: the state, and `done`.
  unfoldable pub dispatch_until : ℕ → Process D H → List (Message D) → Bool × Process D H
  dispatch_until exit_type p [] = (false, p)
  dispatch_until exit_type p (m ∷ rest) = elim (m.message_type == exit_type) [
    | true ↦ (true, record p { freed = p.freed ++ deleted_all (m ∷ rest) })
    | false ↦ dispatch_until exit_type (dispatch_message p m) rest
  ]

  -- The inner loop of `DispatchOnce`.
  unfoldable pub dispatch_list : Process D H → List (Message D) → Process D H
  dispatch_list p [] = p
  dispatch_list p (m ∷ rest) = dispatch_list (dispatch_message p m) rest

  -- `PopMessages` of the queue of a thread.
  abbrev pub pop_from : Process D H → ℕ → Queue D → Process D H
  pop_from p self q = record p {
    message_queues = Map.insert self (pop_messages q).1 p.message_queues;
  }

  -- `GetAndDispatchMessages(exit_type)` on the queue of thread `self`, with fuel for its rounds.
  unfoldable pub get_and_dispatch_messages : ℕ → Process D H → ℕ → ℕ → Outcome D H
  get_and_dispatch_messages zero p self exit_type = out_of_fuel p
  get_and_dispatch_messages (suc fuel) p self exit_type = elim (Map.lookup self p.message_queues) [
    | none ↦ fault p
    | some q ↦ elim (wait q) [
      | none ↦ blocked p
      | some q' ↦
          let (done, p') = dispatch_until exit_type (pop_from p self q') (pop_messages q').0 in
          elim done [
            | true ↦ returned p'
            | false ↦ get_and_dispatch_messages fuel p' self exit_type
          ]
    ]
  ]

  -- `AndroidMessageLoop::Start`
  unfoldable pub start : ℕ → Process D H → ℕ → Outcome D H
  start fuel p self = get_and_dispatch_messages fuel p self android_loop_exit

  unfoldable pub dispatch_once : Process D H → ℕ → Outcome D H
  unfolding dispatch_list
  dispatch_once p self = elim (Map.lookup self p.message_queues) [
    | none ↦ fault p
    | some q ↦ returned (dispatch_list (pop_from p self q) (pop_messages q).0)
  ]

  -- `AndroidMessageLoop::RunOnce` and `ThreadSpecificQueue::RunOnce`
  unfoldable pub run_once : Process D H → ℕ → Outcome D H
  unfolding get_queue dispatch_once
  run_once p self = elim (get_queue p self) [
    | none ↦ fault p
    | some q ↦ elim (wait q) [
      | none ↦ blocked p
      | some q' ↦
          dispatch_once (record p { message_queues = Map.insert self q' p.message_queues }) self
    ]
  ]

-- ===== src/MessageQueue/Sending.antt =====
-- `Send` and the handler table.
use unix_thread_ipc.Prelude.{
  ℕ, Bool, true, false, Option, none, some, List, [], ◌∷◌, ◌++◌, append-nil, ◌≡◌, arith, ◌==◌,
  if◌then◌else◌,
}
use unix_thread_ipc.Prelude.Map
use unix_thread_ipc.Prelude.Map.{lookup-insert}
use unix_thread_ipc.ThreadQueue.{Queue, send_message}
use unix_thread_ipc.MessageQueue.{
  Process, deleted, register_handler, get_registered_handler, is_registered, send,
}

module _ {D : Type 0} where
  -- What the queue of the target thread becomes.
  abbrev pub after_send : ℕ → Option D → Option (Queue D) → Option (Queue D)
  after_send message_type message_data none = none
  after_send message_type message_data (some q) = some (record q {
    event_queue =
        q.event_queue ++ (record { message_type = message_type; message_data = message_data } ∷ []);
    signalled = true;
  })

  -- What is deleted: the data of a message that has nowhere to go.
  abbrev pub undelivered : Option D → Option (Queue D) → List D
  undelivered message_data none = deleted message_data
  undelivered message_data (some q) = []

  abbrev pub exists : Option (Queue D) → Bool
  exists none = false
  exists (some q) = true

module _ {D H : Type 0} where
  -- `Send` succeeds exactly if the target thread has a queue. Then the message stands last in that
  -- queue, whose event is signalled; else the data is deleted. No other queue, no handler and
  -- nothing else of the state changes.
  pub send_lem :
      (p : Process D H) (thread message_type : ℕ) (message_data : Option D) (j : ℕ)
      → let found = Map.lookup thread p.message_queues in
        let (ok, p') = send p thread message_type message_data in
        (ok ≡ exists found)
        × (Map.lookup j p'.message_queues ≡ (
            if thread == j
            then after_send message_type message_data found
            else Map.lookup j p.message_queues))
        × (p'.freed ≡ p.freed ++ undelivered message_data found)
        × (p' ≡ record p { message_queues = p'.message_queues; freed = p'.freed })
  unfolding send send_message
  send_lem p thread message_type message_data j =
      (ground arith, grind (arith, lookup-insert), ground (arith, append-nil p.freed), ground arith)

  -- After `RegisterHandler` the message type has that handler, also a NULL one, in place of any
  -- earlier one, and `IsRegistered` says so; other message types are as before.
  pub get_registered_handler-register_handler :
      (p : Process D H) (message_type j : ℕ) (instance_ : Option H)
      → let p' = register_handler p message_type instance_ in
        (get_registered_handler p' j
          ≡ (if message_type == j then some instance_ else get_registered_handler p j))
        × (is_registered p' j ≡ (if message_type == j then true else is_registered p j))
  unfolding register_handler get_registered_handler is_registered
  get_registered_handler-register_handler p message_type j instance_ = (
    ground (arith, lookup-insert message_type j instance_ p.handlers),
    ground (arith, lookup-insert message_type j instance_ p.handlers),
  )

-- ===== src/ThreadQueue.antt =====
-- ThreadSpecificQueue of common/message_queue_android.h and .cc: the queue of one thread, which any
-- thread posts to and the owner empties in batches.
--
-- `D` stands for the message data behind a `MessageData *`, `none` for NULL. The critical sections
-- of `event_queue_mutex_` and of `event_` are the atomic actions; Event.antt is about those of the
-- event. An `Event` is here the flag that it presents, and `wait` is `none` while the call would
-- block.
pub mod Traffic
pub mod Delivery
pub mod Wakeup
pub mod Drain
mod Tests
use unix_thread_ipc.Prelude.{
  ℕ, Bool, true, false, Option, none, some, List, [], ◌∷◌, ◌++◌, if◌then◌else◌, ◌==◌,
}

-- `Message`
pub record Message (D : Type 0) : Type 0 where
  pub message_type : ℕ
  pub message_data : Option D

pub record Queue (D : Type 0) : Type 0 where
  pub thread_id : ℕ
  pub event_queue : List (Message D)
  pub signalled : Bool  -- `event_`

module _ {D : Type 0} where
  -- The constructor.
  abbrev pub new_queue : ℕ → Queue D
  new_queue id = record { thread_id = id; event_queue = []; signalled = false }

  -- `SendMessage`, under `event_queue_mutex_`
  unfoldable pub push : Queue D → Message D → Queue D
  push q m = record q { event_queue = q.event_queue ++ m ∷ [] }

  -- `event_.Signal()`
  unfoldable pub signal : Queue D → Queue D
  signal q = record q { signalled = true }

  -- `SendMessage` with no other thread in between. What it adds for the main thread is commented
  -- out in the source but for taking and releasing `async_mutex_`.
  unfoldable pub send_message : Queue D → ℕ → Option D → Queue D
  unfolding push signal
  send_message q message_type message_data =
      signal (push q (record { message_type = message_type; message_data = message_data }))

  -- `event_.Wait()`
  unfoldable pub wait : Queue D → Option (Queue D)
  wait q = if q.signalled then some (record q { signalled = false }) else none

  -- `PopMessages`: all messages, and the queue without them.
  unfoldable pub pop_messages : Queue D → List (Message D) × Queue D
  pop_messages q = (q.event_queue, record q { event_queue = [] })

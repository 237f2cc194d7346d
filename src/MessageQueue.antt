-- ===== src/MessageQueue.antt =====
-- ThreadMessageQueue (common/message_queue.h and .cc) and its implementation for Linux,
-- AndroidThreadMessageQueue and AndroidMessageLoop (common/message_queue_android.h and .cc).
--
-- `Process` is the state that the threads share. The calling thread, `pthread_self()`, is an
-- argument. `D` stands for message data and `H` for handler instances, `none` for NULL. `freed`
-- collects the message data that the queue has deleted. What a handler does is the program's own:
-- it is the parameter `handle`, a change of the state.
pub mod Sending
pub mod Thread
pub mod Exit
pub mod Init
pub mod Lifetime
pub mod Loops
pub mod Looping
mod Tests
use unix_thread_ipc.Prelude.{
  ℕ, zero, suc, Bool, true, false, not, Option, none, some, List, [], ◌∷◌, ◌++◌, if◌then◌else◌,
  ◌==◌,
}
use unix_thread_ipc.Prelude.Map
use unix_thread_ipc.Prelude.Map.{Map}
use unix_thread_ipc.Prelude.Int.{ℤ}
use unix_thread_ipc.ThreadLocals.{Table, Calls, has_value, set_value, finalize_key}
use unix_thread_ipc.ThreadQueue.{Message, Queue, new_queue, send_message, wait, pop_messages}

-- `kAndroidLoop_Exit` of `ThreadMessageTypes`
abbrev pub android_loop_exit : ℕ
android_loop_exit = 3

-- The destructor callbacks that are stored in thread-local slots.
pub data Hook : Type 0 where
  thread_end_hook : Hook

pub record Process (D H : Type 0) : Type 0 where
  pub message_queues : Map (Queue D)
  pub handlers : Map (Option H)
  pub main_thread_id : ℕ
  pub thread_local_key : ℤ  -- `kThreadLocalKey`
  pub locals : Map (Table ℕ Hook)  -- the thread-local table of each thread
  pub freed : List D

module _ {D : Type 0} where
  -- `delete message_data`
  abbrev pub deleted : Option D → List D
  deleted none = []
  deleted (some d) = d ∷ []

  abbrev pub deleted_all : List (Message D) → List D
  deleted_all [] = []
  deleted_all (m ∷ rest) = deleted m.message_data ++ deleted_all rest

  -- The messages of a queue that is about to be erased.
  abbrev pub pending_of : Option (Queue D) → List (Message D)
  pending_of none = []
  pending_of (some q) = q.event_queue

module _ {D H : Type 0} where
  -- `g_instance`, constructed on the main thread.
  abbrev pub new_process : ℕ → ℤ → Process D H
  new_process main key = record {
    message_queues = [];
    handlers = [];
    main_thread_id = main;
    thread_local_key = key;
    locals = [];
    freed = [];
  }

  unfoldable pub register_handler : Process D H → ℕ → Option H → Process D H
  register_handler p message_type instance_ = record p {
    handlers = Map.insert message_type instance_ p.handlers;
  }

  unfoldable pub get_registered_handler : Process D H → ℕ → Option (Option H)
  get_registered_handler p message_type = Map.lookup message_type p.handlers

  unfoldable pub is_registered : Process D H → ℕ → Bool
  is_registered p message_type = elim (Map.lookup message_type p.handlers) [
    | none ↦ false
    | some h ↦ true
  ]

  -- `ThreadEndHook`: the queue goes, and the messages in it.
  unfoldable pub end_thread : Process D H → Option ℕ → Process D H
  end_thread p none = p
  end_thread p (some id) = record p {
    message_queues = Map.erase id p.message_queues;
    freed = p.freed ++ deleted_all (pending_of (Map.lookup id p.message_queues));
  }

  unfoldable pub run_hooks : Process D H → Calls ℕ Hook → Process D H
  unfolding end_thread
  run_hooks p [] = p
  run_hooks p ((thread_end_hook, value) ∷ rest) = run_hooks (end_thread p value) rest

  -- The thread-local table of a thread.
  abbrev pub table_of : Process D H → ℕ → Table ℕ Hook
  table_of p thread = elim (Map.lookup thread p.locals) [ none ↦ none | some t ↦ t ]

  unfoldable pub init_thread_end_hook : Process D H → ℕ → Process D H
  unfolding run_hooks
  init_thread_end_hook p self =
      if has_value (table_of p self) p.thread_local_key
      then p
      else (let (calls, t) =
            set_value (table_of p self) p.thread_local_key (some self) (some thread_end_hook) in
          run_hooks (record p { locals = Map.insert self t p.locals }) calls)

  unfoldable pub init_thread_message_queue : Process D H → ℕ → Process D H
  unfolding init_thread_end_hook
  init_thread_message_queue p self = elim (Map.lookup self p.message_queues) [
    | some q ↦ p
    | none ↦
        let p' = if self == p.main_thread_id then p else init_thread_end_hook p self in
        record p' { message_queues = Map.insert self (new_queue self) p'.message_queues }
  ]

  unfoldable pub send : Process D H → ℕ → ℕ → Option D → Bool × Process D H
  send p thread message_type message_data = elim (Map.lookup thread p.message_queues) [
    | none ↦ (false, record p { freed = p.freed ++ deleted message_data })
    | some q ↦ (
      true,
      record p {
        message_queues =
            Map.insert thread (send_message q message_type message_data) p.message_queues;
      },
    )
  ]

  -- `GetQueue`: `none` where its assertion fails.
  unfoldable pub get_queue : Process D H → ℕ → Option (Queue D)
  get_queue p id = Map.lookup id p.message_queues

  -- `AndroidMessageLoop::Stop`
  unfoldable pub stop : Process D H → ℕ → Option (Process D H)
  unfolding get_queue
  stop p thread = elim (get_queue p thread) [
    | none ↦ none
    | some q ↦ some (record p {
      message_queues = Map.insert thread (send_message q android_loop_exit none) p.message_queues;
    })
  ]

  -- The end of a thread: pthread hands its thread-local table to `FinalizeKey`.
  unfoldable pub exit_thread : Process D H → ℕ → Process D H
  unfolding run_hooks
  exit_thread p self =
      run_hooks (record p { locals = Map.erase self p.locals }) (finalize_key (table_of p self))

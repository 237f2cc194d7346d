-- ===== src/Threads.antt =====
-- Thread of common/thread.cc and thread.h with ThreadInternal of common/thread_posix.cc, over the
-- thread message queue.
--
-- A parent starts and joins a child, `child` being its pthread id, which is not 0. Each step is one
-- statement of the one or of the other; in between, other threads and `Run` of the child use the
-- message queue as they like. `started_event_` is what an Event promises: a flag that a return from
-- `Wait` resets. `pthread_create` may fail, and `pthread_join` waits until the child has ended.
pub mod Facts
pub mod Starting
mod Tests
use unix_thread_ipc.Prelude.{ℕ, ◌≢◌, Bool, true, false}
use unix_thread_ipc.MessageQueue.{Process, init_thread_message_queue, exit_thread}
use unix_thread_ipc.MessageQueue.Lifetime.{Request, init, post, register, exit, serve}

-- Where the parent stands: before `Start`, in its wait, behind it with its result, and behind `Join`.
pub data Parent : Type 0 where
  idle waiting : Parent
  started : ℕ → Parent
  joined : Parent

-- Where the child stands: not created, and in `ThreadMain` behind each of its statements.
pub data Child : Type 0 where
  absent created initialised identified marked running returned ended : Child

pub record System (D H : Type 0) : Type 0 where
  pub process : Process D H
  pub thread_id : ℕ
  pub is_running : Bool
  pub event : Bool  -- `started_event_`
  pub handle : ℕ  -- `handle_` of ThreadInternal
  pub parent : Parent
  pub child_at : Child

module _ {D H : Type 0} where
  -- A request that does not end the child.
  abbrev pub Spares : ℕ → Request D H → Type 0
  Spares child (init self) = Unit
  Spares child (post thread message_type message_data) = Unit
  Spares child (register message_type instance_) = Unit
  Spares child (exit self) = self ≢ child

  abbrev pub system : Process D H → ℕ → Bool → Bool → ℕ → Parent → Child → System D H
  system p id running_flag event handle parent child_at = record {
    process = p;
    thread_id = id;
    is_running = running_flag;
    event = event;
    handle = handle;
    parent = parent;
    child_at = child_at;
  }

  -- The constructor of `Thread`.
  abbrev pub new_thread : Process D H → System D H
  new_thread p = system p 0 false false 0 idle absent

  pub data Step (child : ℕ) : System D H → System D H → Type 0 where
    -- `pthread_create`, which may fail: then `Start` returns 0.
    create :
        {p : Process D H} {e : Bool}
        → Step child (system p 0 false e 0 idle absent) (system p 0 false e child waiting created)
    create_fails :
        {p : Process D H} {e : Bool}
        → Step child (system p 0 false e 0 idle absent) (system p 0 false e 0 (started 0) absent)
    -- The statements of `ThreadMain`.
    initialise :
        {p : Process D H} {id h : ℕ} {r e : Bool} {q : Parent}
        → Step child
            (system p id r e h q created)
            (system (init_thread_message_queue p child) id r e h q initialised)
    identify :
        {p : Process D H} {id h : ℕ} {r e : Bool} {q : Parent}
        → Step child (system p id r e h q initialised) (system p child r e h q identified)
    mark :
        {p : Process D H} {id h : ℕ} {r e : Bool} {q : Parent}
        → Step child (system p id r e h q identified) (system p id true e h q marked)
    signal :
        {p : Process D H} {id h : ℕ} {r e : Bool} {q : Parent}
        → Step child (system p id r e h q marked) (system p id r true h q running)
    return :
        {p : Process D H} {id h : ℕ} {r e : Bool} {q : Parent}
        → Step child (system p id r e h q running) (system p id false e h q returned)
    -- The end of the thread, with the destructors of its thread-local slots.
    end :
        {p : Process D H} {id h : ℕ} {r e : Bool} {q : Parent}
        → Step child (system p id r e h q returned) (system (exit_thread p child) id r e h q ended)
    -- The return from `started_event_.Wait()`, and from `Start`.
    wake :
        {p : Process D H} {id h : ℕ} {r : Bool} {c : Child}
        → Step child (system p id r true h waiting c) (system p id r false h (started id) c)
    -- `Join` of a thread that was started, behind `pthread_join`.
    join :
        {p : Process D H} {id h : ℕ} {r e : Bool} {result : ℕ}
        → id ≢ 0
        → Step child (system p id r e h (started result) ended) (system p 0 r e 0 joined ended)
    -- Other threads, and the child in `Run`.
    other :
        {p : Process D H} {id h : ℕ} {r e : Bool} {q : Parent} {c : Child}
        → (request : Request D H) → Spares child request
        → Step child (system p id r e h q c) (system (serve p request) id r e h q c)

  pub data Reach (child : ℕ) (p : Process D H) : System D H → Type 0 where
    fresh : Reach child p (new_thread p)
    then_step : {s s' : System D H} → Reach child p s → Step child s s' → Reach child p s'

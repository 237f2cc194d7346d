-- ===== src/IpcQueue/Worker.antt =====
-- The loop of `Run` with what other threads do at the same time.
use unix_thread_ipc.Prelude.{
  ℕ, Bool, true, false, Option, none, some, List, [], ◌∷◌, ◌++◌, if◌then◌else◌, get_elem?,
}
use unix_thread_ipc.Prelude.Map.{Map}
use unix_thread_ipc.Registry.{Registry}
use unix_thread_ipc.Packets.{Packet, IpcMessage}
use unix_thread_ipc.IpcQueue.{
  IpcQueue, OutboundQueue, new_ipc_queue, shut_down, Handle, send_data, send_with_completion,
  send_to_all, Completion, prepare, waited_for, wait_complete,
}

-- What happens to a queue: a call that sends, with what `Open` finds and the time; the worker thread
-- comes to its wait; its wait for one of its handles ends; it gives up, as
-- `WaitForMultipleObjectsEx` has failed or the shared memory holds garbage; or, once it has given up,
-- it comes to the end of `InstanceThreadProc`.
pub data Occurrence : Type 0 where
  send : (opens : Bool) → (now : ℕ) → IpcMessage → Occurrence
  broadcast : (ℕ → Bool) → (now : ℕ) → (including_self : Bool) → ℕ → List ℕ → Occurrence
  pass : (now : ℕ) → Occurrence
  complete : (now : ℕ) → (index : ℕ) → (block : List Packet) → Occurrence
  giving_up : Occurrence
  ending : Occurrence

pub record Machine : Type 0 where
  pub queue : IpcQueue
  pub calls : List Completion  -- the completion callbacks made so far
  pub handles : List Handle  -- what the worker thread waits for, if it waits
  pub reset_send_data_event : Bool
  pub destroyed : List IpcMessage  -- what was pending in queues that `outbound_queues_.clear` took

abbrev pub new_machine : ℕ → Registry → Machine
new_machine self r = record {
  queue = new_ipc_queue self r;
  calls = [];
  handles = [];
  reset_send_data_event = false;
  destroyed = [];
}

abbrev pub pending_in : Map OutboundQueue → List IpcMessage
pending_in [] = []
pending_in ((id, o) ∷ rest) = o.out.pending ++ pending_in rest

-- `while (!die_)`
abbrev pub unless_die : Machine → Machine → Machine
unless_die s s' = if s.queue.die then s else s'

abbrev pub is_send_data : Handle → Bool
is_send_data send_data = true
is_send_data _ = false

-- From the end of a wait to the top of the loop.
abbrev pub after_wait : ℕ → Machine → List Packet → Option Handle → Machine
after_wait now s block none = s
after_wait now s block (some handle) = record s {
  queue = (wait_complete now s.queue handle block).0;
  handles = [];
  reset_send_data_event = is_send_data handle;
}

unfoldable pub step : Machine → Occurrence → Machine
unfolding prepare wait_complete send_with_completion send_to_all shut_down
step s (send opens now m) = record s { queue = send_with_completion opens now s.queue m }
step s (broadcast opens now including_self message_type bytes) = record s {
  queue = send_to_all opens now including_self message_type bytes s.queue;
}
step s (pass now) =
    let (handles, calls, q) = prepare s.reset_send_data_event now s.queue in
    unless_die s (record {
      queue = q;
      calls = s.calls ++ calls;
      handles = waited_for handles;
      reset_send_data_event = false;
      destroyed = s.destroyed;
    })
step s (complete now index block) =
    unless_die s (after_wait now s block (get_elem? s.handles index))
step s giving_up = record s { queue = record (s.queue) { die = true } }
step s ending =
    if s.queue.die
    then record s {
      queue = shut_down s.queue;
      handles = [];
      destroyed = s.destroyed ++ pending_in s.queue.outbound_queues;
    }
    else s

unfoldable pub run : Machine → List Occurrence → Machine
unfolding step
run s [] = s
run s (e ∷ rest) = run (step s e) rest

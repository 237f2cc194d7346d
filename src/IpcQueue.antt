-- ===== src/IpcQueue.antt =====
-- Win32IpcMessageQueue of common/ipc_message_queue_win32.cc: the outbound queues of a process, the
-- calls that send, and the worker thread that waits, writes and reports.
--
-- OfProcess has the OutboundQueue of one process, Registry.antt the processes, Packets.antt the
-- writing of one outbound queue. Whether OutboundQueue::Open finds a process is the parameter
-- `opens`, the time is `now`, and what another process has left in the shared block of a queue is
-- the argument `block`. Times are milliseconds that are not negative. A handle carries the process
-- that its entry of `waiting_queues` names. A completion callback is a number for function and
-- parameter, `none` for NULL. What a callback or a handler sends is a later call of the operations.
mod OfProcess
pub mod Messages
pub mod Sending
pub mod Worker
pub mod Growth
pub mod Phases
pub mod Awaited
pub mod Assertions
pub mod Waits
pub mod Dying
pub mod Intact
pub mod Accounting
pub mod Silence
pub mod OneProcess
pub mod EachProcess
pub mod Broadcast
pub mod Handles
mod Tests
pub use OfProcess.{
  timeout_ms, OutboundQueue, new_outbound_queue, Handle, send_data, data_available, write_mutex,
  space_available, process_end,
}
unfoldable pub use OfProcess.{enqueue, write_messages, add_wait_handles}
use unix_thread_ipc.Prelude.{
  ℕ, ◌-◌, Bool, true, false, not, ◌||◌, Option, none, some, List, [], ◌∷◌, ◌++◌, ltb, ◌==◌,
  if◌then◌else◌, take,
}
use unix_thread_ipc.Prelude.Map
use unix_thread_ipc.Prelude.Map.{Map}
use unix_thread_ipc.Registry.{Registry, new_registry, remove, get_all}
use unix_thread_ipc.Packets.{
  Packet, IpcMessage, Outbound, new_outbound, is_empty_list, add_message_to_queue, write_pending,
  write_pending_messages,
}

pub record IpcQueue : Type 0 where
  pub die : Bool
  pub current_process_id : ℕ
  pub registry : Registry
  pub cached_registry : Registry
  pub outbound_queues : Map OutboundQueue
  pub successful_messages : List IpcMessage
  pub failed_messages : List IpcMessage
  pub send_data_event : Bool

-- A queue whose worker thread has started, in a process of the registry `r`.
abbrev pub new_ipc_queue : ℕ → Registry → IpcQueue
new_ipc_queue self r = record {
  die = false;
  current_process_id = self;
  registry = r;
  cached_registry = new_registry;
  outbound_queues = [];
  successful_messages = [];
  failed_messages = [];
  send_data_event = false;
}

-- `GetOutboundQueue`: whether there is one, and the state.
unfoldable pub get_outbound_queue : Bool → IpcQueue → ℕ → Bool × IpcQueue
get_outbound_queue opens q id = elim (Map.lookup id q.outbound_queues) [
  | some o ↦ (true, q)
  | none ↦
      if opens
      then (true, record q { outbound_queues = Map.insert id new_outbound_queue q.outbound_queues })
      else (false, q)
]

-- `outbound_queue->AddMessageToQueue`
unfoldable pub enqueue_to : ℕ → IpcQueue → ℕ → IpcMessage → IpcQueue
unfolding enqueue
enqueue_to now q id m = elim (Map.lookup id q.outbound_queues) [
  | none ↦ q
  | some o ↦ record q { outbound_queues = Map.insert id (enqueue now o m) q.outbound_queues }
]

unfoldable pub send_with_completion : Bool → ℕ → IpcQueue → IpcMessage → IpcQueue
unfolding get_outbound_queue enqueue_to
send_with_completion opens now q m =
    if q.die
    then q
    else (let (found, q') = get_outbound_queue opens q m.dest_process in
        record (if found
          then enqueue_to now q' m.dest_process m
          else record q' { failed_messages = q'.failed_messages ++ (m ∷ []) }) {
            send_data_event = true;
          })

-- The body of the loop of `SendToAll`: whether the message was added, and the state.
unfoldable pub send_to_one : (ℕ → Bool) → ℕ → Bool → IpcMessage → ℕ → IpcQueue → Bool × IpcQueue
unfolding get_outbound_queue enqueue_to
send_to_one opens now including_self m id q =
    if including_self || not (id == q.current_process_id)
    then (let (found, q') = get_outbound_queue (opens id) q id in
        if found then (true, enqueue_to now q' id m) else (
          false,
          if q.current_process_id == id
              then q'
              else record q' { registry = (remove q'.registry id).1 },
        ))
    else (false, q)

unfoldable pub send_to_each :
    (ℕ → Bool) → ℕ → Bool → IpcMessage → List ℕ → IpcQueue → Bool × IpcQueue
unfolding send_to_one
send_to_each opens now including_self m [] q = (false, q)
send_to_each opens now including_self m (id ∷ rest) q =
    let (added, q') = send_to_one opens now including_self m id q in
    let (later, q'') = send_to_each opens now including_self m rest q' in (added || later, q'')

unfoldable pub send_to_all : (ℕ → Bool) → ℕ → Bool → ℕ → List ℕ → IpcQueue → IpcQueue
unfolding send_to_each
send_to_all opens now including_self message_type bytes q =
    if q.die
    then q
    else (let m : IpcMessage = record {
      dest_process = 0;
      message_type = message_type;
      bytes = bytes;
      callback = none;
    } in
        let (processes, copy) = get_all q.cached_registry q.registry in
        let (added, q') =
          send_to_each opens now including_self m processes (record q { cached_registry = copy }) in
        if added then record q' { send_data_event = true } else q')

-- The loop over the outbound queues in `Run`, with `RemoveOutboundQueue`: the handles, the queues
-- that stay, and the messages of those that go.
unfoldable pub collect : ℕ → Map OutboundQueue → List Handle × Map OutboundQueue × List IpcMessage
unfolding add_wait_handles
collect now [] = ([], [], [])
collect now ((id, o) ∷ rest) =
    let (handles, kept, lost) = collect now rest in
    elim (add_wait_handles now id o) [
      | none ↦ (handles, kept, o.out.pending ++ lost)
      | some l ↦ (l ++ handles, (id, o) ∷ kept, lost)
    ]

-- A call of a completion callback.
pub record Completion : Type 0 where
  pub is_successful : Bool
  pub message : IpcMessage
  pub param : ℕ

abbrev pub completion : Bool → IpcMessage → Option ℕ → List Completion
completion ok m none = []
completion ok m (some c) = record { is_successful = ok; message = m; param = c } ∷ []

unfoldable pub report : Bool → List IpcMessage → List Completion
report ok [] = []
report ok (m ∷ rest) = completion ok m m.callback ++ report ok rest

-- `Run` from the top of its loop to the wait: the handles, the callbacks and the state.
unfoldable pub prepare : Bool → ℕ → IpcQueue → List Handle × List Completion × IpcQueue
unfolding collect report
prepare reset_send_data_event now q =
    let (handles, kept, lost) = collect now q.outbound_queues in
    (
      send_data ∷ data_available ∷ handles,
      report true q.successful_messages ++ report false (q.failed_messages ++ lost),
      record q {
        outbound_queues = kept;
        successful_messages = [];
        failed_messages = [];
        send_data_event = if reset_send_data_event then false else q.send_data_event;
      },
    )

-- `kMaxWaitHandles`
abbrev pub max_wait_handles : ℕ
max_wait_handles = 64

-- The handles that `WaitForMultipleObjectsEx` is called with.
abbrev pub waited_for : List Handle → List Handle
waited_for handles = take max_wait_handles handles

-- The messages written by a queue, which is put back.
abbrev pub after_write :
    ℕ → IpcQueue → List IpcMessage × OutboundQueue × List Packet → IpcQueue × List Packet
after_write id q (written, o, block) = (
  record q {
    successful_messages = q.successful_messages ++ written;
    outbound_queues = Map.insert id o q.outbound_queues;
  },
  block,
)

-- `OutboundQueue::WaitComplete` of the queue `o` of process `id`.
unfoldable pub queue_wait_complete :
    ℕ → IpcQueue → ℕ → OutboundQueue → Handle → List Packet → IpcQueue × List Packet
unfolding write_messages
queue_wait_complete now q id o (write_mutex _) block = after_write id q (
    write_messages q.current_process_id now
      (record o {
        last_active_time = now;
        out = record (o.out) { is_waiting_for_write_mutex = false; has_write_mutex = true };
      })
      block)
queue_wait_complete now q id o (space_available _) block = after_write id q (
    write_messages q.current_process_id now
      (record o { last_active_time = now; out = record (o.out) { is_waiting_for_space = false } })
      block)
queue_wait_complete now q id o _ block = (
  record q {
    outbound_queues =
        Map.insert id (record o { last_active_time = now; has_process = false }) q.outbound_queues;
    registry = (remove q.registry id).1;
  },
  block,
)

-- The process of a handle of an outbound queue.
abbrev pub process_of : Handle → Option ℕ
process_of (write_mutex id) = some id
process_of (space_available id) = some id
process_of (process_end id) = some id
process_of _ = none

-- `WaitComplete`, where the inbound queue changes nothing here.
unfoldable pub wait_complete : ℕ → IpcQueue → Handle → List Packet → IpcQueue × List Packet
unfolding queue_wait_complete
wait_complete now q handle block = elim (process_of handle) [
  | none ↦ (q, block)
  | some id ↦ elim (Map.lookup id q.outbound_queues) [
    | none ↦ (q, block)
    | some o ↦ queue_wait_complete now q id o handle block
  ]
]

-- The end of `InstanceThreadProc`.
unfoldable pub shut_down : IpcQueue → IpcQueue
shut_down q = record q {
  outbound_queues = [];
  registry = (remove q.registry q.current_process_id).1;
}

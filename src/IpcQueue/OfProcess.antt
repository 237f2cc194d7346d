-- ===== src/IpcQueue/OfProcess.antt =====
-- OutboundQueue of common/ipc_message_queue_win32.cc, with the times that decide how long it waits.
use unix_thread_ipc.Prelude.{
  ℕ, ◌-◌, Bool, true, not, ◌||◌, Option, none, some, List, [], ◌∷◌, ltb, if◌then◌else◌, take,
}
use unix_thread_ipc.Packets.{
  Packet, IpcMessage, Outbound, new_outbound, is_empty_list, add_message_to_queue, write_pending,
  write_pending_messages,
}

-- `kTimeoutMs`
abbrev pub timeout_ms : ℕ
timeout_ms = 60000

pub record OutboundQueue : Type 0 where
  pub out : Outbound
  pub has_process : Bool  -- `process_handle_` is not closed
  pub wait_start_time : ℕ
  pub last_active_time : ℕ

-- An OutboundQueue that is open.
abbrev pub new_outbound_queue : OutboundQueue
new_outbound_queue = record {
  out = new_outbound;
  has_process = true;
  wait_start_time = 0;
  last_active_time = 0;
}

-- `AddMessageToQueue` with the start of the wait in `MaybeWaitForWriteMutex`.
unfoldable pub enqueue : ℕ → OutboundQueue → IpcMessage → OutboundQueue
unfolding add_message_to_queue
enqueue now q m = record q {
  out = add_message_to_queue q.out m;
  wait_start_time =
      if q.out.has_write_mutex || q.out.is_waiting_for_write_mutex then q.wait_start_time else now;
}

-- What `WritePendingMessages` adds to `successful_messages_`, the queue, and its block.
unfoldable pub write_messages :
    ℕ → ℕ → OutboundQueue → List Packet → List IpcMessage × OutboundQueue × List Packet
unfolding write_pending write_pending_messages
write_messages source now q block =
    let n = (write_pending source q.out.pending q.out block true).0 in
    let (o, block') = write_pending_messages source q.out block in
    (
      take n q.out.pending,
      record q {
        out = o;
        wait_start_time = if is_empty_list o.pending then q.wait_start_time else now;
      },
      block',
    )

-- The kernel objects that the worker thread waits for.
pub data Handle : Type 0 where
  send_data : Handle
  data_available : Handle
  write_mutex : (process : ℕ) → Handle
  space_available : (process : ℕ) → Handle
  process_end : (process : ℕ) → Handle

-- `OutboundQueue::AddWaitHandles`, `none` for false.
unfoldable pub add_wait_handles : ℕ → ℕ → OutboundQueue → Option (List Handle)
add_wait_handles now id q =
    if not q.has_process
    then none
    else if is_empty_list q.out.pending
    then (if ltb timeout_ms (now - q.last_active_time) then none else some (process_end id ∷ []))
    else if ltb timeout_ms (now - q.wait_start_time)
    then none
    else if q.out.is_waiting_for_space
    then some (space_available id ∷ process_end id ∷ [])
    else if q.out.is_waiting_for_write_mutex
    then some (write_mutex id ∷ process_end id ∷ [])
    else some (process_end id ∷ [])

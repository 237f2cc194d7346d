-- ===== src/Packets.antt =====
-- OutboundQueue and InboundQueue of common/ipc_message_queue_win32.cc: messages of any length that
-- one process sends to another in packets, through a block of shared memory.
--
-- The block is a list of packets: a writer publishes a header and its data with one update of the
-- tail. CircularBuffer.antt is about the bytes in it. Its space is counted in bytes. A message is its serialized bytes. Sizes are below 2^31. `in_progress_message_` is a
-- flag, since it is read as one only. Waiting times, and the errors of the operating system, are
-- left out.
pub mod OneMessage
pub mod Writing
pub mod Transfer
mod Tests
use unix_thread_ipc.Prelude.{
  ℕ, zero, suc, ◌+◌, ◌-◌, Bool, true, false, Option, none, some, List, [], ◌∷◌, ◌++◌, ltb, ◌==◌,
  if◌then◌else◌, length, take, drop,
}

-- `IpcBuffer::kCapacity`
abbrev pub buffer_capacity : ℕ
buffer_capacity = 8183

-- sizeof(MessagePacketHeader)
abbrev pub header_size : ℕ
header_size = 20

-- `MessagePacketHeader`
pub record Header : Type 0 where
  pub msg_source : ℕ
  pub msg_type : ℕ
  pub sequence_number : ℕ
  pub last_packet : Bool
  pub packet_size : ℕ

pub record Packet : Type 0 where
  pub header : Header
  pub content : List ℕ

-- `ShareableIpcMessage`
pub record IpcMessage : Type 0 where
  pub dest_process : ℕ
  pub message_type : ℕ
  pub bytes : List ℕ
  pub callback : Option ℕ  -- with its parameter

pub record Outbound : Type 0 where
  pub pending : List IpcMessage
  pub in_progress : Bool
  pub in_progress_written : ℕ
  pub in_progress_sequence : ℕ
  pub has_write_mutex : Bool
  pub is_waiting_for_write_mutex : Bool
  pub is_waiting_for_space : Bool

abbrev pub new_outbound : Outbound
new_outbound = record {
  pending = [];
  in_progress = false;
  in_progress_written = 0;
  in_progress_sequence = 0;
  has_write_mutex = false;
  is_waiting_for_write_mutex = false;
  is_waiting_for_space = false;
}

-- `data_available` of the block.
abbrev pub used : List Packet → ℕ
used [] = 0
used (p ∷ rest) = header_size + length p.content + used rest

-- The end of `WriteOnePacket`, with the header that it has settled on.
abbrev pub put_packet : List Packet → Header → ℕ → List ℕ → Bool × Header × List Packet
put_packet pipe h space_needed msg_data =
    if ltb (buffer_capacity - used pipe) space_needed
    then (false, h, pipe)
    else (true, h, pipe ++ (record { header = h; content = take h.packet_size msg_data } ∷ []))

unfoldable pub write_one_packet : List Packet → Header → List ℕ → Bool → Bool × Header × List Packet
write_one_packet pipe h msg_data allow_large =
    if ltb buffer_capacity (header_size + h.packet_size)
    then (if allow_large
        then put_packet pipe
            (record h { packet_size = buffer_capacity - header_size; last_packet = false })
            buffer_capacity msg_data
        else (false, h, pipe))
    else put_packet pipe h (header_size + h.packet_size) msg_data

-- The packet that `WriteOneMessage` would like to send: what is left of the message.
abbrev pub wanted : ℕ → Outbound → IpcMessage → Header × List ℕ
wanted source o m =
    if o.in_progress
    then (
      record {
        msg_source = source;
        msg_type = m.message_type;
        sequence_number = o.in_progress_sequence + 1;
        last_packet = true;
        packet_size = length m.bytes - o.in_progress_written;
      },
      drop o.in_progress_written m.bytes,
    )
    else (
      record {
        msg_source = source;
        msg_type = m.message_type;
        sequence_number = 0;
        last_packet = true;
        packet_size = length m.bytes;
      },
      m.bytes,
    )

-- The end of `WriteOneMessage`, with the result of `WriteOnePacket`.
abbrev pub after_packet :
    Outbound → List Packet → Bool × Header × List Packet → Bool × Outbound × List Packet
after_packet o pipe (false, h, pipe') = (false, o, pipe)
after_packet o pipe (true, h, pipe') =
    if h.last_packet
    then (
      true,
      record o { in_progress = false; in_progress_written = 0; in_progress_sequence = 0 },
      pipe',
    )
    else (
      false,
      record o {
        in_progress = true;
        in_progress_written = o.in_progress_written + h.packet_size;
        in_progress_sequence = h.sequence_number;
      },
      pipe',
    )

unfoldable pub write_one_message :
    ℕ → Outbound → List Packet → IpcMessage → Bool → Bool × Outbound × List Packet
unfolding write_one_packet
write_one_message source o pipe m allow_large =
    after_packet o pipe
      (write_one_packet pipe (wanted source o m).0 (wanted source o m).1 allow_large)

-- The test behind one `WriteOneMessage`, with what the rest of the loop would do.
abbrev pub after_message :
    IpcMessage
    → List IpcMessage
    → Bool × Outbound × List Packet
    → ℕ × Outbound × List Packet
    → ℕ × Outbound × List Packet
after_message m rest (true, o, pipe) (n, o', pipe') = (suc n, o', pipe')
after_message m rest (false, o, pipe) later = (0, record o { pending = m ∷ rest }, pipe)

-- The loop of `WritePendingMessages`: `num_written`, the queue and the block.
unfoldable pub write_pending :
    ℕ → List IpcMessage → Outbound → List Packet → Bool → ℕ × Outbound × List Packet
unfolding write_one_message
write_pending source [] o pipe allow_large = (0, record o { pending = [] }, pipe)
write_pending source (m ∷ rest) o pipe allow_large =
    let out = write_one_message source o pipe m allow_large in
    after_message m rest out (write_pending source rest out.1 out.2 false)

abbrev pub is_empty_list : List IpcMessage → Bool
is_empty_list [] = true
is_empty_list (m ∷ rest) = false

-- `!num_written && !pending_.empty()`
abbrev pub stuck : ℕ × Outbound × List Packet → Bool
stuck (n, o, pipe) = if n == 0 then (if is_empty_list o.pending then false else true) else false

unfoldable pub write_pending_messages : ℕ → Outbound → List Packet → Outbound × List Packet
unfolding write_pending
write_pending_messages source o pipe =
    let (n, o', pipe') = write_pending source o.pending o pipe true in
    if stuck (n, o', pipe') then (record o' { is_waiting_for_space = true }, pipe') else (
      record o' {
        has_write_mutex = false;
        is_waiting_for_write_mutex =
            if is_empty_list o'.pending then o'.is_waiting_for_write_mutex else true;
      },
      pipe',
    )

-- `ReadOnePacket` of packet `p`: the new `message_data_buffer_`.
unfoldable pub read_one_packet : List ℕ → Packet → List ℕ
read_one_packet buffer p = (if p.header.sequence_number == 0 then [] else buffer) ++ p.content

-- What `ReadOneMessage` hands on: source, type and bytes.
pub record Arrival : Type 0 where
  pub msg_source : ℕ
  pub msg_type : ℕ
  pub bytes : List ℕ

-- `ReadAndDispatchMessages` on the packets of the block: the messages, and what is left in
-- `message_data_buffer_`.
unfoldable pub read_messages : List ℕ → List Packet → List Arrival × List ℕ
unfolding read_one_packet
read_messages buffer [] = ([], buffer)
read_messages buffer (p ∷ rest) =
    let buffer' = read_one_packet buffer p in
    let (finished, left) = read_messages [] rest in
    let after = read_messages buffer' rest in
    if p.header.last_packet
    then (
      record { msg_source = p.header.msg_source; msg_type = p.header.msg_type; bytes = buffer' }
          ∷ finished,
      left,
    )
    else after

-- `AddMessageToQueue` with `MaybeWaitForWriteMutex`
unfoldable pub add_message_to_queue : Outbound → IpcMessage → Outbound
add_message_to_queue o m = record o {
  pending = o.pending ++ (m ∷ []);
  is_waiting_for_write_mutex = if o.has_write_mutex then o.is_waiting_for_write_mutex else true;
}

-- `WaitComplete` for the write mutex.
unfoldable pub write_mutex_complete : ℕ → Outbound → List Packet → Outbound × List Packet
unfolding write_pending_messages
write_mutex_complete source o pipe =
    write_pending_messages source
      (record o { is_waiting_for_write_mutex = false; has_write_mutex = true }) pipe

-- `WaitComplete` for the event that space is available.
unfoldable pub space_complete : ℕ → Outbound → List Packet → Outbound × List Packet
unfolding write_pending_messages
space_complete source o pipe =
    write_pending_messages source (record o { is_waiting_for_space = false }) pipe

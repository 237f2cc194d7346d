-- ===== src/IpcQueue/Dying.antt =====
-- `die_`, which the operations leave alone.
use unix_thread_ipc.Prelude.{
  ℕ, ◌≡◌, refl, ◌∙◌, Bool, none, List, [], ◌∷◌, arith, Option-cases, inl, inr,
}
use unix_thread_ipc.Prelude.Map
use unix_thread_ipc.Prelude.Map.{Map, lookup-insert}
use unix_thread_ipc.Registry.{get_all}
use unix_thread_ipc.Packets.{Packet, IpcMessage}
use unix_thread_ipc.IpcQueue.{
  OutboundQueue, IpcQueue, Handle, send_data, data_available, write_mutex, space_available,
  process_end, process_of, enqueue_to, get_outbound_queue, send_with_completion, send_to_one,
  send_to_each, send_to_all, queue_wait_complete, wait_complete,
}

-- No operation changes `die_`.
get_outbound_queue-die :
    (opens : Bool) (q : IpcQueue) (id : ℕ) → (get_outbound_queue opens q id).1.die ≡ q.die
unfolding get_outbound_queue
get_outbound_queue-die opens q id = ground arith

enqueue_to-die :
    (now : ℕ) (q : IpcQueue) (id : ℕ) (m : IpcMessage) → (enqueue_to now q id m).die ≡ q.die
unfolding enqueue_to
enqueue_to-die now q id m = ground arith

pub send_with_completion-die :
    (opens : Bool) (now : ℕ) (q : IpcQueue) (m : IpcMessage)
    → (send_with_completion opens now q m).die ≡ q.die
unfolding send_with_completion
send_with_completion-die opens now q m = ground (
  arith,
  get_outbound_queue-die opens q m.dest_process,
  enqueue_to-die now (get_outbound_queue opens q m.dest_process).1 m.dest_process m,
)

send_to_one-die :
    (opens : ℕ → Bool) (now : ℕ) (including_self : Bool) (m : IpcMessage) (id : ℕ) (q : IpcQueue)
    → (send_to_one opens now including_self m id q).1.die ≡ q.die
unfolding send_to_one
send_to_one-die opens now including_self m id q = ground (
  arith,
  get_outbound_queue-die (opens id) q id,
  enqueue_to-die now (get_outbound_queue (opens id) q id).1 id m,
)

send_to_each-die :
    (opens : ℕ → Bool) (now : ℕ) (including_self : Bool) (m : IpcMessage) (ids : List ℕ)
    (q : IpcQueue)
    → (send_to_each opens now including_self m ids q).1.die ≡ q.die
unfolding send_to_each
send_to_each-die opens now including_self m [] q = refl
send_to_each-die opens now including_self m (id ∷ ids) q =
    let q' = (send_to_one opens now including_self m id q).1 in
    send_to_each-die opens now including_self m ids q'
    ∙ send_to_one-die opens now including_self m id q

pub send_to_all-die :
    (opens : ℕ → Bool) (now : ℕ) (including_self : Bool) (message_type : ℕ) (bytes : List ℕ)
    (q : IpcQueue)
    → (send_to_all opens now including_self message_type bytes q).die ≡ q.die
unfolding send_to_all
send_to_all-die opens now including_self message_type bytes q =
    let m : IpcMessage = record {
      dest_process = 0;
      message_type = message_type;
      bytes = bytes;
      callback = none;
    } in
    let (processes, copy) = get_all q.cached_registry q.registry in
    ground (
      arith,
      send_to_each-die opens now including_self m processes (record q { cached_registry = copy }),
    )

queue_wait_complete-die :
    (now : ℕ) (q : IpcQueue) (id : ℕ) (o : OutboundQueue) (handle : Handle) (block : List Packet)
    → (queue_wait_complete now q id o handle block).0.die ≡ q.die
unfolding queue_wait_complete
queue_wait_complete-die now q id o (write_mutex _) block = refl
queue_wait_complete-die now q id o (space_available _) block = refl
queue_wait_complete-die now q id o (process_end _) block = refl
queue_wait_complete-die now q id o send_data block = refl
queue_wait_complete-die now q id o data_available block = refl

pub wait_complete-die :
    (now : ℕ) (q : IpcQueue) (handle : Handle) (block : List Packet)
    → (wait_complete now q handle block).0.die ≡ q.die
unfolding wait_complete
wait_complete-die now q handle block = elim (Option-cases (process_of handle)) [
  | inl e ↦ rw (wait_complete, e) refl
  | inr (id, e) ↦ elim (Option-cases (Map.lookup id q.outbound_queues)) [
    | inl f ↦ rw (wait_complete, e, f) refl
    | inr (o, f) ↦ rw (wait_complete, e, f) (queue_wait_complete-die now q id o handle block)
  ]
]

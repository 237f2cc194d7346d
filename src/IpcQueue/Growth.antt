-- ===== src/IpcQueue/Growth.antt =====
-- A property of the outbound queues that the calls that send keep.
use unix_thread_ipc.Prelude.{
  ℕ, ◌≡◌, Bool, true, false, not, ◌||◌, none, some, List, [], ◌∷◌, ◌++◌, ◌==◌, if◌then◌else◌,
  Option-cases, inl, inr,
}
use unix_thread_ipc.Prelude.Map
use unix_thread_ipc.Prelude.Map.{Map}
use unix_thread_ipc.Registry.{remove, get_all}
use unix_thread_ipc.Packets.{IpcMessage}
use unix_thread_ipc.IpcQueue.{
  OutboundQueue, IpcQueue, new_outbound_queue, enqueue, enqueue_to, get_outbound_queue,
  send_with_completion, send_to_one, send_to_each, send_to_all,
}

-- It is kept when a queue is opened, and when a message is added to a queue.
module _ (P : Map OutboundQueue → Type 0)
    (opened : (m : Map OutboundQueue) (id : ℕ)
      → P m
      → Map.lookup id m ≡ none
      → P (Map.insert id new_outbound_queue m))
    (enqueued : (m : Map OutboundQueue) (id now : ℕ) (o : OutboundQueue) (message : IpcMessage)
      → P m
      → Map.lookup id m ≡ some o
      → P (Map.insert id (enqueue now o message) m)) where
  Keeping : IpcQueue → Type 0
  Keeping q = P q.outbound_queues

  either_branch :
      (b : Bool) (q q' : IpcQueue) → Keeping q → Keeping q' → Keeping (if b then q else q')
  either_branch true q q' h k = h
  either_branch false q q' h k = k

  get_outbound_queue-Keeping :
      (opens : Bool) (q : IpcQueue) (id : ℕ) → Keeping q → Keeping (get_outbound_queue opens q id).1
  unfolding get_outbound_queue Keeping
  get_outbound_queue-Keeping true q id h = elim (Option-cases (Map.lookup id q.outbound_queues)) [
    | inr (o, e) ↦ rw (get_outbound_queue, e) h
    | inl e ↦ rw (get_outbound_queue, e) (opened q.outbound_queues id h e)
  ]
  get_outbound_queue-Keeping false q id h = elim (Option-cases (Map.lookup id q.outbound_queues)) [
    | inr (o, e) ↦ rw (get_outbound_queue, e) h
    | inl e ↦ rw (get_outbound_queue, e) h
  ]

  enqueue_to-Keeping :
      (now : ℕ) (q : IpcQueue) (id : ℕ) (m : IpcMessage)
      → Keeping q
      → Keeping (enqueue_to now q id m)
  unfolding enqueue_to Keeping
  enqueue_to-Keeping now q id m h = elim (Option-cases (Map.lookup id q.outbound_queues)) [
    | inl e ↦ rw (enqueue_to, e) h
    | inr (o, e) ↦ rw (enqueue_to, e) (enqueued q.outbound_queues id now o m h e)
  ]

  pub send_with_completion-Keeping :
      (opens : Bool) (now : ℕ) (q : IpcQueue) (m : IpcMessage)
      → P q.outbound_queues
      → P (send_with_completion opens now q m).outbound_queues
  unfolding send_with_completion Keeping
  send_with_completion-Keeping opens now q m h =
      let (found, q') = get_outbound_queue opens q m.dest_process in
      let g = get_outbound_queue-Keeping opens q m.dest_process h in
      let queued = enqueue_to now q' m.dest_process m in
      let failed = record q' { failed_messages = q'.failed_messages ++ (m ∷ []) } in
      either_branch q.die q (record (if found then queued else failed) { send_data_event = true }) h
        (either_branch found queued failed (enqueue_to-Keeping now q' m.dest_process m g) g)

  each_outcome :
      (concerned found here : Bool) (q q1 q2 q3 : IpcQueue)
      → Keeping q
      → Keeping q1
      → Keeping q2
      → Keeping q3
      → Keeping
          (if◌then◌else◌ {A = Bool × IpcQueue} concerned
            (if found then (true, q1) else (false, if here then q2 else q3))
            (false, q)).1
  each_outcome true true here q q1 q2 q3 h h1 h2 h3 = h1
  each_outcome true false true q q1 q2 q3 h h1 h2 h3 = h2
  each_outcome true false false q q1 q2 q3 h h1 h2 h3 = h3
  each_outcome false found here q q1 q2 q3 h h1 h2 h3 = h

  send_to_one-Keeping :
      (opens : ℕ → Bool) (now : ℕ) (including_self : Bool) (m : IpcMessage) (id : ℕ) (q : IpcQueue)
      → Keeping q
      → Keeping (send_to_one opens now including_self m id q).1
  unfolding send_to_one Keeping
  send_to_one-Keeping opens now including_self m id q h =
      let (found, q') = get_outbound_queue (opens id) q id in
      let g = get_outbound_queue-Keeping (opens id) q id h in
      each_outcome (including_self || not (id == q.current_process_id)) found
        (q.current_process_id == id) q (enqueue_to now q' id m) q'
        (record q' { registry = (remove q'.registry id).1 }) h (enqueue_to-Keeping now q' id m g) g
        g

  send_to_each-Keeping :
      (opens : ℕ → Bool) (now : ℕ) (including_self : Bool) (m : IpcMessage) (ids : List ℕ)
      (q : IpcQueue)
      → Keeping q
      → Keeping (send_to_each opens now including_self m ids q).1
  unfolding send_to_each
  send_to_each-Keeping opens now including_self m [] q h = h
  send_to_each-Keeping opens now including_self m (id ∷ ids) q h =
      send_to_each-Keeping opens now including_self m ids
        (send_to_one opens now including_self m id q).1
        (send_to_one-Keeping opens now including_self m id q h)

  pub send_to_all-Keeping :
      (opens : ℕ → Bool) (now : ℕ) (including_self : Bool) (message_type : ℕ) (bytes : List ℕ)
      (q : IpcQueue)
      → P q.outbound_queues
      → P (send_to_all opens now including_self message_type bytes q).outbound_queues
  unfolding send_to_all Keeping
  send_to_all-Keeping opens now including_self message_type bytes q h =
      let m : IpcMessage = record {
        dest_process = 0;
        message_type = message_type;
        bytes = bytes;
        callback = none;
      } in
      let (processes, copy) = get_all q.cached_registry q.registry in
      let q0 = record q { cached_registry = copy } in
      let (added, q') = send_to_each opens now including_self m processes q0 in
      let k = send_to_each-Keeping opens now including_self m processes q0 h in
      either_branch q.die q (if added then record q' { send_data_event = true } else q') h
        (either_branch added (record q' { send_data_event = true }) q' k k)

-- ===== src/IpcQueue/OneProcess.antt =====
-- What `SendToAll` does for one process.
use unix_thread_ipc.Prelude.{
  ℕ, ◌≡◌, refl, ap, ◌∙◌, Bool, true, false, not, ◌&&◌, ◌||◌, Option, none, some, arith, ◌==◌,
  if◌then◌else◌, Bool-cases, inl, inr,
}
use unix_thread_ipc.Prelude.Map
use unix_thread_ipc.Prelude.Map.{Map, lookup-insert}
use unix_thread_ipc.Registry.{remove}
use unix_thread_ipc.Packets.{IpcMessage}
use unix_thread_ipc.Observers.{is_some}
use unix_thread_ipc.IpcQueue.{
  OutboundQueue, IpcQueue, new_outbound_queue, enqueue, enqueue_to, get_outbound_queue, send_to_one,
}

-- The queue that is there or is opened.
abbrev pub or_new : Option OutboundQueue → OutboundQueue
or_new none = new_outbound_queue
or_new (some o) = o

-- There is a queue to the process, or one can be opened.
abbrev pub is_reached : (ℕ → Bool) → IpcQueue → ℕ → Bool
is_reached opens q id = is_some (Map.lookup id q.outbound_queues) || opens id

-- A broadcast is for the process.
abbrev pub is_addressed : Bool → IpcQueue → ℕ → Bool
is_addressed including_self q id = including_self || not (id == q.current_process_id)

-- Only the registry and the outbound queues differ.
abbrev pub Frames : IpcQueue → IpcQueue → Type 0
Frames q q' = q' ≡ record q { registry = q'.registry; outbound_queues = q'.outbound_queues }

pub Frames-trans : (q q' q'' : IpcQueue) → Frames q q' → Frames q' q'' → Frames q q''
Frames-trans q q' q'' f g =
    g
    ∙ ap {A = IpcQueue} {B = IpcQueue}
        (λ x. record x { registry = q''.registry; outbound_queues = q''.outbound_queues }) f

module _ (opens : ℕ → Bool) (now : ℕ) (including_self : Bool) (m : IpcMessage) where
  -- A queue with the message added.
  abbrev pub with_message : Option OutboundQueue → Option OutboundQueue
  with_message o = some (enqueue now (or_new o) m)

  get_outbound_queue_lem :
      (q : IpcQueue) (id : ℕ)
      → let (found, q') = get_outbound_queue (opens id) q id in
        (found ≡ is_reached opens q id)
        × ((j : ℕ)
            → Map.lookup j q'.outbound_queues ≡ (
                if (id == j) && is_reached opens q id
                then some (or_new (Map.lookup id q.outbound_queues))
                else Map.lookup j q.outbound_queues))
        × (q'.registry ≡ q.registry)
        × (q'.current_process_id ≡ q.current_process_id)
  unfolding get_outbound_queue
  get_outbound_queue_lem q id = (
    ground arith,
    λ j. ground (arith, lookup-insert id j new_outbound_queue q.outbound_queues),
    ground arith,
    ground arith,
  )

  enqueue_to_lem :
      (q : IpcQueue) (id : ℕ) (o : OutboundQueue)
      → Map.lookup id q.outbound_queues ≡ some o
      → let q' = enqueue_to now q id m in
        ((j : ℕ)
          → Map.lookup j q'.outbound_queues
            ≡ (if id == j then some (enqueue now o m) else Map.lookup j q.outbound_queues))
        × (q'.registry ≡ q.registry)
        × (q'.current_process_id ≡ q.current_process_id)
  unfolding enqueue_to
  enqueue_to_lem q id o e =
      rw (enqueue_to, e) (λ j. lookup-insert id j (enqueue now o m) q.outbound_queues, refl, refl)

  get_outbound_queue-Frames :
      (q : IpcQueue) (id : ℕ) → Frames q (get_outbound_queue (opens id) q id).1
  unfolding get_outbound_queue
  get_outbound_queue-Frames q id = ground arith

  enqueue_to-Frames : (q : IpcQueue) (id : ℕ) → Frames q (enqueue_to now q id m)
  unfolding enqueue_to
  enqueue_to-Frames q id = ground arith

  pub send_to_one-Frames :
      (id : ℕ) (q : IpcQueue) → Frames q (send_to_one opens now including_self m id q).1
  unfolding send_to_one
  send_to_one-Frames id q =
      let (found, q') = get_outbound_queue (opens id) q id in
      let there =
        Frames-trans q q' (enqueue_to now q' id m) (get_outbound_queue-Frames q id)
          (enqueue_to-Frames q' id) in
      let gone : IpcQueue = record q' { registry = (remove q'.registry id).1 } in
      let away = Frames-trans q q' gone (get_outbound_queue-Frames q id) refl in
      ground (arith, there, away, get_outbound_queue-Frames q id)

  -- The message goes to this process.
  abbrev pub gets : IpcQueue → ℕ → Bool
  gets q id = is_addressed including_self q id && is_reached opens q id

  -- The process is taken out of the registry.
  abbrev pub loses : IpcQueue → ℕ → Bool
  loses q id =
      is_addressed including_self q id
      && (not (is_reached opens q id) && not (q.current_process_id == id))

  pub record IsSentTo (id : ℕ) (q : IpcQueue) (r : Bool × IpcQueue) : Type 0 where
    pub added : r.0 ≡ gets q id
    pub looked_up :
        (j : ℕ)
        → Map.lookup j r.1.outbound_queues ≡ (
            if (id == j) && gets q id
            then with_message (Map.lookup j q.outbound_queues)
            else Map.lookup j q.outbound_queues)
    pub registered : r.1.registry ≡ (if loses q id then (remove q.registry id).1 else q.registry)
    pub self : r.1.current_process_id ≡ q.current_process_id

  pub send_to_one-IsSentTo :
      (id : ℕ) (q : IpcQueue) → IsSentTo id q (send_to_one opens now including_self m id q)
  unfolding send_to_one
  send_to_one-IsSentTo id q =
      let (found, q') = get_outbound_queue (opens id) q id in
      let g = get_outbound_queue_lem q id in
      let o = or_new (Map.lookup id q.outbound_queues) in
      let e = enqueue_to_lem q' id o in
      elim (Bool-cases (is_addressed including_self q id)) [
        | inr away ↦
            rw (send_to_one, away)
              (record {
                added = ground (arith, away);
                looked_up = λ j. ground (arith, away);
                registered = ground (arith, away);
                self = refl;
              })
        | inl here ↦ elim (Bool-cases (is_reached opens q id)) [
          | inl there ↦
              let found_it : found ≡ true = ground (arith, g.0, there) in
              let at : Map.lookup id q'.outbound_queues ≡ some o = ground (arith, g.1 id, there) in
              let added = e at in
              rw (send_to_one, here, found_it)
                (record {
                  added = ground (arith, here, there);
                  looked_up = λ j. ground (arith, here, there, added.0 j, g.1 j);
                  registered = ground (arith, here, there, added.1, g.2);
                  self = ground (arith, added.2, g.3);
                })
          | inr nowhere ↦
              let not_found : found ≡ false = ground (arith, g.0, nowhere) in
              rw (send_to_one, here, not_found)
                (record {
                  added = ground (arith, here, nowhere);
                  looked_up = λ j. ground (arith, here, nowhere, g.1 j);
                  registered = ground (arith, here, nowhere, g.2);
                  self = ground (arith, g.3);
                })
        ]
      ]

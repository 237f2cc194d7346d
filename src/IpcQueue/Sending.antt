-- ===== src/IpcQueue/Sending.antt =====
-- What the calls that send add to the messages that an IPC queue holds.
use unix_thread_ipc.Prelude.{
  ℕ, ◌+◌, ◌≡◌, refl, ap, Bool, true, false, none, List, [], ◌∷◌, ◌++◌, arith, ◌==◌, if◌then◌else◌,
  Option-cases, inl, inr, ◌||◌, not,
}
use mathlib.Core.Path.{subst}
use unix_thread_ipc.Prelude.Map
use unix_thread_ipc.Prelude.Map.{Map, lookup-insert}
use unix_thread_ipc.Prelude.Ordered.{IsOrdered, insert-IsOrdered}
use unix_thread_ipc.Registry.{Registry, remove, get_all}
use unix_thread_ipc.Packets.{IpcMessage, add_message_to_queue}
use unix_thread_ipc.Observers.{is_some}
use unix_thread_ipc.IpcQueue.{
  IpcQueue, new_outbound_queue, enqueue, enqueue_to, get_outbound_queue, send_with_completion,
  send_to_one, send_to_each, send_to_all,
}
use unix_thread_ipc.IpcQueue.Messages.{count_of, held, pending_of, count_of-append, count_in-insert}

-- The step from `q` to `q'` adds `n` messages with the callback `c` to those that are held.
abbrev pub Gains : ℕ → ℕ → IpcQueue → IpcQueue → Type 0
Gains c n q q' = IsOrdered q'.outbound_queues × (held c q' ≡ held c q + n)

added-Gains :
    (c : ℕ) (q : IpcQueue) (id : ℕ)
    → IsOrdered q.outbound_queues
    → Map.lookup id q.outbound_queues ≡ none
    → Gains c 0 q
        (record q { outbound_queues = Map.insert id new_outbound_queue q.outbound_queues })
added-Gains c q id h e = (
  insert-IsOrdered id new_outbound_queue q.outbound_queues h,
  omega (
    arith,
    count_in-insert c id new_outbound_queue q.outbound_queues h,
    ap (λ o. count_of c (pending_of o)) e,
  ),
)

get_outbound_queue-Gains :
    (c : ℕ) (opens : Bool) (q : IpcQueue) (id : ℕ)
    → IsOrdered q.outbound_queues
    → Gains c 0 q (get_outbound_queue opens q id).1
unfolding get_outbound_queue
get_outbound_queue-Gains c true q id h = elim (Option-cases (Map.lookup id q.outbound_queues)) [
  | inr (o, e) ↦ rw (get_outbound_queue, e) (h, omega arith)
  | inl e ↦ rw (get_outbound_queue, e) (added-Gains c q id h e)
]
get_outbound_queue-Gains c false q id h = elim (Option-cases (Map.lookup id q.outbound_queues)) [
  | inr (o, e) ↦ rw (get_outbound_queue, e) (h, omega arith)
  | inl e ↦ rw (get_outbound_queue, e) (h, omega arith)
]

-- After `GetOutboundQueue` says so, there is a queue.
pub get_outbound_queue-found :
    (opens : Bool) (q : IpcQueue) (id : ℕ)
    → (get_outbound_queue opens q id).0 ≡ true
    → is_some (Map.lookup id (get_outbound_queue opens q id).1.outbound_queues) ≡ true
unfolding get_outbound_queue
get_outbound_queue-found opens q id h =
    ground (arith, h, lookup-insert id id new_outbound_queue q.outbound_queues)

enqueue_to-Gains :
    (c now : ℕ) (q : IpcQueue) (id : ℕ) (m : IpcMessage)
    → IsOrdered q.outbound_queues
    → is_some (Map.lookup id q.outbound_queues) ≡ true
    → Gains c (count_of c (m ∷ [])) q (enqueue_to now q id m)
unfolding enqueue_to enqueue add_message_to_queue
enqueue_to-Gains c now q id m h found = elim (Option-cases (Map.lookup id q.outbound_queues)) [
  | inl e ↦ absurd (ground (arith, e, found))
  | inr (o, e) ↦
      rw (enqueue_to, e)
        (
          insert-IsOrdered id (enqueue now o m) q.outbound_queues h,
          omega (
            arith,
            count_in-insert c id (enqueue now o m) q.outbound_queues h,
            ap (λ o. count_of c (pending_of o)) e,
            count_of-append c o.out.pending (m ∷ []),
          ),
        )
]

Gains-trans : (c n : ℕ) (q q' q'' : IpcQueue) → Gains c 0 q q' → Gains c n q' q'' → Gains c n q q''
Gains-trans c n q q' q'' g h = (h.0, omega (arith, g.1, h.1))

-- A queue that is dying drops what it is given.
unless_dying :
    (c n : ℕ) (die : Bool) (q q' : IpcQueue)
    → IsOrdered q.outbound_queues
    → Gains c n q q'
    → Gains c (if die then 0 else n) q (if die then q else q')
unless_dying c n true q q' h g = (h, omega arith)
unless_dying c n false q q' h g = g

signalled :
    (c n : ℕ) (found : Bool) (q q1 q2 : IpcQueue)
    → (found ≡ true → Gains c n q q1)
    → (found ≡ false → Gains c n q q2)
    → Gains c n q (record (if found then q1 else q2) { send_data_event = true })
signalled c n true q q1 q2 f g = f refl
signalled c n false q q1 q2 f g = g refl

pub send_with_completion-Gains :
    (c : ℕ) (opens : Bool) (now : ℕ) (q : IpcQueue) (m : IpcMessage)
    → IsOrdered q.outbound_queues
    → Gains c (if q.die then 0 else count_of c (m ∷ [])) q (send_with_completion opens now q m)
unfolding send_with_completion
send_with_completion-Gains c opens now q m h =
    let (found, q') = get_outbound_queue opens q m.dest_process in
    let g = get_outbound_queue-Gains c opens q m.dest_process h in
    let n = count_of c (m ∷ []) in
    let queued = enqueue_to now q' m.dest_process m in
    let failed = record q' { failed_messages = q'.failed_messages ++ (m ∷ []) } in
    unless_dying c n q.die q (record (if found then queued else failed) { send_data_event = true })
      h
      (signalled c n found q queued failed
        (λ e. Gains-trans c n q q' queued g (
          enqueue_to-Gains c now q' m.dest_process m g.0
            (get_outbound_queue-found opens q m.dest_process e)))
        (λ e. (g.0, omega (arith, g.1, count_of-append c q'.failed_messages (m ∷ [])))))

-- The outcomes of `send_to_one`.
abbrev sent : Bool → Bool → IpcQueue → IpcQueue → IpcQueue → Bool × IpcQueue
sent concerned found q q1 q2 =
    if concerned then (if found then (true, q1) else (false, q2)) else (false, q)

either_sent :
    (c : ℕ) (concerned found here : Bool) (q q1 q2 : IpcQueue) (r : Registry)
    → IsOrdered q.outbound_queues
    → (found ≡ true → Gains c 0 q q1)
    → Gains c 0 q q2
    → Gains c 0 q (sent concerned found q q1 (if here then q2 else record q2 { registry = r })).1
either_sent c true true here q q1 q2 r h f g = f refl
either_sent c true false true q q1 q2 r h f g = g
either_sent c true false false q q1 q2 r h f g = g
either_sent c false found here q q1 q2 r h f g = (h, omega arith)

-- A message without the callback changes no count.
send_to_one-Gains :
    (c : ℕ) (opens : ℕ → Bool) (now : ℕ) (including_self : Bool) (m : IpcMessage) (id : ℕ)
    (q : IpcQueue)
    → count_of c (m ∷ []) ≡ 0
    → IsOrdered q.outbound_queues
    → Gains c 0 q (send_to_one opens now including_self m id q).1
unfolding send_to_one
send_to_one-Gains c opens now including_self m id q none_such h =
    let (found, q') = get_outbound_queue (opens id) q id in
    let g = get_outbound_queue-Gains c (opens id) q id h in
    either_sent c (including_self || not (id == q.current_process_id)) found
      (q.current_process_id == id) q (enqueue_to now q' id m) q' (remove q'.registry id).1 h
      (λ e. Gains-trans c 0 q q' (enqueue_to now q' id m) g (
        subst (λ n. Gains c n q' (enqueue_to now q' id m)) none_such
          (enqueue_to-Gains c now q' id m g.0 (get_outbound_queue-found (opens id) q id e))))
      g

send_to_each-Gains :
    (c : ℕ) (opens : ℕ → Bool) (now : ℕ) (including_self : Bool) (m : IpcMessage) (ids : List ℕ)
    (q : IpcQueue)
    → count_of c (m ∷ []) ≡ 0
    → IsOrdered q.outbound_queues
    → Gains c 0 q (send_to_each opens now including_self m ids q).1
unfolding send_to_each
send_to_each-Gains c opens now including_self m [] q none_such h = (h, omega arith)
send_to_each-Gains c opens now including_self m (id ∷ ids) q none_such h =
    let q' = (send_to_one opens now including_self m id q).1 in
    let g = send_to_one-Gains c opens now including_self m id q none_such h in
    Gains-trans c 0 q q' (send_to_each opens now including_self m ids q').1 g
      (send_to_each-Gains c opens now including_self m ids q' none_such g.0)

set_or_not :
    (c : ℕ) (added : Bool) (q q' : IpcQueue)
    → Gains c 0 q q'
    → Gains c 0 q (if added then record q' { send_data_event = true } else q')
set_or_not c true q q' g = g
set_or_not c false q q' g = g

zero_either : (b : Bool) → ◌≡◌ {A = ℕ} (if b then 0 else 0) 0
zero_either true = refl
zero_either false = refl

pub send_to_all-Gains :
    (c : ℕ) (opens : ℕ → Bool) (now : ℕ) (including_self : Bool) (message_type : ℕ) (bytes : List ℕ)
    (q : IpcQueue)
    → IsOrdered q.outbound_queues
    → Gains c 0 q (send_to_all opens now including_self message_type bytes q)
unfolding send_to_all
send_to_all-Gains c opens now including_self message_type bytes q h =
    let m : IpcMessage = record {
      dest_process = 0;
      message_type = message_type;
      bytes = bytes;
      callback = none;
    } in
    let (processes, copy) = get_all q.cached_registry q.registry in
    let q0 = record q { cached_registry = copy } in
    let (added, q') = send_to_each opens now including_self m processes q0 in
    let q'' = if added then record q' { send_data_event = true } else q' in
    let g : Gains c 0 q q' = send_to_each-Gains c opens now including_self m processes q0 refl h in
    subst (λ n. Gains c n q (if q.die then q else q'')) (zero_either q.die)
      (unless_dying c 0 q.die q q'' h (set_or_not c added q q' g))

-- ===== src/IpcQueue/Broadcast.antt =====
-- Where `SendToAll` puts its message, and which processes it takes out of the registry.
use unix_thread_ipc.Prelude.{
  ℕ, ◌≤◌, ◌≡◌, refl, sym, ap, ◌∙◌, Bool, true, false, not, ◌&&◌, ◌||◌, none, List, arith, ◌==◌,
  if◌then◌else◌,
}
use mathlib.Core.Path.{subst}
use unix_thread_ipc.Prelude.Map
use unix_thread_ipc.Prelude.Map.{Map, lookup-insert}
use unix_thread_ipc.Registry.{Registry, get_all}
use unix_thread_ipc.Registry.Cells.{count, Holds}
use unix_thread_ipc.Registry.Add.{get_all_lem}
use unix_thread_ipc.Packets.{IpcMessage}
use unix_thread_ipc.IpcQueue.{IpcQueue, send_to_each, send_to_all}
use unix_thread_ipc.IpcQueue.OneProcess.{with_message, gets, loses, Frames}
use unix_thread_ipc.IpcQueue.EachProcess.{
  any_gets, send_to_each-lookup, send_to_each-Holds, send_to_each-added, send_to_each-Frames,
}

either_alive : {A : Type 0} (die : Bool) (a b : A) → die ≡ false → (if die then a else b) ≡ b
either_alive true a b e = absurd (ground (arith, e))
either_alive false a b e = refl

when_added :
    (added : Bool) (q : IpcQueue)
    → let q' = if added then record q { send_data_event = true } else q in
      (q'.outbound_queues ≡ q.outbound_queues)
      × (q'.registry ≡ q.registry)
      × (q' ≡ record q { send_data_event = added || q.send_data_event })
when_added true q = (refl, refl, refl)
when_added false q = (refl, refl, refl)

-- The frame of the whole call, from that of the loop.
broadcast-framed :
    (added any : Bool) (copy : Registry) (q q1 : IpcQueue)
    → Frames (record q { cached_registry = copy }) q1
    → copy ≡ q.registry
    → added ≡ any
    → let q' = if added then record q1 { send_data_event = true } else q1 in
      q' ≡ record q {
        registry = q'.registry;
        outbound_queues = q'.outbound_queues;
        cached_registry = q.registry;
        send_data_event = any || q.send_data_event;
      }
broadcast-framed true any copy q q1 f g e = ground (arith, f, g, e)
broadcast-framed false any copy q q1 f g e = ground (arith, f, g, e)

-- What holds behind `SendToAll`, for the process `j`.
abbrev pub IsBroadcast :
    (ℕ → Bool) → ℕ → Bool → IpcMessage → List ℕ → IpcQueue → IpcQueue → ℕ → Type 0
IsBroadcast opens now including_self m ids q q' j =
    (Map.lookup j q'.outbound_queues ≡ (
      if not (count j ids == 0) && gets opens now including_self m q j
      then with_message opens now including_self m (Map.lookup j q.outbound_queues)
      else Map.lookup j q.outbound_queues))
    × ((ids' : List ℕ) × Holds q'.registry ids'
        × (count j ids' ≡ (
            if not (count j ids == 0) && loses opens now including_self m q j
            then 0
            else count j ids)))
    × (q' ≡ record q {
      registry = q'.registry;
      outbound_queues = q'.outbound_queues;
      cached_registry = q.registry;
      send_data_event = any_gets opens now including_self m q ids || q.send_data_event;
    })

-- Unless the worker thread has given up, `SendToAll` adds its message, once and behind all others, to the outbound queue of each
-- process of the registry that it is for and that has a queue or can be opened. It takes out of the
-- registry those that it is for and that cannot be reached, except its own process; the registry
-- stays without gaps and duplicates. The event is set exactly if the message was added to a queue, and
-- else stays as it is, and the cached copy is the registry as it was before. Nothing else changes:
-- neither another process's queue or registration, nor the lists of messages to be reported. The
-- registry is valid, and the cached copy is exact if its revision is the current one.
pub send_to_all-IsBroadcast :
    (opens : ℕ → Bool) (now : ℕ) (including_self : Bool) (message_type : ℕ) (bytes : List ℕ)
    (q : IpcQueue) (ids : List ℕ) (j : ℕ)
    → q.die ≡ false
    → Holds q.registry ids
    → (q.cached_registry.revision ≡ q.registry.revision → q.cached_registry ≡ q.registry)
    → IsBroadcast opens now including_self
        (record { dest_process = 0; message_type = message_type; bytes = bytes; callback = none })
        ids
        q
        (send_to_all opens now including_self message_type bytes q)
        j
unfolding send_to_all
send_to_all-IsBroadcast opens now including_self message_type bytes q ids j alive v exact =
    let m : IpcMessage = record {
      dest_process = 0;
      message_type = message_type;
      bytes = bytes;
      callback = none;
    } in
    let (processes, copy) = get_all q.cached_registry q.registry in
    let q0 = record q { cached_registry = copy } in
    let (added, q1) = send_to_each opens now including_self m processes q0 in
    let q2 = if added then record q1 { send_data_event = true } else q1 in
    let all : processes ≡ ids = ap (λ r. r.0) (get_all_lem q.cached_registry v exact) in
    let u : (x : ℕ) → count x processes ≤ 1 =
      subst (λ l. (x : ℕ) → count x l ≤ 1) (sym all) v.unique in
    let z : count 0 processes ≡ 0 = subst (λ l. count 0 l ≡ 0) (sym all) v.nonzero in
    let same = when_added added q1 in
    let each = send_to_each-Holds opens now including_self m processes q0 ids u z v in
    let result : IsBroadcast opens now including_self m processes q q2 j = (
      ap (Map.lookup j) same.0 ∙ send_to_each-lookup opens now including_self m processes q0 j u,
      (
        each.0,
        subst (λ r. Holds r each.0) (sym same.1) each.1,
        each.2 j
            ∙ ap
                (λ l.
                  if not (count j processes == 0) && loses opens now including_self m q j
                  then 0
                  else count j l)
                (sym all),
      ),
      broadcast-framed added (any_gets opens now including_self m q processes) copy q q1
          (send_to_each-Frames opens now including_self m processes q0)
          (ap (λ r. r.1) (get_all_lem q.cached_registry v exact))
          (send_to_each-added opens now including_self m processes q0 u),
    ) in
    subst (λ r. IsBroadcast opens now including_self m ids q r j)
      (sym (either_alive q.die q q2 alive))
      (subst (λ l. IsBroadcast opens now including_self m l q q2 j) all result)

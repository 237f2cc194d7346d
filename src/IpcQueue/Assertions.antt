-- ===== src/IpcQueue/Assertions.antt =====
-- The assertions of OutboundQueue, over any history of a queue.
use unix_thread_ipc.Prelude.{
  ℕ, zero, suc, ◌≡◌, Bool, true, false, Option, none, some, List, [], ◌∷◌, ◌++◌, if◌then◌else◌,
  Option-cases, inl, inr, All, get_elem?,
}
use mathlib.Core.Path.{subst}
use unix_thread_ipc.Prelude.Map
use unix_thread_ipc.Prelude.Map.{Map, lookup-insert}
use unix_thread_ipc.Prelude.Ordered.{
  IsOrdered, WhenSome, insert-IsOrdered, Values-insert, lookup-Values,
}
use unix_thread_ipc.Registry.{Registry}
use unix_thread_ipc.Packets.{Packet, write_mutex_complete, space_complete}
use unix_thread_ipc.IpcQueue.{
  OutboundQueue, IpcQueue, Handle, send_data, data_available, write_mutex, space_available,
  process_end, prepare, waited_for, max_wait_handles, queue_wait_complete, wait_complete, shut_down,
  write_messages,
}
use unix_thread_ipc.IpcQueue.Phases.{
  IsPhased, write_mutex_complete-IsPhased, space_complete-IsPhased,
}
use unix_thread_ipc.IpcQueue.Growth.{send_with_completion-Keeping, send_to_all-Keeping}
use unix_thread_ipc.IpcQueue.Worker.{
  Occurrence, send, broadcast, pass, complete, giving_up, ending, Machine, new_machine, after_wait,
  step, run,
}
use unix_thread_ipc.IpcQueue.Awaited.{
  waits_for_mutex, waits_for_space, IsAwaited, ArePhased, IsSafe, opened-IsSafe, enqueued-IsSafe,
  collect-IsSafe, All-take,
}

put-IsSafe :
    (id : ℕ) (o : OutboundQueue) (m : Map OutboundQueue)
    → IsOrdered m
    → ArePhased m
    → IsPhased o.out
    → IsSafe [] (Map.insert id o m)
put-IsSafe id o m h p k =
    (insert-IsOrdered id o m h, Values-insert (λ o. IsPhased o.out) id o m k p, tt)

found-IsPhased :
    (id : ℕ) (o : OutboundQueue) (m : Map OutboundQueue)
    → ArePhased m
    → Map.lookup id m ≡ some o
    → IsPhased o.out
found-IsPhased id o m p e =
    subst (WhenSome (λ o. IsPhased o.out)) e (lookup-Values (λ o. IsPhased o.out) id m p)

wait_complete-IsSafe :
    (now : ℕ) (q : IpcQueue) (handle : Handle) (block : List Packet)
    → IsOrdered q.outbound_queues
    → ArePhased q.outbound_queues
    → IsAwaited q.outbound_queues handle
    → IsSafe [] (wait_complete now q handle block).0.outbound_queues
unfolding wait_complete queue_wait_complete write_messages write_mutex_complete space_complete
wait_complete-IsSafe now q send_data block h p w = (h, p, tt)
wait_complete-IsSafe now q data_available block h p w = (h, p, tt)
wait_complete-IsSafe now q (write_mutex id) block h p w =
    elim (Option-cases (Map.lookup id q.outbound_queues)) [
      | inl e ↦ rw (wait_complete, e) (h, p, tt)
      | inr (o, e) ↦
          let o' = record o {
            last_active_time = now;
            out = record (o.out) { is_waiting_for_write_mutex = false; has_write_mutex = true };
          } in
          rw (wait_complete, e)
            (put-IsSafe id (write_messages q.current_process_id now o' block).1 q.outbound_queues h
              p
              (write_mutex_complete-IsPhased q.current_process_id o.out block
                (found-IsPhased id o q.outbound_queues p e)
                (subst (λ x. waits_for_mutex x ≡ true) e w)))
    ]
wait_complete-IsSafe now q (space_available id) block h p w =
    elim (Option-cases (Map.lookup id q.outbound_queues)) [
      | inl e ↦ rw (wait_complete, e) (h, p, tt)
      | inr (o, e) ↦
          let o' = record o {
            last_active_time = now;
            out = record (o.out) { is_waiting_for_space = false };
          } in
          rw (wait_complete, e)
            (put-IsSafe id (write_messages q.current_process_id now o' block).1 q.outbound_queues h
              p
              (space_complete-IsPhased q.current_process_id o.out block
                (found-IsPhased id o q.outbound_queues p e)
                (subst (λ x. waits_for_space x ≡ true) e w)))
    ]
wait_complete-IsSafe now q (process_end id) block h p w =
    elim (Option-cases (Map.lookup id q.outbound_queues)) [
      | inl e ↦ rw (wait_complete, e) (h, p, tt)
      | inr (o, e) ↦
          rw (wait_complete, e)
            (put-IsSafe id (record o { last_active_time = now; has_process = false })
              q.outbound_queues h p (found-IsPhased id o q.outbound_queues p e))
    ]

abbrev IsSafeMachine : Machine → Type 0
IsSafeMachine s = IsSafe s.handles s.queue.outbound_queues

unless_die-IsSafe :
    (die : Bool) (s s' : Machine)
    → IsSafeMachine s
    → IsSafeMachine s'
    → IsSafeMachine (if die then s else s')
unless_die-IsSafe true s s' h k = h
unless_die-IsSafe false s s' h k = k

get_elem?-All :
    {A : Type 0} (P : A → Type 0) (l : List A) (i : ℕ) → All P l → WhenSome P (get_elem? l i)
get_elem?-All P [] i h = tt
get_elem?-All P (a ∷ l) zero h = h.0
get_elem?-All P (a ∷ l) (suc i) h = get_elem?-All P l i h.1

after_wait-IsSafe :
    (now : ℕ) (s : Machine) (block : List Packet) (o : Option Handle)
    → IsSafeMachine s
    → WhenSome (IsAwaited s.queue.outbound_queues) o
    → IsSafeMachine (after_wait now s block o)
after_wait-IsSafe now s block none h w = h
after_wait-IsSafe now s block (some handle) h w =
    wait_complete-IsSafe now s.queue handle block h.0 h.1 w

step-IsSafe : (s : Machine) (e : Occurrence) → IsSafeMachine s → IsSafeMachine (step s e)
unfolding step prepare shut_down
step-IsSafe s (send opens now m) h =
    send_with_completion-Keeping (IsSafe s.handles) (opened-IsSafe s.handles)
      (enqueued-IsSafe s.handles) opens now s.queue m h
step-IsSafe s (broadcast opens now including_self message_type bytes) h =
    send_to_all-Keeping (IsSafe s.handles) (opened-IsSafe s.handles) (enqueued-IsSafe s.handles)
      opens now including_self message_type bytes s.queue h
step-IsSafe s (pass now) h =
    let (handles, calls, q) = prepare s.reset_send_data_event now s.queue in
    let c = collect-IsSafe now s.queue.outbound_queues h.0 h.1 in
    unless_die-IsSafe s.queue.die s
      (record {
        queue = q;
        calls = s.calls ++ calls;
        handles = waited_for handles;
        reset_send_data_event = false;
        destroyed = s.destroyed;
      })
      h (c.0, c.1, All-take (IsAwaited q.outbound_queues) max_wait_handles handles (tt, (tt, c.2)))
step-IsSafe s (complete now index block) h =
    unless_die-IsSafe s.queue.die s (after_wait now s block (get_elem? s.handles index)) h (
      after_wait-IsSafe now s block (get_elem? s.handles index) h
        (get_elem?-All (IsAwaited s.queue.outbound_queues) s.handles index h.2))
step-IsSafe s giving_up h = h
step-IsSafe s ending h = unless_die-IsSafe s.queue.die _ s (tt, tt, tt) h

all-IsSafe : (s : Machine) (l : List Occurrence) → IsSafeMachine s → IsSafeMachine (run s l)
unfolding run
all-IsSafe s [] h = h
all-IsSafe s (e ∷ l) h = all-IsSafe (step s e) l (step-IsSafe s e h)

-- Whatever happens to a queue, each of its outbound queues is idle with nothing pending, or has
-- messages and waits for exactly one of the write mutex and space, as AddWaitHandles asserts. It
-- has the write mutex exactly while it waits for space, and only then is a message in progress, as
-- WaitComplete and WritePendingMessages assert.
pub run-ArePhased :
    (self : ℕ) (r : Registry) (l : List Occurrence)
    → ArePhased (run (new_machine self r) l).queue.outbound_queues
run-ArePhased self r l = (all-IsSafe (new_machine self r) l (tt, tt, tt)).1

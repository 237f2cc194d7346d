-- ===== src/IpcQueue/Waits.antt =====
-- The messages in the worker thread's hands: `prepare` and `wait_complete`.
use unix_thread_ipc.Prelude.{
  ℕ, ◌+◌, ◌≡◌, ap, Bool, true, false, List, ◌++◌, arith, Option-cases, inl, inr,
}
use unix_thread_ipc.Prelude.Map
use unix_thread_ipc.Prelude.Map.{Map, lookup-insert}
use unix_thread_ipc.Prelude.Ordered.{IsOrdered, insert-IsOrdered}
use unix_thread_ipc.Registry.{remove}
use unix_thread_ipc.Packets.{Packet}
use unix_thread_ipc.IpcQueue.{
  OutboundQueue, IpcQueue, Handle, send_data, data_available, write_mutex, space_available,
  process_end, process_of, write_messages, collect, report, prepare, after_write,
  queue_wait_complete, wait_complete,
}
use unix_thread_ipc.IpcQueue.Messages.{
  count_of, held, count_calls, pending_of, count_of-append, count_calls-append, count_calls-report,
  count_in-insert, collect_lem, write_messages_lem,
}
use unix_thread_ipc.IpcQueue.Sending.{Gains}

pub prepare_lem :
    (c : ℕ) (reset : Bool) (now : ℕ) (q : IpcQueue)
    → let (handles, calls, q') = prepare reset now q in count_calls c calls + held c q' ≡ held c q
unfolding prepare
prepare_lem c reset now q =
    let lost = (collect now q.outbound_queues).2 in
    omega (
      arith,
      count_calls-append c (report true q.successful_messages)
          (report false (q.failed_messages ++ lost)),
      count_calls-report c true q.successful_messages,
      count_calls-report c false (q.failed_messages ++ lost),
      count_of-append c q.failed_messages lost,
      collect_lem c now q.outbound_queues,
    )

after_write-Gains :
    (c now id : ℕ) (q : IpcQueue) (o : OutboundQueue) (block : List Packet)
    → IsOrdered q.outbound_queues
    → count_of c (pending_of (Map.lookup id q.outbound_queues)) ≡ count_of c o.out.pending
    → Gains c 0 q (after_write id q (write_messages q.current_process_id now o block)).0
after_write-Gains c now id q o block h e =
    let (written, o', block') = write_messages q.current_process_id now o block in
    (
      insert-IsOrdered id o' q.outbound_queues h,
      omega (
        arith,
        count_in-insert c id o' q.outbound_queues h,
        write_messages_lem c q.current_process_id now o block,
        count_of-append c q.successful_messages written,
        e,
      ),
    )

closed-Gains :
    (c now id : ℕ) (q : IpcQueue) (o : OutboundQueue)
    → IsOrdered q.outbound_queues
    → count_of c (pending_of (Map.lookup id q.outbound_queues)) ≡ count_of c o.out.pending
    → Gains c 0 q (record q {
      outbound_queues =
          Map.insert id
            (record o { last_active_time = now; has_process = false })
            q.outbound_queues;
      registry = (remove q.registry id).1;
    })
closed-Gains c now id q o h e =
    let o' = record o { last_active_time = now; has_process = false } in
    (
      insert-IsOrdered id o' q.outbound_queues h,
      omega (arith, count_in-insert c id o' q.outbound_queues h, e),
    )

queue_wait_complete-Gains :
    (c now : ℕ) (q : IpcQueue) (id : ℕ) (o : OutboundQueue) (handle : Handle) (block : List Packet)
    → IsOrdered q.outbound_queues
    → count_of c (pending_of (Map.lookup id q.outbound_queues)) ≡ count_of c o.out.pending
    → Gains c 0 q (queue_wait_complete now q id o handle block).0
unfolding queue_wait_complete
queue_wait_complete-Gains c now q id o (write_mutex _) block h e =
    after_write-Gains c now id q
      (record o {
        last_active_time = now;
        out = record (o.out) { is_waiting_for_write_mutex = false; has_write_mutex = true };
      })
      block h e
queue_wait_complete-Gains c now q id o (space_available _) block h e =
    after_write-Gains c now id q
      (record o { last_active_time = now; out = record (o.out) { is_waiting_for_space = false } })
      block h e
queue_wait_complete-Gains c now q id o (process_end _) block h e = closed-Gains c now id q o h e
queue_wait_complete-Gains c now q id o send_data block h e = closed-Gains c now id q o h e
queue_wait_complete-Gains c now q id o data_available block h e = closed-Gains c now id q o h e

pub wait_complete-Gains :
    (c now : ℕ) (q : IpcQueue) (handle : Handle) (block : List Packet)
    → IsOrdered q.outbound_queues
    → Gains c 0 q (wait_complete now q handle block).0
unfolding wait_complete
wait_complete-Gains c now q handle block h = elim (Option-cases (process_of handle)) [
  | inl e ↦ rw (wait_complete, e) (h, omega arith)
  | inr (id, e) ↦ elim (Option-cases (Map.lookup id q.outbound_queues)) [
    | inl f ↦ rw (wait_complete, e, f) (h, omega arith)
    | inr (o, f) ↦
        rw (wait_complete, e, f)
          (queue_wait_complete-Gains c now q id o handle block h
            (ap (λ x. count_of c (pending_of x)) f))
  ]
]

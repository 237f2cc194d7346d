-- ===== src/IpcQueue/Tests.antt =====
-- Examples for the inter-process queue: process 5, with processes 6 and 7 in the registry. No queue
-- to process 7 can be opened.
use unix_thread_ipc.Prelude.{
  ℕ, ◌+◌, ◌≡◌, refl, Bool, true, false, not, none, some, List, [], ◌∷◌, ◌++◌, ◌==◌, arith,
  replicate,
}
use unix_thread_ipc.Prelude.Map
use unix_thread_ipc.Registry.{Registry, get_all}
use unix_thread_ipc.Registry.Cells.{Holds}
use unix_thread_ipc.Packets.{IpcMessage}
use unix_thread_ipc.IpcQueue.{
  IpcQueue, new_ipc_queue, send_to_all, prepare, collect, report, waited_for, shut_down,
}
use unix_thread_ipc.IpcQueue.Messages.{count_of, held, count_calls}
use unix_thread_ipc.IpcQueue.Worker.{
  Occurrence, send, broadcast, pass, complete, giving_up, ending, new_machine, step, run,
}
use unix_thread_ipc.IpcQueue.Awaited.{ArePhased}
use unix_thread_ipc.IpcQueue.Accounting.{run-accounting}
use unix_thread_ipc.IpcQueue.Assertions.{run-ArePhased}
use unix_thread_ipc.IpcQueue.Silence.{giving_up-silent}
use unix_thread_ipc.IpcQueue.Handles.{staying, given_up, told, prepare-waited_for, prepare-staying}
use unix_thread_ipc.IpcQueue.Broadcast.{IsBroadcast, send_to_all-IsBroadcast}

abbrev registry : Registry
registry = record { revision = 3; processes = (5 ∷ 6 ∷ 7 ∷ []) ++ replicate 28 0 }

registry-Holds : Holds registry (5 ∷ 6 ∷ 7 ∷ [])
registry-Holds = record {
  free = 28;
  cells = refl;
  size = refl;
  nonzero = refl;
  unique = λ x. ground arith;
}

abbrev opens : ℕ → Bool
opens id = not (id == 7)

abbrev hello : IpcMessage
hello = record { dest_process = 6; message_type = 1; bytes = 65 ∷ []; callback = some 9 }

abbrev lost : IpcMessage
lost = record { dest_process = 7; message_type = 1; bytes = 66 ∷ []; callback = some 9 }

abbrev events : List Occurrence
events =
    send true 100 hello
    ∷ send false 101 lost
    ∷ pass 102
    ∷ complete 103 2 []
    ∷ broadcast opens 104 true 2 (67 ∷ [])
    ∷ pass 105
    ∷ send true 106 hello
    ∷ giving_up
    ∷ send true 107 hello
    ∷ ending
    ∷ []

run-accounting_example :
    (count_calls 9 (run (new_machine 5 registry) events).calls
        + (held 9 (run (new_machine 5 registry) events).queue
            + count_of 9 (run (new_machine 5 registry) events).destroyed)
      ≡ 3)
    × ((run (new_machine 5 registry) events).queue.die ≡ false
        → (run (new_machine 5 registry) events).destroyed ≡ [])
run-accounting_example = run-accounting 9 5 registry events

-- The third message is destroyed with its queue.
reported : count_calls 9 (run (new_machine 5 registry) events).calls ≡ 2
unfolding run Map.lookup Map.insert get_all
reported = refl

cleared : count_of 9 (run (new_machine 5 registry) events).destroyed ≡ 1
unfolding run Map.lookup Map.insert get_all
cleared = refl

run-ArePhased_example : ArePhased (run (new_machine 5 registry) events).queue.outbound_queues
run-ArePhased_example = run-ArePhased 5 registry events

abbrev waiting : IpcQueue
waiting = (run (new_machine 5 registry) (send true 100 hello ∷ [])).queue

prepare-waited_for_example :
    waited_for (prepare false 102 waiting).0 ≡ (prepare false 102 waiting).0
unfolding run Map.lookup Map.insert
prepare-waited_for_example = prepare-waited_for false 102 waiting (omega arith)

-- After more than a minute.
prepare-staying_example :
    (Map.lookup 6 (prepare false 60101 waiting).2.outbound_queues
      ≡ staying 60101 (Map.lookup 6 waiting.outbound_queues))
    × ((prepare false 60101 waiting).1
        ≡ told true waiting.successful_messages
          ++ told false (waiting.failed_messages ++ given_up 60101 waiting.outbound_queues))
    × ((prepare false 60101 waiting).2.successful_messages ≡ [])
    × ((prepare false 60101 waiting).2.failed_messages ≡ [])
unfolding run Map.lookup Map.insert
prepare-staying_example = prepare-staying false 60101 waiting 6 (tt, tt)

timed_out :
    (prepare false 60101 waiting).1
    ≡ record { is_successful = false; message = hello; param = 9 } ∷ []
unfolding run prepare collect report Map.lookup Map.insert
timed_out = refl

send_to_all-IsBroadcast_example :
    IsBroadcast opens 104 false
      (record { dest_process = 0; message_type = 2; bytes = 67 ∷ []; callback = none })
      (5 ∷ 6 ∷ 7 ∷ [])
      (new_ipc_queue 5 registry)
      (send_to_all opens 104 false 2 (67 ∷ []) (new_ipc_queue 5 registry))
      6
send_to_all-IsBroadcast_example =
    send_to_all-IsBroadcast opens 104 false 2 (67 ∷ []) (new_ipc_queue 5 registry) (5 ∷ 6 ∷ 7 ∷ [])
      6 refl registry-Holds (λ e. absurd (omega (arith, e)))

-- The message to process 6 is pending when the worker thread gives up.
giving_up-silent_example :
    let given = step (run (new_machine 5 registry) (send true 100 hello ∷ [])) giving_up in
    let ended = record given { queue = shut_down given.queue } in
    ((run given (pass 101 ∷ [])).calls ≡ []) × ((run ended (pass 101 ∷ [])).calls ≡ [])
unfolding run Map.lookup Map.insert
giving_up-silent_example =
    giving_up-silent (run (new_machine 5 registry) (send true 100 hello ∷ [])) (pass 101 ∷ [])

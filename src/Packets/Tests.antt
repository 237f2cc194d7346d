-- ===== src/Packets/Tests.antt =====
-- Examples for the packets: a message of two bytes, and one that needs two packets.
use unix_thread_ipc.Prelude.{◌≡◌, refl, none, some, List, [], ◌∷◌, ◌++◌, map, replicate}
use unix_thread_ipc.Packets.{
  IpcMessage, read_messages, read_one_packet, add_message_to_queue, write_mutex_complete,
  write_pending_messages, write_pending, write_one_message, write_one_packet,
}
use unix_thread_ipc.Packets.OneMessage.{arrival}
use unix_thread_ipc.Packets.Transfer.{
  Action, post, mutex_acquired, space_available, read, new_link, act, run, transfer,
}

abbrev short : IpcMessage
short = record { dest_process = 6; message_type = 1; bytes = 65 ∷ 66 ∷ []; callback = none }

abbrev long : IpcMessage
long = record { dest_process = 6; message_type = 2; bytes = replicate 9000 67; callback = some 1 }

abbrev some_actions : List Action
some_actions = post long ∷ mutex_acquired ∷ post short ∷ read 1 ∷ space_available ∷ []

transfer_example :
    (run 4 new_link some_actions).dispatched
      ++ ((read_messages (run 4 new_link some_actions).buffer (run 4 new_link some_actions).pipe).0
          ++ map (arrival 4) (run 4 new_link some_actions).out.pending)
    ≡ map (arrival 4) (long ∷ short ∷ [])
transfer_example = transfer 4 some_actions

-- The model runs.
dispatched_test :
    (run 4 new_link (post short ∷ mutex_acquired ∷ read 1 ∷ [])).dispatched ≡ arrival 4 short ∷ []
unfolding run act add_message_to_queue write_mutex_complete write_pending_messages write_pending
    write_one_message write_one_packet read_messages read_one_packet
dispatched_test = refl

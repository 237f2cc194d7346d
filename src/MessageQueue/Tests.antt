-- ===== src/MessageQueue/Tests.antt =====
-- Examples for AndroidThreadMessageQueue: thread 1 is the main thread, threads 1 and 2 have queues,
-- and the handlers, which are numbers, do nothing.
use unix_thread_ipc.Prelude.{ℕ, ◌≡◌, refl, ◌++◌, Option, none, some, List, [], ◌∷◌, true, arith}
use unix_thread_ipc.Prelude.Map
use unix_thread_ipc.Prelude.Int.{pos}
use unix_thread_ipc.ThreadQueue.{Message, Queue}
use unix_thread_ipc.MessageQueue.{Process, new_process, deleted_all, send}
use unix_thread_ipc.MessageQueue.Lifetime.{
  Request, init, post, register, exit, serve_all, queue_lifetime,
}
use unix_thread_ipc.MessageQueue.Loops.{returned, start, dispatch_list}
use unix_thread_ipc.MessageQueue.Looping.{taken, start-exit}

abbrev task : Message ℕ
task = record { message_type = 0; message_data = some 10 }

abbrev exit_message : Message ℕ
exit_message = record { message_type = 3; message_data = none }

abbrev late : Message ℕ
late = record { message_type = 0; message_data = some 11 }

abbrev busy_queue : Queue ℕ
busy_queue = record {
  thread_id = 2;
  event_queue = task ∷ exit_message ∷ late ∷ [];
  signalled = true;
}

abbrev one_task : Queue ℕ
one_task = record { thread_id = 1; event_queue = task ∷ []; signalled = true }

abbrev two_queues : Process ℕ ℕ
two_queues = record (new_process 1 (pos 0)) {
  message_queues = (1, one_task) ∷ (2, busy_queue) ∷ [];
  handlers = (0, some 7) ∷ [];
}

-- A handler that deletes nothing and posts nothing.
abbrev do_nothing : ℕ → ℕ → Option ℕ → Process ℕ ℕ → Process ℕ ℕ
do_nothing h message_type d p = p

abbrev some_requests : List (Request ℕ ℕ)
some_requests =
    init 1
    ∷ init 2
    ∷ post 2 0 (some 11)
    ∷ exit 2
    ∷ post 2 0 (some 12)
    ∷ init 2
    ∷ post 2 0 (some 10)
    ∷ register 0 (some 7)
    ∷ exit 3
    ∷ []

queue_lifetime_example :
    (Map.lookup 2 (serve_all (new_process 1 (pos 0)) some_requests).message_queues
      ≡ some (record { thread_id = 2; event_queue = task ∷ []; signalled = true }))
    × ((send (serve_all (new_process 1 (pos 0)) some_requests) 2 0 none).0 ≡ true)
queue_lifetime_example = queue_lifetime 1 0 some_requests 2 0 none (omega arith)

start-exit_example :
    start do_nothing 1 two_queues 2
    ≡ returned
        (record (dispatch_list do_nothing (taken do_nothing two_queues 2 busy_queue) (task ∷ [])) {
          freed =
              (dispatch_list do_nothing
                (taken do_nothing two_queues 2 busy_queue)
                (task ∷ [])).freed
              ++ deleted_all (exit_message ∷ late ∷ []);
        })
unfolding Map.lookup
start-exit_example =
    start-exit do_nothing 0 two_queues 2 busy_queue (task ∷ []) (late ∷ []) exit_message refl refl
      refl refl ((λ e. cc), tt)

-- ===== src/Threads/Tests.antt =====
-- A start of thread 5 by thread 1, up to the return of `Start`.
use unix_thread_ipc.Prelude.{ℕ, true, false, [], ◌∷◌, arith, List}
use unix_thread_ipc.Prelude.Int.{pos}
use unix_thread_ipc.MessageQueue.{Process, new_process, init_thread_message_queue}
use unix_thread_ipc.MessageQueue.Lifetime.{Request, init, serve_all}
use unix_thread_ipc.Threads.{
  started, running, System, system, create, initialise, identify, mark, signal, wake, Reach, fresh,
  then_step,
}
use unix_thread_ipc.Threads.Starting.{Outcome, start-join}

abbrev history : List (Request ℕ ℕ)
history = init 1 ∷ []

abbrev before : Process ℕ ℕ
before = serve_all (new_process 1 (pos 0)) history

abbrev after_start : System ℕ ℕ
after_start = system (init_thread_message_queue before 5) 5 true false 5 (started 5) running

after_start-Reach : Reach 5 before after_start
after_start-Reach =
    then_step
      (then_step
        (then_step (then_step (then_step (then_step fresh create) initialise) identify) mark)
        signal)
      wake

start-join_example : Outcome 5 after_start (started 5)
start-join_example = start-join 1 0 history 5 after_start (omega arith) after_start-Reach

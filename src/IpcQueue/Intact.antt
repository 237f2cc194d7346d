-- ===== src/IpcQueue/Intact.antt =====
-- `outbound_queues_` is not cleared before the worker thread gives up.
use unix_thread_ipc.Prelude.{
  ℕ, get_elem?, Option, none, some, ◌≡◌, refl, sym, ◌∙◌, Bool, true, false, List, [], ◌∷◌, ◌++◌,
  arith, if◌then◌else◌,
}
use unix_thread_ipc.Packets.{Packet}
use unix_thread_ipc.IpcQueue.{Handle, prepare, shut_down}
use unix_thread_ipc.IpcQueue.{waited_for}
use unix_thread_ipc.IpcQueue.Worker.{
  Occurrence, send, broadcast, pass, complete, giving_up, ending, Machine, after_wait, pending_in,
  step, run,
}
use unix_thread_ipc.IpcQueue.Dying.{send_with_completion-die, send_to_all-die, wait_complete-die}

-- Nothing is destroyed before the worker thread gives up.
abbrev pub IsIntact : Machine → Type 0
IsIntact s = s.queue.die ≡ false → s.destroyed ≡ []

choose-IsIntact :
    (die : Bool) (s s' : Machine) → IsIntact s → IsIntact s' → IsIntact (if die then s else s')
choose-IsIntact true s s' h k = h
choose-IsIntact false s s' h k = k

after_wait-IsIntact :
    (now : ℕ) (s : Machine) (block : List Packet) (o : Option Handle)
    → IsIntact s
    → IsIntact (after_wait now s block o)
after_wait-IsIntact now s block none h = h
after_wait-IsIntact now s block (some handle) h =
    λ alive. h (sym (wait_complete-die now s.queue handle block) ∙ alive)

ended-IsIntact :
    (die : Bool) (s s' : Machine)
    → s.queue.die ≡ die
    → s'.queue.die ≡ die
    → IsIntact s
    → IsIntact (if die then s' else s)
ended-IsIntact true s s' e f h = λ alive. absurd (ground (arith, alive, f))
ended-IsIntact false s s' e f h = h

step-IsIntact : (s : Machine) (e : Occurrence) → IsIntact s → IsIntact (step s e)
unfolding step prepare shut_down
step-IsIntact s (send opens now m) h =
    λ alive. h (sym (send_with_completion-die opens now s.queue m) ∙ alive)
step-IsIntact s (broadcast opens now including_self message_type bytes) h =
    λ alive. h (sym (send_to_all-die opens now including_self message_type bytes s.queue) ∙ alive)
step-IsIntact s (pass now) h =
    let (handles, calls, q) = prepare s.reset_send_data_event now s.queue in
    choose-IsIntact s.queue.die s
      (record {
        queue = q;
        calls = s.calls ++ calls;
        handles = waited_for handles;
        reset_send_data_event = false;
        destroyed = s.destroyed;
      })
      h h
step-IsIntact s (complete now index block) h =
    choose-IsIntact s.queue.die s (after_wait now s block (get_elem? s.handles index)) h
      (after_wait-IsIntact now s block (get_elem? s.handles index) h)
step-IsIntact s giving_up h = λ alive. absurd (ground (arith, alive))
step-IsIntact s ending h =
    ended-IsIntact s.queue.die s
      (record s {
        queue = shut_down s.queue;
        handles = [];
        destroyed = s.destroyed ++ pending_in s.queue.outbound_queues;
      })
      refl refl h

pub run-IsIntact : (s : Machine) (l : List Occurrence) → IsIntact s → IsIntact (run s l)
unfolding run
run-IsIntact s [] h = h
run-IsIntact s (e ∷ l) h = run-IsIntact (step s e) l (step-IsIntact s e h)

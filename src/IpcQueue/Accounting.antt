-- ===== src/IpcQueue/Accounting.antt =====
-- The completion callbacks of the messages that are sent, over any history of a queue.
use unix_thread_ipc.Prelude.{
  ℕ, get_elem?, Option, none, some, ◌+◌, ◌≡◌, refl, inl, inr, Bool-cases, Bool, true, false, List,
  [], ◌∷◌, ◌++◌, arith, if◌then◌else◌, ◌||◌,
}
use unix_thread_ipc.Prelude.Map.{Map}
use unix_thread_ipc.Prelude.Ordered.{IsOrdered}
use unix_thread_ipc.Registry.{Registry}
use unix_thread_ipc.Packets.{Packet}
use unix_thread_ipc.IpcQueue.{Handle, prepare, shut_down, OutboundQueue}
use unix_thread_ipc.IpcQueue.Messages.{
  count_of, count_in, held, count_calls, count_calls-append, count_of-append, collect-IsOrdered,
}
use unix_thread_ipc.IpcQueue.Sending.{send_with_completion-Gains, send_to_all-Gains}
use unix_thread_ipc.IpcQueue.{waited_for}
use unix_thread_ipc.IpcQueue.Worker.{
  Occurrence, send, broadcast, pass, complete, giving_up, ending, Machine, new_machine, after_wait,
  pending_in, step, run,
}
use unix_thread_ipc.IpcQueue.Waits.{prepare_lem, wait_complete-Gains}
use unix_thread_ipc.IpcQueue.Intact.{run-IsIntact}
use unix_thread_ipc.IpcQueue.Dying.{send_with_completion-die, send_to_all-die, wait_complete-die}

-- The messages with the callback `c` that are sent before the worker thread gives up.
abbrev pub accepted : ℕ → List Occurrence → ℕ
accepted c [] = 0
accepted c (send opens now m ∷ rest) = count_of c (m ∷ []) + accepted c rest
accepted c (giving_up ∷ rest) = 0
accepted c (_ ∷ rest) = accepted c rest

-- Reported, held, or destroyed at the end of the worker thread.
abbrev known : ℕ → Machine → ℕ
known c s = count_calls c s.calls + (held c s.queue + count_of c s.destroyed)

count_of-pending_in : (c : ℕ) (m : Map OutboundQueue) → count_of c (pending_in m) ≡ count_in c m
count_of-pending_in c [] = refl
count_of-pending_in c ((id, o) ∷ m) =
    omega (arith, count_of-append c o.out.pending (pending_in m), count_of-pending_in c m)

-- The queue counts on: what is sent is known until the worker thread gives up.
record Counts (c : ℕ) (s : Machine) (s' : Machine) (n : ℕ) (ends : Bool) : Type 0 where
  ordered : IsOrdered s'.queue.outbound_queues
  counted : known c s' ≡ known c s + (if s.queue.die then 0 else n)
  dying : s'.queue.die ≡ s.queue.die || ends

unless-Counts :
    (c : ℕ) (die : Bool) (s s' : Machine)
    → s.queue.die ≡ die
    → IsOrdered s.queue.outbound_queues
    → Counts c s s' 0 false
    → Counts c s (if die then s else s') 0 false
unless-Counts c true s s' e h k = record {
  ordered = h;
  counted = ground arith;
  dying = ground arith;
}
unless-Counts c false s s' e h k = k

abbrev gain : ℕ → Occurrence → ℕ
gain c (send opens now m) = count_of c (m ∷ [])
gain c _ = 0

abbrev ends : Occurrence → Bool
ends giving_up = true
ends _ = false

after_wait-Counts :
    (c now : ℕ) (s : Machine) (block : List Packet) (o : Option Handle)
    → IsOrdered s.queue.outbound_queues
    → Counts c s (after_wait now s block o) 0 false
after_wait-Counts c now s block none h = record {
  ordered = h;
  counted = ground arith;
  dying = ground arith;
}
after_wait-Counts c now s block (some handle) h =
    let g = wait_complete-Gains c now s.queue handle block h in
    record {
      ordered = g.0;
      counted = ground (arith, g.1);
      dying = ground (arith, wait_complete-die now s.queue handle block);
    }

step-Counts :
    (c : ℕ) (s : Machine) (e : Occurrence)
    → IsOrdered s.queue.outbound_queues
    → Counts c s (step s e) (gain c e) (ends e)
unfolding step shut_down
step-Counts c s (send opens now m) h =
    let g = send_with_completion-Gains c opens now s.queue m h in
    record {
      ordered = g.0;
      counted = omega (arith, g.1);
      dying = ground (arith, send_with_completion-die opens now s.queue m);
    }
step-Counts c s (broadcast opens now including_self message_type bytes) h =
    let g = send_to_all-Gains c opens now including_self message_type bytes s.queue h in
    record {
      ordered = g.0;
      counted = ground (arith, g.1);
      dying = ground (arith, send_to_all-die opens now including_self message_type bytes s.queue);
    }
step-Counts c s (pass now) h =
    let (handles, calls, q) = prepare s.reset_send_data_event now s.queue in
    unless-Counts c s.queue.die s
      (record {
        queue = q;
        calls = s.calls ++ calls;
        handles = waited_for handles;
        reset_send_data_event = false;
        destroyed = s.destroyed;
      })
      refl h
      (record {
        ordered = collect-IsOrdered now s.queue.outbound_queues h;
        counted = ground (
          arith,
          prepare_lem c s.reset_send_data_event now s.queue,
          count_calls-append c s.calls calls,
        );
        dying = ground arith;
      })
step-Counts c s (complete now index block) h =
    unless-Counts c s.queue.die s (after_wait now s block (get_elem? s.handles index)) refl h
      (after_wait-Counts c now s block (get_elem? s.handles index) h)
step-Counts c s giving_up h = record { ordered = h; counted = ground arith; dying = ground arith }
step-Counts c s ending h = elim (Bool-cases s.queue.die) [
  | inl e ↦
      let gone = pending_in s.queue.outbound_queues in
      rw (e) (record {
        ordered = tt;
        counted = omega (
          arith,
          count_of-append c s.destroyed gone,
          count_of-pending_in c s.queue.outbound_queues,
        );
        dying = ground (arith, e);
      })
  | inr e ↦ rw (e) (record { ordered = h; counted = ground arith; dying = ground arith })
]

accepted-cons :
    (c : ℕ) (e : Occurrence) (l : List Occurrence)
    → accepted c (e ∷ l) ≡ gain c e + (if ends e then 0 else accepted c l)
accepted-cons c (send opens now m) l = refl
accepted-cons c (broadcast opens now including_self message_type bytes) l = omega arith
accepted-cons c (pass now) l = omega arith
accepted-cons c (complete now index block) l = omega arith
accepted-cons c giving_up l = refl
accepted-cons c ending l = omega arith

run_lem :
    (c : ℕ) (s : Machine) (l : List Occurrence)
    → IsOrdered s.queue.outbound_queues
    → known c (run s l) ≡ known c s + (if s.queue.die then 0 else accepted c l)
unfolding run
run_lem c s [] h = ground arith
run_lem c s (e ∷ l) h =
    let k = step-Counts c s e h in
    let later = run_lem c (step s e) l k.ordered in
    let split = accepted-cons c e l in ground (arith, later, k.counted, k.dying, split)

-- Whatever is sent, in whatever order waits complete, queues fill, processes end and time out, and
-- whenever the worker thread gives up and ends: for any completion callback, the calls made to it,
-- for success or failure, the messages with it that an outbound queue or one of the two lists still
-- holds, and those that were pending in the outbound queues that the end of the worker thread clears
-- are together as many as the messages sent with it before the worker thread gave up. Until it gives
-- up none are cleared, so that none is reported twice and none is forgotten.
pub run-accounting :
    (c self : ℕ) (r : Registry) (l : List Occurrence)
    → let s = run (new_machine self r) l in
      (count_calls c s.calls + (held c s.queue + count_of c s.destroyed) ≡ accepted c l)
      × (s.queue.die ≡ false → s.destroyed ≡ [])
run-accounting c self r l = (
  omega (arith, run_lem c (new_machine self r) l tt),
  run-IsIntact (new_machine self r) l (λ alive. refl),
)

-- ===== src/IpcQueue/Handles.antt =====
-- What the worker thread does with the outbound queues before it waits.
use unix_thread_ipc.Prelude.{
  ℕ, ◌*◌, ◌-◌, ◌≤◌, ◌≡◌, refl, sym, ap, ◌∙◌, Bool, true, false, ◌&&◌, Option, none, some, List, [],
  ◌∷◌, ◌++◌, arith, leb, if◌then◌else◌, Option-cases, inl, inr, length, length-append, take_of_le,
}
use mathlib.Core.Path.{subst}
use unix_thread_ipc.Prelude.Map
use unix_thread_ipc.Prelude.Map.{Map}
use unix_thread_ipc.Prelude.Ordered.{IsOrdered, lookup-Above}
use unix_thread_ipc.Registry.{max_processes}
use unix_thread_ipc.Packets.{IpcMessage, is_empty_list}
use unix_thread_ipc.Observers.{is_some}
use unix_thread_ipc.IpcQueue.{
  OutboundQueue, IpcQueue, Handle, timeout_ms, add_wait_handles, collect, Completion, completion,
  report, prepare, waited_for,
}

-- How many handles `AddWaitHandles` adds.
abbrev length_of : Option (List Handle) → ℕ
length_of none = 0
length_of (some l) = length l

add_wait_handles-length :
    (now id : ℕ) (o : OutboundQueue) → length_of (add_wait_handles now id o) ≤ 2
unfolding add_wait_handles
add_wait_handles-length now id o = ground arith

collect-length : (now : ℕ) (m : Map OutboundQueue) → length (collect now m).0 ≤ 2 * length m
unfolding collect
collect-length now [] = omega arith
collect-length now ((id, o) ∷ m) =
    let later = collect-length now m in
    let bound = add_wait_handles-length now id o in
    elim (Option-cases (add_wait_handles now id o)) [
      | inl e ↦ rw (collect, e) (omega (arith, later))
      | inr (l, e) ↦
          let two : length l ≤ 2 = subst (λ x. length_of x ≤ 2) e bound in
          rw (collect, e) (omega (arith, later, two, length-append l (collect now m).0))
    ]

-- With outbound queues to no more processes than the registry has room for, the worker thread waits
-- for every handle: the limit of WaitForMultipleObjectsEx cuts none off.
pub prepare-waited_for :
    (reset : Bool) (now : ℕ) (q : IpcQueue)
    → length q.outbound_queues ≤ max_processes
    → waited_for (prepare reset now q).0 ≡ (prepare reset now q).0
unfolding prepare
prepare-waited_for reset now q h =
    let handles = (prepare reset now q).0 in
    take_of_le 64 handles (omega (arith, collect-length now q.outbound_queues))

-- A queue stays while its process lives and neither a wait with messages nor the time without any is
-- longer than the timeout.
abbrev pub stays : ℕ → OutboundQueue → Bool
stays now o =
    o.has_process
    && leb (now - (if is_empty_list o.out.pending then o.last_active_time else o.wait_start_time))
        timeout_ms

add_wait_handles-stays :
    (now id : ℕ) (o : OutboundQueue) → is_some (add_wait_handles now id o) ≡ stays now o
unfolding add_wait_handles
add_wait_handles-stays now id o = ground arith

abbrev pub staying : ℕ → Option OutboundQueue → Option OutboundQueue
staying now none = none
staying now (some o) = if stays now o then some o else none

-- The messages of the queues that go, in the order of their processes.
abbrev pub given_up : ℕ → Map OutboundQueue → List IpcMessage
given_up now [] = []
given_up now ((id, o) ∷ rest) = (if stays now o then [] else o.out.pending) ++ given_up now rest

-- The calls that tell of messages, each with its own message and parameter, for those that have a
-- callback.
abbrev pub tell : Bool → IpcMessage → Option ℕ → List Completion → List Completion
tell ok m none rest = rest
tell ok m (some c) rest = record { is_successful = ok; message = m; param = c } ∷ rest

abbrev pub told : Bool → List IpcMessage → List Completion
told ok [] = []
told ok (m ∷ rest) = tell ok m m.callback (told ok rest)

completion-tell :
    (ok : Bool) (m : IpcMessage) (o : Option ℕ) (l : List Completion)
    → completion ok m o ++ l ≡ tell ok m o l
completion-tell ok m none l = refl
completion-tell ok m (some c) l = refl

report-told : (ok : Bool) (l : List IpcMessage) → report ok l ≡ told ok l
unfolding report
report-told ok [] = refl
report-told ok (m ∷ rest) =
    completion-tell ok m m.callback (report ok rest)
    ∙ ap (tell ok m m.callback) (report-told ok rest)

collect-given_up : (now : ℕ) (m : Map OutboundQueue) → (collect now m).2 ≡ given_up now m
unfolding collect
collect-given_up now [] = refl
collect-given_up now ((k, o) ∷ m) =
    let later = collect-given_up now m in
    let test = add_wait_handles-stays now k o in
    elim (Option-cases (add_wait_handles now k o)) [
      | inl e ↦
          let goes : stays now o ≡ false = sym test ∙ ap is_some e in
          rw (collect, e, goes) (ap (λ l. o.out.pending ++ l) later)
      | inr (l, e) ↦
          let here : stays now o ≡ true = sym test ∙ ap is_some e in rw (collect, e, here) later
    ]

collect-staying :
    (now id : ℕ) (m : Map OutboundQueue)
    → IsOrdered m
    → Map.lookup id (collect now m).1 ≡ staying now (Map.lookup id m)
unfolding collect Map.lookup
collect-staying now id [] h = refl
collect-staying now id ((k, o) ∷ m) h =
    let later = collect-staying now id m h.1 in
    let test = add_wait_handles-stays now k o in
    let none_here = lookup-Above k id m in
    elim (Option-cases (add_wait_handles now k o)) [
      | inl e ↦
          let goes : stays now o ≡ false = sym test ∙ ap is_some e in
          rw (collect, e) (ground (arith, later, goes, none_here, h.0))
      | inr (l, e) ↦
          let here : stays now o ≡ true = sym test ∙ ap is_some e in
          rw (collect, e) (ground (arith, later, here))
    ]

-- Before each wait a queue stays exactly if its process has not ended and it has neither waited with
-- messages nor been without any for more than the timeout; it stays as it is. The completion
-- callbacks made then are, in this order, success for each message written, failure for each message
-- that could not be sent, and failure for each message pending in a queue that goes, each once and
-- with that message; a message without a callback makes no call. Both lists are empty afterwards. The
-- map of queues is ordered, as a `std::map` is.
pub prepare-staying :
    (reset : Bool) (now : ℕ) (q : IpcQueue) (id : ℕ)
    → IsOrdered q.outbound_queues
    → let (handles, calls, q') = prepare reset now q in
      (Map.lookup id q'.outbound_queues ≡ staying now (Map.lookup id q.outbound_queues))
      × (calls
          ≡ told true q.successful_messages
            ++ told false (q.failed_messages ++ given_up now q.outbound_queues))
      × (q'.successful_messages ≡ [])
      × (q'.failed_messages ≡ [])
unfolding prepare
prepare-staying reset now q id h =
    let lost = (collect now q.outbound_queues).2 in
    (
      collect-staying now id q.outbound_queues h,
      ap (λ l. l ++ report false (q.failed_messages ++ lost))
            (report-told true q.successful_messages)
          ∙ ap (λ l. told true q.successful_messages ++ l)
              (report-told false (q.failed_messages ++ lost)
                ∙ ap (λ l. told false (q.failed_messages ++ l))
                    (collect-given_up now q.outbound_queues)),
      refl,
      refl,
    )

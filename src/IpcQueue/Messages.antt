-- ===== src/IpcQueue/Messages.antt =====
-- The messages that an IPC queue holds, counted by their completion callback.
use unix_thread_ipc.Prelude.{
  ℕ, ◌+◌, ◌≡◌, refl, ap, Bool, true, false, Option, none, some, List, [], ◌∷◌, ◌++◌, arith, ◌==◌,
  if◌then◌else◌, take, Bool-cases, Option-cases, inl, inr,
}
use unix_thread_ipc.Prelude.Map
use unix_thread_ipc.Prelude.Map.{Map}
use unix_thread_ipc.Prelude.Ordered.{IsOrdered, Above, lookup-Above}
use unix_thread_ipc.Packets.{
  Packet, IpcMessage, Outbound, after_message, write_one_message, write_pending,
  write_pending_messages, stuck,
}
use unix_thread_ipc.IpcQueue.{
  OutboundQueue, IpcQueue, write_messages, add_wait_handles, collect, Completion, completion,
  report,
}

abbrev pub is_callback : ℕ → Option ℕ → Bool
is_callback c none = false
is_callback c (some d) = d == c

-- How many messages have the callback `c`.
abbrev pub count_of : ℕ → List IpcMessage → ℕ
count_of c [] = 0
count_of c (m ∷ rest) = (if is_callback c m.callback then 1 else 0) + count_of c rest

abbrev pub count_in : ℕ → Map OutboundQueue → ℕ
count_in c [] = 0
count_in c ((id, o) ∷ rest) = count_of c o.out.pending + count_in c rest

-- The messages with the callback `c` that have not been reported.
abbrev pub held : ℕ → IpcQueue → ℕ
held c q =
    count_in c q.outbound_queues + (count_of c q.successful_messages + count_of c q.failed_messages)

abbrev pub count_calls : ℕ → List Completion → ℕ
count_calls c [] = 0
count_calls c (k ∷ rest) = (if k.param == c then 1 else 0) + count_calls c rest

pub count_of-append :
    (c : ℕ) (xs ys : List IpcMessage) → count_of c (xs ++ ys) ≡ count_of c xs + count_of c ys
count_of-append c [] ys = omega arith
count_of-append c (m ∷ xs) ys = omega (arith, count_of-append c xs ys)

pub count_calls-append :
    (c : ℕ) (xs ys : List Completion)
    → count_calls c (xs ++ ys) ≡ count_calls c xs + count_calls c ys
count_calls-append c [] ys = omega arith
count_calls-append c (m ∷ xs) ys = omega (arith, count_calls-append c xs ys)

completion_lem :
    (c : ℕ) (ok : Bool) (m : IpcMessage) (o : Option ℕ)
    → count_calls c (completion ok m o) ≡ (if is_callback c o then 1 else 0)
completion_lem c ok m none = refl
completion_lem c ok m (some d) = omega arith

-- Every message with the callback is reported.
pub count_calls-report :
    (c : ℕ) (ok : Bool) (l : List IpcMessage) → count_calls c (report ok l) ≡ count_of c l
unfolding report
count_calls-report c ok [] = refl
count_calls-report c ok (m ∷ rest) = omega (
  arith,
  count_calls-append c (completion ok m m.callback) (report ok rest),
  completion_lem c ok m m.callback,
  count_calls-report c ok rest,
)

abbrev pub pending_of : Option OutboundQueue → List IpcMessage
pending_of none = []
pending_of (some o) = o.out.pending

-- An insertion replaces the messages that were under the key.
pub count_in-insert :
    (c k : ℕ) (o : OutboundQueue) (m : Map OutboundQueue)
    → IsOrdered m
    → count_in c (Map.insert k o m) + count_of c (pending_of (Map.lookup k m))
      ≡ count_in c m + count_of c o.out.pending
unfolding Map.insert Map.lookup
count_in-insert c k o [] h = omega arith
count_in-insert c k o ((j, w) ∷ m) h =
    ground (arith, count_in-insert c k o m h.1, lookup-Above j k m)

-- `collect` loses no message.
pub collect_lem :
    (c now : ℕ) (m : Map OutboundQueue)
    → let (handles, kept, lost) = collect now m in count_in c kept + count_of c lost ≡ count_in c m
unfolding collect
collect_lem c now [] = refl
collect_lem c now ((id, o) ∷ m) = elim (Option-cases (add_wait_handles now id o)) [
  | inl e ↦
      rw (collect, e)
        (omega (arith, collect_lem c now m, count_of-append c o.out.pending (collect now m).2))
  | inr (l, e) ↦ rw (collect, e) (omega (arith, collect_lem c now m))
]

-- What is written and what stays.
abbrev IsCut : List IpcMessage → ℕ × Outbound × List Packet → Type 0
IsCut pending (n, o, pipe) = take n pending ++ o.pending ≡ pending

after_message-IsCut :
    (m : IpcMessage) (rest : List IpcMessage) (out : Bool × Outbound × List Packet)
    (later : ℕ × Outbound × List Packet)
    → IsCut rest later
    → IsCut (m ∷ rest) (after_message m rest out later)
after_message-IsCut m rest (true, o, pipe) (n, o', pipe') h = ap (λ l. m ∷ l) h
after_message-IsCut m rest (false, o, pipe) later h = refl

write_pending-IsCut :
    (source : ℕ) (pending : List IpcMessage) (o : Outbound) (pipe : List Packet) (allow : Bool)
    → IsCut pending (write_pending source pending o pipe allow)
unfolding write_pending
write_pending-IsCut source [] o pipe allow = refl
write_pending-IsCut source (m ∷ rest) o pipe allow =
    let out = write_one_message source o pipe m allow in
    after_message-IsCut m rest out (write_pending source rest out.1 out.2 false)
      (write_pending-IsCut source rest out.1 out.2 false)

write_pending_messages_pending :
    (source : ℕ) (o : Outbound) (pipe : List Packet)
    → (write_pending_messages source o pipe).0.pending
      ≡ (write_pending source o.pending o pipe true).1.pending
unfolding write_pending_messages
write_pending_messages_pending source o pipe =
    elim (Bool-cases (stuck (write_pending source o.pending o pipe true))) [
      | inl e ↦ rw (write_pending_messages, e) refl
      | inr e ↦ rw (write_pending_messages, e) refl
    ]

-- A message of the queue is either written or still pending.
pub write_messages_lem :
    (c source now : ℕ) (q : OutboundQueue) (block : List Packet)
    → let (written, q', block') = write_messages source now q block in
      count_of c written + count_of c q'.out.pending ≡ count_of c q.out.pending
unfolding write_messages
write_messages_lem c source now q block =
    let r = write_pending source q.out.pending q.out block true in
    rw (write_pending_messages_pending source q.out block) (
      omega (
        arith,
        count_of-append c (take r.0 q.out.pending) r.1.pending,
        ap (count_of c) (write_pending-IsCut source q.out.pending q.out block true),
      ))

pub collect-Above : (b now : ℕ) (m : Map OutboundQueue) → Above b m → Above b (collect now m).1
unfolding collect
collect-Above b now [] h = tt
collect-Above b now ((id, o) ∷ m) h = elim (Option-cases (add_wait_handles now id o)) [
  | inl e ↦ rw (collect, e) (collect-Above b now m h.1)
  | inr (l, e) ↦ rw (collect, e) (h.0, collect-Above b now m h.1)
]

pub collect-IsOrdered :
    (now : ℕ) (m : Map OutboundQueue) → IsOrdered m → IsOrdered (collect now m).1
unfolding collect
collect-IsOrdered now [] h = tt
collect-IsOrdered now ((id, o) ∷ m) h = elim (Option-cases (add_wait_handles now id o)) [
  | inl e ↦ rw (collect, e) (collect-IsOrdered now m h.1)
  | inr (l, e) ↦ rw (collect, e) (collect-Above id now m h.0, collect-IsOrdered now m h.1)
]

-- ===== src/IpcQueue/Phases.antt =====
-- What an outbound queue waits for, over its own operations.
use unix_thread_ipc.Prelude.{
  ℕ, ◌≡◌, refl, ap, ◌∙◌, Bool, true, false, not, ◌&&◌, ◌||◌, List, [], ◌∷◌, ◌++◌, arith, Bool-cases,
  inl, inr,
}
use unix_thread_ipc.Packets.{
  Header, Packet, IpcMessage, Outbound, is_empty_list, after_packet, after_message,
  write_one_packet, write_one_message, write_pending, write_pending_messages, stuck,
  add_message_to_queue, write_mutex_complete, space_complete, wanted,
}

-- The queue is idle, or waits for the write mutex, or has the mutex and waits for space. It has
-- messages unless it is idle, and a message is in progress only while it waits for space.
abbrev pub IsPhased : Outbound → Type 0
IsPhased o =
    (o.has_write_mutex ≡ o.is_waiting_for_space)
    × (o.is_waiting_for_write_mutex && o.is_waiting_for_space ≡ false)
    × (is_empty_list o.pending ≡ not (o.is_waiting_for_write_mutex || o.is_waiting_for_space))
    × (o.in_progress && not o.is_waiting_for_space ≡ false)

is_empty_list-snoc :
    (xs : List IpcMessage) (m : IpcMessage) → is_empty_list (xs ++ (m ∷ [])) ≡ false
is_empty_list-snoc [] m = refl
is_empty_list-snoc (x ∷ xs) m = refl

pub add_message_to_queue-IsPhased :
    (o : Outbound) (m : IpcMessage) → IsPhased o → IsPhased (add_message_to_queue o m)
unfolding add_message_to_queue
add_message_to_queue-IsPhased o m h =
    (h.0, ground (arith, h), rw (is_empty_list-snoc o.pending m) (ground (arith, h)), h.3)

-- The flags that writing leaves alone.
abbrev flags : Outbound → Bool × Bool × Bool
flags o = (o.has_write_mutex, o.is_waiting_for_write_mutex, o.is_waiting_for_space)

after_packet-flags :
    (o : Outbound) (pipe : List Packet) (r : Bool × Header × List Packet)
    → flags (after_packet o pipe r).1 ≡ flags o
after_packet-flags o pipe (false, h, pipe') = refl
after_packet-flags o pipe (true, h, pipe') = ground arith

after_message-flags :
    (f : Bool × Bool × Bool) (m : IpcMessage) (rest : List IpcMessage)
    (out : Bool × Outbound × List Packet) (later : ℕ × Outbound × List Packet)
    → flags out.1 ≡ f
    → flags later.1 ≡ f
    → flags (after_message m rest out later).1 ≡ f
after_message-flags f m rest (true, o, pipe) (n, o', pipe') h k = k
after_message-flags f m rest (false, o, pipe) later h k = h

write_pending-flags :
    (source : ℕ) (l : List IpcMessage) (o : Outbound) (pipe : List Packet) (allow : Bool)
    → flags (write_pending source l o pipe allow).1 ≡ flags o
unfolding write_pending write_one_message
write_pending-flags source [] o pipe allow = refl
write_pending-flags source (m ∷ rest) o pipe allow =
    let out = write_one_message source o pipe m allow in
    let h : flags out.1 ≡ flags o =
      after_packet-flags o pipe
        (write_one_packet pipe (wanted source o m).0 (wanted source o m).1 allow) in
    after_message-flags (flags o) m rest out (write_pending source rest out.1 out.2 false) h
      (write_pending-flags source rest out.1 out.2 false ∙ h)

-- A message that is done is not in progress.
after_packet-done :
    (o : Outbound) (pipe : List Packet) (r : Bool × Header × List Packet)
    → (after_packet o pipe r).0 ≡ true
    → (after_packet o pipe r).1.in_progress ≡ false
after_packet-done o pipe (false, h, pipe') e = ground (arith, e)
after_packet-done o pipe (true, h, pipe') e = ground (arith, e)

write_one_message-done :
    (source : ℕ) (o : Outbound) (pipe : List Packet) (m : IpcMessage) (allow : Bool)
    → (write_one_message source o pipe m allow).0 ≡ true
    → (write_one_message source o pipe m allow).1.in_progress ≡ false
unfolding write_one_message
write_one_message-done source o pipe m allow =
    after_packet-done o pipe
      (write_one_packet pipe (wanted source o m).0 (wanted source o m).1 allow)

-- A message that may not be cut is written whole or not at all.
after_packet-small :
    (o : Outbound) (pipe : List Packet) (r : Bool × Header × List Packet)
    → r.1.last_packet ≡ true
    → o.in_progress ≡ false
    → (after_packet o pipe r).1.in_progress ≡ false
after_packet-small o pipe (false, h, pipe') l e = e
after_packet-small o pipe (true, h, pipe') l e = ground (arith, e, l)

wanted-last :
    (source : ℕ) (o : Outbound) (m : IpcMessage) → (wanted source o m).0.last_packet ≡ true
wanted-last source o m = ground arith

write_one_packet-last :
    (pipe : List Packet) (h : Header) (msg_data : List ℕ)
    → h.last_packet ≡ true
    → (write_one_packet pipe h msg_data false).1.last_packet ≡ true
unfolding write_one_packet
write_one_packet-last pipe h msg_data e = ground (arith, e)

write_one_message-small :
    (source : ℕ) (o : Outbound) (pipe : List Packet) (m : IpcMessage)
    → o.in_progress ≡ false
    → (write_one_message source o pipe m false).1.in_progress ≡ false
unfolding write_one_message
write_one_message-small source o pipe m e =
    after_packet-small o pipe
      (write_one_packet pipe (wanted source o m).0 (wanted source o m).1 false)
      (write_one_packet-last pipe (wanted source o m).0 (wanted source o m).1
        (wanted-last source o m))
      e

after_message-small :
    (m : IpcMessage) (rest : List IpcMessage) (out : Bool × Outbound × List Packet)
    (later : ℕ × Outbound × List Packet)
    → out.1.in_progress ≡ false
    → later.1.in_progress ≡ false
    → (after_message m rest out later).1.in_progress ≡ false
after_message-small m rest (true, o, pipe) (n, o', pipe') h k = k
after_message-small m rest (false, o, pipe) later h k = h

write_pending-small :
    (source : ℕ) (l : List IpcMessage) (o : Outbound) (pipe : List Packet)
    → o.in_progress ≡ false
    → (write_pending source l o pipe false).1.in_progress ≡ false
unfolding write_pending
write_pending-small source [] o pipe e = e
write_pending-small source (m ∷ rest) o pipe e =
    let out = write_one_message source o pipe m false in
    let h = write_one_message-small source o pipe m e in
    after_message-small m rest out (write_pending source rest out.1 out.2 false) h
      (write_pending-small source rest out.1 out.2 h)

after_message-first :
    (m : IpcMessage) (rest : List IpcMessage) (out : Bool × Outbound × List Packet)
    (later : ℕ × Outbound × List Packet)
    → (out.0 ≡ true → later.1.in_progress ≡ false)
    → stuck (after_message m rest out later) ≡ false
    → (after_message m rest out later).1.in_progress ≡ false
after_message-first m rest (true, o, pipe) (n, o', pipe') h e = h refl
after_message-first m rest (false, o, pipe) later h e = absurd (ground (arith, e))

-- If anything was written, no message is in progress.
write_pending-first :
    (source : ℕ) (l : List IpcMessage) (o : Outbound) (pipe : List Packet)
    → is_empty_list l ≡ false
    → stuck (write_pending source l o pipe true) ≡ false
    → (write_pending source l o pipe true).1.in_progress ≡ false
unfolding write_pending
write_pending-first source [] o pipe h e = absurd (ground (arith, h))
write_pending-first source (m ∷ rest) o pipe h e =
    let out = write_one_message source o pipe m true in
    after_message-first m rest out (write_pending source rest out.1 out.2 false)
      (λ done.
        write_pending-small source rest out.1 out.2
          (write_one_message-done source o pipe m true done))
      e

-- `WritePendingMessages` with the write mutex, for a queue with messages.
write_pending_messages-IsPhased :
    (source : ℕ) (o : Outbound) (pipe : List Packet)
    → flags o ≡ (true, false, false)
    → is_empty_list o.pending ≡ false
    → IsPhased (write_pending_messages source o pipe).0
unfolding write_pending_messages
write_pending_messages-IsPhased source o pipe f h =
    let (n, o', pipe') = write_pending source o.pending o pipe true in
    let f' : flags o' ≡ (true, false, false) =
      write_pending-flags source o.pending o pipe true ∙ f in
    let has : o'.has_write_mutex ≡ true = ap (λ x. x.0) f' in
    let mutex : o'.is_waiting_for_write_mutex ≡ false = ap (λ x. x.1) f' in
    let space : o'.is_waiting_for_space ≡ false = ap (λ x. x.2) f' in
    elim (Bool-cases (stuck (n, o', pipe'))) [
      | inl e ↦
          rw (write_pending_messages, e)
            (has, ground (arith, mutex), ground (arith, e, mutex), ground arith)
      | inr e ↦
          let idle = write_pending-first source o.pending o pipe h e in
          rw (write_pending_messages, e)
            (
              ground (arith, space),
              ground (arith, space),
              ground (arith, mutex, space),
              ground (arith, idle),
            )
    ]

pub write_mutex_complete-IsPhased :
    (source : ℕ) (o : Outbound) (pipe : List Packet)
    → IsPhased o
    → o.is_waiting_for_write_mutex ≡ true
    → IsPhased (write_mutex_complete source o pipe).0
unfolding write_mutex_complete
write_mutex_complete-IsPhased source o pipe h e =
    let space : o.is_waiting_for_space ≡ false = ground (arith, h, e) in
    write_pending_messages-IsPhased source
      (record o { is_waiting_for_write_mutex = false; has_write_mutex = true }) pipe
      (ap (λ b. (true, false, b)) space) (ground (arith, h, e))

pub space_complete-IsPhased :
    (source : ℕ) (o : Outbound) (pipe : List Packet)
    → IsPhased o
    → o.is_waiting_for_space ≡ true
    → IsPhased (space_complete source o pipe).0
unfolding space_complete
space_complete-IsPhased source o pipe h e =
    let has : o.has_write_mutex ≡ true = ground (arith, h, e) in
    let mutex : o.is_waiting_for_write_mutex ≡ false = ground (arith, h, e) in
    write_pending_messages-IsPhased source (record o { is_waiting_for_space = false }) pipe
      (ap (λ b. (b, o.is_waiting_for_write_mutex, false)) has ∙ ap (λ b. (true, b, false)) mutex)
      (ground (arith, h, e))

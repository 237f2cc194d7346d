-- ===== src/Packets/Transfer.antt =====
-- The way of the messages through OutboundQueue and InboundQueue.
use unix_thread_ipc.Prelude.{
  ℕ, ◌≡◌, refl, sym, ap, ◌∙◌, Bool, true, false, List, [], ◌∷◌, ◌++◌, append_assoc, append-nil, map,
  arith, if◌then◌else◌, take, drop, take-append-drop,
}
use mathlib.Core.List.{map-append}
use mathlib.Core.Path.{subst}
use unix_thread_ipc.Packets.{
  Packet, IpcMessage, Outbound, new_outbound, write_pending_messages, read_one_packet, Arrival,
  read_messages, add_message_to_queue, write_mutex_complete, space_complete,
}
use unix_thread_ipc.Packets.OneMessage.{arrival}
use unix_thread_ipc.Packets.Writing.{arriving, IsAt, write_pending_messages-Kept}

-- What happens to a queue: a message is added, a wait of the writer completes, or the reader reads
-- some packets.
pub data Action : Type 0 where
  post : IpcMessage → Action
  mutex_acquired : Action
  space_available : Action
  read : (packets : ℕ) → Action

pub record Link : Type 0 where
  pub out : Outbound
  pub pipe : List Packet
  pub buffer : List ℕ  -- `message_data_buffer_`
  pub dispatched : List Arrival

abbrev pub new_link : Link
new_link = record { out = new_outbound; pipe = []; buffer = []; dispatched = [] }

abbrev pub after_write : Link → Outbound × List Packet → Link
after_write l (o, pipe) = record l { out = o; pipe = pipe }

unfoldable pub act : ℕ → Link → Action → Link
unfolding add_message_to_queue write_mutex_complete space_complete read_messages
act source l (post m) = record l { out = add_message_to_queue l.out m }
act source l mutex_acquired =
    if l.out.is_waiting_for_write_mutex
    then after_write l (write_mutex_complete source l.out l.pipe)
    else l
act source l space_available =
    if l.out.is_waiting_for_space then after_write l (space_complete source l.out l.pipe) else l
act source l (read packets) =
    let (ms, left) = read_messages l.buffer (take packets l.pipe) in
    record l { pipe = drop packets l.pipe; buffer = left; dispatched = l.dispatched ++ ms }

unfoldable pub run : ℕ → Link → List Action → Link
run source l [] = l
run source l (a ∷ rest) = run source (act source l a) rest

abbrev pub posted : List Action → List IpcMessage
posted [] = []
posted (post m ∷ rest) = m ∷ posted rest
posted (_ ∷ rest) = posted rest

read_messages-append :
    (buffer : List ℕ) (xs ys : List Packet)
    → read_messages buffer (xs ++ ys) ≡ (
        let (ms, left) = read_messages buffer xs in
        let (ms', left') = read_messages left ys in (ms ++ ms', left'))
unfolding read_messages
read_messages-append buffer [] ys = refl
read_messages-append buffer (p ∷ xs) ys =
    ground
      (arith, read_messages-append [] xs ys, read_messages-append (read_one_packet buffer p) xs ys)

posted-cons : (a : Action) (rest : List Action) → posted (a ∷ []) ++ posted rest ≡ posted (a ∷ rest)
posted-cons (post m) rest = refl
posted-cons mutex_acquired rest = refl
posted-cons space_available rest = refl
posted-cons (read packets) rest = refl

-- All that was sent is dispatched or on its way.
record IsWhole (source : ℕ) (l : Link) (sent : List IpcMessage) : Type 0 where
  all : l.dispatched ++ arriving source l.buffer l.out l.pipe ≡ map (arrival source) sent
  at : IsAt l.out l.out.pending (read_messages l.buffer l.pipe).1

-- `IsAt` does not read the flags of the waits.
same-IsAt :
    (o : Outbound) (mutex waiting space : Bool) (pending : List IpcMessage) (left : List ℕ)
    → IsAt o pending left
    → IsAt
        (record o {
          has_write_mutex = mutex;
          is_waiting_for_write_mutex = waiting;
          is_waiting_for_space = space;
        })
        pending
        left
same-IsAt o mutex waiting space [] left h = h
same-IsAt o mutex waiting space (m ∷ pending) left h = h

IsAt-snoc :
    (o : Outbound) (pending : List IpcMessage) (m : IpcMessage) (left : List ℕ)
    → IsAt o pending left
    → IsAt o (pending ++ (m ∷ [])) left
IsAt-snoc o [] m left h = (λ on. absurd (cc (h.0)), λ off. h.1)
IsAt-snoc o (k ∷ pending) m left h = h

module _ (source : ℕ) where
  write-IsWhole :
      {l : Link} {sent : List IpcMessage} (o : Outbound)
      → IsWhole source l sent
      → o.pending ≡ l.out.pending
      → IsAt o o.pending (read_messages l.buffer l.pipe).1
      → IsWhole source (after_write l (write_pending_messages source o l.pipe)) sent
  write-IsWhole {l} o v same h =
      let (a, b) = write_pending_messages-Kept source l.buffer o l.pipe h in
      record {
        all =
            ap (λ r. l.dispatched ++ r) a
            ∙ ap
                (λ ms.
                  l.dispatched ++ ((read_messages l.buffer l.pipe).0 ++ map (arrival source) ms))
                same
            ∙ v.all;
        at = b;
      }

  post-IsWhole :
      {l : Link} {sent : List IpcMessage} (m : IpcMessage)
      → IsWhole source l sent
      → IsWhole source (act source l (post m)) (sent ++ (m ∷ []))
  unfolding act add_message_to_queue
  post-IsWhole {l} {sent} m v = record {
    all =
        ap (λ k. l.dispatched ++ ((read_messages l.buffer l.pipe).0 ++ k))
          (map-append (arrival source) l.out.pending (m ∷ []))
        ∙ sym (
            ap (λ k. l.dispatched ++ k)
              (append_assoc (read_messages l.buffer l.pipe).0 (map (arrival source) l.out.pending)
                (arrival source m ∷ [])))
        ∙ sym (
            append_assoc l.dispatched (arriving source l.buffer l.out l.pipe)
              (arrival source m ∷ []))
        ∙ ap (λ k. k ++ (arrival source m ∷ [])) v.all
        ∙ sym (map-append (arrival source) sent (m ∷ []));
    at = IsAt-snoc l.out l.out.pending m (read_messages l.buffer l.pipe).1 v.at;
  }

  read-IsWhole :
      {l : Link} {sent : List IpcMessage} (packets : ℕ)
      → IsWhole source l sent
      → IsWhole source (act source l (read packets)) sent
  unfolding act
  read-IsWhole {l} {sent} packets v =
      let (ms, left) = read_messages l.buffer (take packets l.pipe) in
      let later = read_messages left (drop packets l.pipe) in
      let e : read_messages l.buffer l.pipe ≡ (ms ++ later.0, later.1) =
        ap (read_messages l.buffer) (sym (take-append-drop packets l.pipe))
        ∙ read_messages-append l.buffer (take packets l.pipe) (drop packets l.pipe) in
      let waiting = map (arrival source) l.out.pending in
      record {
        all =
            append_assoc l.dispatched ms (later.0 ++ waiting)
            ∙ sym (ap (λ k. l.dispatched ++ k) (append_assoc ms later.0 waiting))
            ∙ sym (ap (λ (r : List Arrival × List ℕ). l.dispatched ++ (r.0 ++ waiting)) e)
            ∙ v.all;
        at = subst (λ (r : List Arrival × List ℕ). IsAt l.out l.out.pending r.1) e v.at;
      }

  guarded :
      {sent : List IpcMessage} (test : Bool) {x y : Link}
      → IsWhole source x sent
      → IsWhole source y sent
      → IsWhole source (if test then x else y) sent
  guarded true v w = v
  guarded false v w = w

  act-IsWhole :
      {l : Link} {sent : List IpcMessage} (a : Action)
      → IsWhole source l sent
      → IsWhole source (act source l a) (sent ++ posted (a ∷ []))
  unfolding act write_mutex_complete space_complete
  act-IsWhole (post m) v = post-IsWhole m v
  act-IsWhole {l} {sent} (read packets) v =
      subst (IsWhole source (act source l (read packets))) (sym (append-nil sent))
        (read-IsWhole packets v)
  act-IsWhole {l} {sent} mutex_acquired v = rw append-nil (
      guarded l.out.is_waiting_for_write_mutex
        (write-IsWhole (record l.out { is_waiting_for_write_mutex = false; has_write_mutex = true })
          v refl
          (same-IsAt l.out true false l.out.is_waiting_for_space l.out.pending
            (read_messages l.buffer l.pipe).1 v.at))
        v)
  act-IsWhole {l} {sent} space_available v = rw append-nil (
      guarded l.out.is_waiting_for_space
        (write-IsWhole (record l.out { is_waiting_for_space = false }) v refl
          (same-IsAt l.out l.out.has_write_mutex l.out.is_waiting_for_write_mutex false
            l.out.pending (read_messages l.buffer l.pipe).1 v.at))
        v)

  run-IsWhole :
      (actions : List Action) {l : Link} {sent : List IpcMessage}
      → IsWhole source l sent
      → IsWhole source (run source l actions) (sent ++ posted actions)
  unfolding run
  run-IsWhole [] {l} {sent} v = subst (IsWhole source l) (sym (append-nil sent)) v
  run-IsWhole (a ∷ rest) {l} {sent} v =
      subst (IsWhole source (run source (act source l a) rest))
        (append_assoc sent (posted (a ∷ [])) (posted rest)
          ∙ ap (λ k. sent ++ k) (posted-cons a rest))
        (run-IsWhole rest (act-IsWhole a v))

-- In whatever order messages are added, waits complete and packets are read: what has been
-- dispatched is a first part of the messages that were added, each one whole, with its source and
-- type, in the order of adding; the rest are those in the block of shared memory and those pending.
pub transfer :
    (source : ℕ) (actions : List Action)
    → let l = run source new_link actions in
      l.dispatched ++ ((read_messages l.buffer l.pipe).0 ++ map (arrival source) l.out.pending)
      ≡ map (arrival source) (posted actions)
unfolding read_messages
transfer source actions =
    (run-IsWhole source actions {sent = []} (record { all = refl; at = (refl, refl) })).all

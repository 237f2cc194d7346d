-- ===== src/Packets/Writing.antt =====
-- What the reader will see of the packets that the writer adds.
use unix_thread_ipc.Prelude.{
  ℕ, ◌≡◌, refl, ap, ◌∙◌, Bool, true, false, List, [], ◌∷◌, ◌++◌, append_assoc, map, Bool-cases, inl,
  inr,
}
use unix_thread_ipc.Packets.{
  Packet, IpcMessage, Outbound, after_message, write_one_message, write_pending,
  write_pending_messages, stuck, Arrival, read_messages,
}
use unix_thread_ipc.Packets.OneMessage.{
  arrival, Fits, idle, Written, whole, part, write_one_message-Written,
}

-- What the reader has, where the queue may be empty.
abbrev pub IsAt : Outbound → List IpcMessage → List ℕ → Type 0
IsAt o [] left = (o.in_progress ≡ false) × (o.in_progress_written ≡ 0)
IsAt o (m ∷ rest) left = Fits o m left

idle-IsAt : (o : Outbound) (pending : List IpcMessage) (left : List ℕ) → IsAt (idle o) pending left
idle-IsAt o [] left = (refl, refl)
idle-IsAt o (m ∷ rest) left = (λ e. cc, λ e. refl)

-- What will have arrived when everything that is pending has been sent and read.
abbrev pub arriving : ℕ → List ℕ → Outbound → List Packet → List Arrival
arriving source buffer o pipe = (read_messages buffer pipe).0 ++ map (arrival source) o.pending

-- Writing changes nothing in what will have arrived.
abbrev pub Keeps : ℕ → List ℕ → List Arrival → ℕ × Outbound × List Packet → Type 0
Keeps source buffer all (n, o, pipe) =
    (arriving source buffer o pipe ≡ all) × IsAt o o.pending (read_messages buffer pipe).1

module _ (source : ℕ) (buffer : List ℕ) where
  after_message-Keeps :
      (m : IpcMessage) (rest : List IpcMessage) (o : Outbound) (pipe : List Packet)
      → ((pipe' : List Packet)
          → Keeps source buffer
              ((read_messages buffer pipe').0 ++ map (arrival source) rest)
              (write_pending source rest (idle o) pipe' false))
      → (x : Bool × Outbound × List Packet)
      → Written source o m buffer (read_messages buffer pipe) x
      → Keeps source buffer
          ((read_messages buffer pipe).0 ++ map (arrival source) (m ∷ rest))
          (after_message m rest x (write_pending source rest x.1 x.2 false))
  after_message-Keeps m rest o pipe ih x (whole pipe' e) =
      let (a, b) = ih pipe' in
      (
        a
            ∙ ap (λ (r : List Arrival × List ℕ). r.0 ++ map (arrival source) rest) e
            ∙ append_assoc (read_messages buffer pipe).0 (arrival source m ∷ [])
                (map (arrival source) rest),
        b,
      )
  after_message-Keeps m rest o pipe ih x (part o' pipe' e fits) =
      (ap (λ l. l ++ map (arrival source) (m ∷ rest)) e, fits)

  write_pending-Keeps :
      (pending : List IpcMessage) (o : Outbound) (pipe : List Packet) (allow_large : Bool)
      → IsAt o pending (read_messages buffer pipe).1
      → Keeps source buffer
          ((read_messages buffer pipe).0 ++ map (arrival source) pending)
          (write_pending source pending o pipe allow_large)
  unfolding write_pending
  write_pending-Keeps [] o pipe allow_large h = (refl, h)
  write_pending-Keeps (m ∷ rest) o pipe allow_large h =
      after_message-Keeps m rest o pipe
        (λ pipe'.
          write_pending-Keeps rest (idle o) pipe' false
            (idle-IsAt o rest (read_messages buffer pipe').1))
        (write_one_message source o pipe m allow_large)
        (write_one_message-Written source o m buffer pipe h allow_large)

  abbrev pub Kept : List Arrival → Outbound × List Packet → Type 0
  Kept all (o, pipe) = Keeps source buffer all (0, o, pipe)

  pub write_pending_messages-Kept :
      (o : Outbound) (pipe : List Packet)
      → IsAt o o.pending (read_messages buffer pipe).1
      → Kept (arriving source buffer o pipe) (write_pending_messages source o pipe)
  unfolding write_pending_messages
  write_pending_messages-Kept o pipe h =
      let all = write_pending-Keeps o.pending o pipe true h in
      elim (Bool-cases (stuck (write_pending source o.pending o pipe true))) [
        | inl waits ↦ rw (waits) all
        | inr releases ↦ rw (releases) all
      ]

-- ===== src/Packets/OneMessage.antt =====
-- `WriteOnePacket` and `WriteOneMessage`: what the reader will see.
use native.Mathlib.Nat.{zero-add}
use unix_thread_ipc.Prelude.{
  ℕ, zero, suc, ◌+◌, ◌-◌, ◌≡◌, refl, ap, ◌∙◌, Bool, true, false, List, [], ◌∷◌, ◌++◌, arith, ltb,
  Bool-cases, inl, inr, if◌then◌else◌, length, take, drop, take_of_le,
}
use unix_thread_ipc.Packets.{
  buffer_capacity, header_size, Header, Packet, IpcMessage, Outbound, used, write_one_packet,
  wanted, after_packet, write_one_message, read_one_packet, Arrival, read_messages,
}

-- A message as it should arrive.
abbrev pub arrival : ℕ → IpcMessage → Arrival
arrival source m = record { msg_source = source; msg_type = m.message_type; bytes = m.bytes }

-- What a packet behind those of the block adds.
abbrev behind : List Arrival × List ℕ → Packet → List Arrival × List ℕ
behind (ms, left) p =
    if p.header.last_packet
    then (
      ms
          ++ (record {
            msg_source = p.header.msg_source;
            msg_type = p.header.msg_type;
            bytes = read_one_packet left p;
          }
              ∷ []),
      [],
    )
    else (ms, read_one_packet left p)

read_messages-snoc :
    (buffer : List ℕ) (pipe : List Packet) (p : Packet)
    → read_messages buffer (pipe ++ (p ∷ [])) ≡ behind (read_messages buffer pipe) p
unfolding read_messages
read_messages-snoc buffer [] p = ground arith
read_messages-snoc buffer (q ∷ pipe) p =
    ground
      (arith, read_messages-snoc [] pipe p, read_messages-snoc (read_one_packet buffer q) pipe p)

take-nil : (n : ℕ) → take {A = ℕ} n [] ≡ []
take-nil zero = refl
take-nil (suc n) = refl

suc_add : (n k : ℕ) → suc (n + k) ≡ suc n + k
suc_add n k = omega arith

take-add : (n k : ℕ) (xs : List ℕ) → take n xs ++ take k (drop n xs) ≡ take (n + k) xs
take-add zero k xs = rw zero-add refl
take-add (suc n) k [] = rw (take-nil k, take-nil (suc n + k)) refl
take-add (suc n) k (x ∷ xs) =
    ap (λ l. x ∷ l) (take-add n k xs) ∙ ap (λ j. take j (x ∷ xs)) (suc_add n k)

-- The rest of a message behind its first `n` bytes.
take-rest : (n : ℕ) (xs : List ℕ) → take n xs ++ take (length xs - n) (drop n xs) ≡ xs
take-rest n xs = take-add n (length xs - n) xs ∙ take_of_le (n + (length xs - n)) xs (omega arith)

-- What the reader has of the message that the writer is at.
abbrev pub Fits : Outbound → IpcMessage → List ℕ → Type 0
Fits o m left =
    (o.in_progress ≡ true → left ≡ take o.in_progress_written m.bytes)
    × (o.in_progress ≡ false → o.in_progress_written ≡ 0)

abbrev pub idle : Outbound → Outbound
idle o = record o { in_progress = false; in_progress_written = 0; in_progress_sequence = 0 }

-- What `WriteOnePacket` does.
data Put (pipe : List Packet) (h : Header) (msg_data : List ℕ)
    : Bool × Header × List Packet → Type 0 where
  refused : (h' : Header) → Put pipe h msg_data (false, h', pipe)
  all_of_it :
      Put pipe h msg_data
        (true, h, pipe ++ (record { header = h; content = take h.packet_size msg_data } ∷ []))
  cut : Put pipe h msg_data (
    true,
    record h { packet_size = 8163; last_packet = false },
    pipe
        ++ (record {
          header = record h { packet_size = 8163; last_packet = false };
          content = take 8163 msg_data;
        }
            ∷ []),
  )

write_one_packet-Put :
    (pipe : List Packet) (h : Header) (msg_data : List ℕ) (allow_large : Bool)
    → Put pipe h msg_data (write_one_packet pipe h msg_data allow_large)
unfolding write_one_packet
write_one_packet-Put pipe h msg_data allow_large =
    elim (Bool-cases (ltb buffer_capacity (header_size + h.packet_size))) [
      | inr fit ↦
          elim (Bool-cases (ltb (buffer_capacity - used pipe) (header_size + h.packet_size))) [
            | inl no_room ↦ rw (fit, no_room) (refused h)
            | inr room ↦ rw (fit, room) all_of_it
          ]
      | inl large ↦ elim (Bool-cases allow_large) [
        | inr small_only ↦ rw (large, small_only) (refused h)
        | inl allowed ↦ elim (Bool-cases (ltb (buffer_capacity - used pipe) buffer_capacity)) [
          | inl no_room ↦ rw (large, allowed, no_room) (refused _)
          | inr room ↦ rw (large, allowed, room) cut
        ]
      ]
    ]

-- What `WriteOneMessage` does to what the reader will see.
pub data Written (source : ℕ) (o : Outbound) (m : IpcMessage) (buffer : List ℕ)
    (before : List Arrival × List ℕ) : Bool × Outbound × List Packet → Type 0 where
  whole :
      (pipe' : List Packet)
      → read_messages buffer pipe' ≡ (before.0 ++ (arrival source m ∷ []), [])
      → Written source o m buffer before (true, idle o, pipe')
  part :
      (o' : Outbound) (pipe' : List Packet)
      → (read_messages buffer pipe').0 ≡ before.0
      → Fits o' m (read_messages buffer pipe').1
      → Written source o m buffer before (false, o', pipe')

module _ (source : ℕ) (o : Outbound) (m : IpcMessage) (buffer : List ℕ) (pipe : List Packet)
    (fits : Fits o m (read_messages buffer pipe).1) where
  -- A packet of this header would end the message, and one of `k` bytes would continue it.
  last_packet_lem :
      let (h, msg_data) = wanted source o m in
      behind
        (read_messages buffer pipe)
        (record { header = h; content = take h.packet_size msg_data })
      ≡ ((read_messages buffer pipe).0 ++ (arrival source m ∷ []), [])
  unfolding read_one_packet
  last_packet_lem = ground (
    arith,
    fits,
    take-rest o.in_progress_written m.bytes,
    take_of_le (length m.bytes) m.bytes (omega arith),
  )

  next_packet_lem :
      (k : ℕ)
      → let (h, msg_data) = wanted source o m in
        behind (read_messages buffer pipe) (record {
          header = record h { packet_size = k; last_packet = false };
          content = take k msg_data;
        })
        ≡ ((read_messages buffer pipe).0, take (o.in_progress_written + k) m.bytes)
  unfolding read_one_packet
  next_packet_lem k = ground (arith, fits, take-add o.in_progress_written k m.bytes)

  wanted-last_packet : (wanted source o m).0.last_packet ≡ true
  wanted-last_packet = ground arith

  finish :
      (x : Bool × Header × List Packet)
      → Put pipe (wanted source o m).0 (wanted source o m).1 x
      → Written source o m buffer (read_messages buffer pipe) (after_packet o pipe x)
  finish x (refused h) = part o pipe refl fits
  finish x all_of_it = rw wanted-last_packet (
      whole _ (
        read_messages-snoc buffer pipe (record {
          header = (wanted source o m).0;
          content = take (wanted source o m).0.packet_size (wanted source o m).1;
        })
        ∙ last_packet_lem))
  finish x cut =
      let eq =
        read_messages-snoc buffer pipe (record {
          header = record (wanted source o m).0 { packet_size = 8163; last_packet = false };
          content = take 8163 (wanted source o m).1;
        })
        ∙ next_packet_lem 8163 in
      part _ _ (ap (λ (r : List Arrival × List ℕ). r.0) eq)
        (λ on. ap (λ (r : List Arrival × List ℕ). r.1) eq, λ off. cc)

  pub write_one_message-Written :
      (allow_large : Bool)
      → Written source o m buffer
          (read_messages buffer pipe)
          (write_one_message source o pipe m allow_large)
  unfolding write_one_message
  write_one_message-Written allow_large =
      finish _ (write_one_packet-Put pipe (wanted source o m).0 (wanted source o m).1 allow_large)

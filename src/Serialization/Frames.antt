-- ===== src/Serialization/Frames.antt =====
-- `CreateAndReadObject` up to the fresh object, and behind it.
use native.Mathlib.Nat.{mod-eq_of_lt}
use unix_thread_ipc.Prelude.{
  ℕ, suc, ◌+◌, ◌%◌, ◌^◌, ◌<◌, ◌≡◌, ◌≢◌, refl, sym, ap, ◌∙◌, List, [], ◌++◌, append-nil,
  append_assoc, Option, some, arith, drop, length, length-append, ==_of_ne,
}
use unix_thread_ipc.Prelude.Map
use unix_thread_ipc.Prelude.Map.{Map}
use unix_thread_ipc.Prelude.Size.{add_size}
use unix_thread_ipc.Serialization.{
  le_bytes, Object, Deserializer, got, Reader, deserialize, read_body, read_object,
}
use unix_thread_ipc.Serialization.Bytes.{Unread, advance, advance-Unread, read_int-Unread}
use unix_thread_ipc.Serialization.Writing.{frame}
use unix_thread_ipc.Serialization.Texts.{size_of_int_lem}

module _ (from_utf8 : List ℕ → Option (List ℕ)) where
  abbrev pub embedded_reader : Deserializer → ℕ → Deserializer
  embedded_reader d n = record { memory = drop d.read_pos d.memory; size = n; read_pos = 0 }

  pub embedded_reader-Unread :
      (d : Deserializer) (bytes b rest : List ℕ)
      → Unread d (bytes ++ b) rest
      → Unread (embedded_reader d (length bytes)) (bytes ++ []) (b ++ rest)
  embedded_reader-Unread d bytes b rest (unread, fits, inside, small) =
      let all : bytes ++ [] ≡ bytes = append-nil bytes in
      (
        unread ∙ append_assoc bytes b rest ∙ ap (λ l. l ++ (b ++ rest)) (sym all),
        omega (arith, ap length all),
        omega arith,
        omega (arith, length-append bytes b),
      )

  read_body_lem :
      (constructors : Map Object) (id : ℕ) (fresh o : Object) (bytes : List ℕ)
      (read : Reader Object) (d e : Deserializer)
      → id ≢ 0
      → Map.lookup id constructors ≡ some fresh
      → length bytes < 2 ^ 31
      → d.read_pos + length bytes < 2 ^ 64
      → deserialize from_utf8 constructors read fresh (embedded_reader d (length bytes)) ≡ got o e
      → read_body from_utf8 constructors read id (length bytes) d ≡ got o (advance (length bytes) d)
  read_body_lem constructors id fresh o bytes read d e known registered h small run =
      let sum : add_size d.read_pos (length bytes) ≡ d.read_pos + length bytes =
        mod-eq_of_lt small in
      rw (==_of_ne id 0 known, registered, size_of_int_lem (length bytes) h, run, sum) refl

  -- `CreateAndReadObject` up to the class and the size.
  pub read_frame_lem :
      (constructors : Map Object) (fuel id : ℕ) (bytes b rest : List ℕ) (d : Deserializer)
      → id < 2 ^ 32
      → length bytes < 2 ^ 31
      → Unread d (frame id bytes ++ b) rest
      → read_object from_utf8 constructors (suc fuel) d
        ≡ read_body from_utf8 constructors
            (read_object from_utf8 constructors fuel)
            id
            (length bytes)
            (advance 4 (advance 4 d))
  unfolding read_object
  read_frame_lem constructors fuel id bytes b rest d known h unread =
      let size : length bytes % 2 ^ 32 ≡ length bytes = mod-eq_of_lt (omega arith) in
      let tail = le_bytes 4 (length bytes % 2 ^ 32) ++ (bytes ++ b) in
      rw
        (
          read_object,
          read_int-Unread d id tail rest known unread,
          read_int-Unread (advance 4 d) (length bytes % 2 ^ 32) (bytes ++ b) rest (omega arith)
              (advance-Unread d (le_bytes 4 id) tail rest unread),
        )
        (ap
          (λ n.
            read_body from_utf8 constructors (read_object from_utf8 constructors fuel) id n
              (advance 4 (advance 4 d)))
          size)

  pub frame-Unread :
      (d : Deserializer) (id : ℕ) (bytes b rest : List ℕ)
      → Unread d (frame id bytes ++ b) rest
      → Unread (advance 4 (advance 4 d)) (bytes ++ b) rest
  frame-Unread d id bytes b rest unread =
      let size = le_bytes 4 (length bytes % 2 ^ 32) in
      advance-Unread (advance 4 d) size (bytes ++ b) rest
        (advance-Unread d (le_bytes 4 id) (size ++ (bytes ++ b)) rest unread)

  pub read_fresh_lem :
      (constructors : Map Object) (fuel id : ℕ) (fresh o : Object) (bytes b rest : List ℕ)
      (d e : Deserializer)
      → (id ≢ 0) × (id < 2 ^ 32)
      → Map.lookup id constructors ≡ some fresh
      → length bytes < 2 ^ 31
      → Unread d (frame id bytes ++ b) rest
      → deserialize from_utf8 constructors
          (read_object from_utf8 constructors fuel)
          fresh
          (embedded_reader (advance 4 (advance 4 d)) (length bytes))
        ≡ got o e
      → read_object from_utf8 constructors (suc fuel) d ≡ got o (advance (8 + length bytes) d)
  read_fresh_lem constructors fuel id fresh o bytes b rest d e (known, small) registered h unread
        run =
      let (_, fits, _, bound) = frame-Unread d id bytes b rest unread in
      let position : d.read_pos + 4 + 4 + length bytes ≡ d.read_pos + (8 + length bytes) =
        omega arith in
      read_frame_lem constructors fuel id bytes b rest d small h unread
      ∙ read_body_lem constructors id fresh o bytes (read_object from_utf8 constructors fuel)
          (advance 4 (advance 4 d)) e known registered h (omega (arith, length-append bytes b)) run
      ∙ ap (λ p. got o (record d { read_pos = p })) position

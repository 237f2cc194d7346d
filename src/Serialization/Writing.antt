-- ===== src/Serialization/Writing.antt =====
-- What the Serializer appends to the buffer.
use unix_thread_ipc.Prelude.{
  ℕ, ◌+◌, ◌-◌, ◌%◌, ◌^◌, ◌≡◌, ◌≢◌, sym, ap, ◌∙◌, Bool, true, List, [], ◌++◌, append-nil,
  append_assoc, Option, arith, drop, length, length-append, take-append, drop-append, ==_of_ne,
}
use unix_thread_ipc.Serialization.Bytes.{drop_add}
use unix_thread_ipc.Serialization.{
  le_bytes, string16_id, notification_id, Object, null, string16, notification, class_id, patch_int,
  write_framed, utf8_or_empty, write_string, write_pointer, serialize, write_object,
}

-- The class, the size and what `Serialize` of an object writes.
abbrev pub frame : ℕ → List ℕ → List ℕ
frame id body = le_bytes 4 id ++ (le_bytes 4 (length body % 2 ^ 32) ++ body)

module _ (to_utf8 : List ℕ → Option (List ℕ)) where
  abbrev pub string_bytes : List ℕ → List ℕ
  string_bytes s = le_bytes 4 (length (utf8_or_empty to_utf8 s) % 2 ^ 32) ++ utf8_or_empty to_utf8 s

  abbrev pub body : Object → List ℕ
  body null = []
  body (string16 s) = string_bytes s
  body (notification topic content) = string_bytes topic ++ frame (class_id content) (body content)

  write_string_lem : (buffer s : List ℕ) → write_string to_utf8 buffer s ≡ buffer ++ string_bytes s
  unfolding write_string
  write_string_lem buffer s =
      let utf8 = utf8_or_empty to_utf8 s in
      append_assoc buffer (le_bytes 4 (length utf8 % 2 ^ 32)) utf8

patch_lem :
    (header bytes : List ℕ) (n : ℕ)
    → patch_int ((header ++ le_bytes 4 0) ++ bytes) (length header) n
      ≡ header ++ (le_bytes 4 (n % 2 ^ 32) ++ bytes)
patch_lem header bytes n =
    let apart : (header ++ le_bytes 4 0) ++ bytes ≡ header ++ (le_bytes 4 0 ++ bytes) =
      append_assoc header (le_bytes 4 0) bytes in
    let behind : drop (length header + 4) (header ++ (le_bytes 4 0 ++ bytes)) ≡ bytes =
      drop_add (length header) 4 (header ++ (le_bytes 4 0 ++ bytes))
      ∙ ap (drop 4) (drop-append header (le_bytes 4 0 ++ bytes)) in
    ap (λ l. patch_int l (length header) n) apart
    ∙ ap
        (λ l.
          l
          ++ (le_bytes 4 (n % 2 ^ 32)
              ++ drop (length header + 4) (header ++ (le_bytes 4 0 ++ bytes))))
        (take-append header (le_bytes 4 0 ++ bytes))
    ∙ ap (λ l. header ++ (le_bytes 4 (n % 2 ^ 32) ++ l)) behind

pub write_framed_lem :
    (id : ℕ) (f : List ℕ → Bool × List ℕ) (bytes : List ℕ)
    → id ≢ 0
    → ((buffer : List ℕ) → f buffer ≡ (true, buffer ++ bytes))
    → (buffer : List ℕ) → write_framed id f buffer ≡ (true, buffer ++ frame id bytes)
unfolding write_framed
write_framed_lem id f bytes h run buffer =
    let header = buffer ++ le_bytes 4 id in
    let size : length ((header ++ le_bytes 4 0) ++ bytes) - (length header + 4) ≡ length bytes =
      omega (
        arith,
        length-append (header ++ le_bytes 4 0) bytes,
        length-append header (le_bytes 4 0),
      ) in
    rw
      (
        write_framed,
        ==_of_ne id 0 h,
        run (header ++ le_bytes 4 0),
        patch_lem header bytes (length ((header ++ le_bytes 4 0) ++ bytes) - (length header + 4)),
        size,
      )
      (ap (λ l. (true, l))
        (append_assoc buffer (le_bytes 4 id) (le_bytes 4 (length bytes % 2 ^ 32) ++ bytes)))

module _ (to_utf8 : List ℕ → Option (List ℕ)) where
  -- `WriteObject`, given what `Serialize` of the object appends.
  write_pointer_lem :
      (o : Object) (f : List ℕ → Bool × List ℕ)
      → ((buffer : List ℕ) → f buffer ≡ (true, buffer ++ body to_utf8 o))
      → (buffer : List ℕ)
      → write_pointer to_utf8 o f buffer ≡ (true, buffer ++ frame (class_id o) (body to_utf8 o))
  write_pointer_lem null f run buffer =
      ap (λ l. (true, l)) (append_assoc buffer (le_bytes 4 0) (le_bytes 4 0))
  write_pointer_lem (string16 s) f run buffer =
      write_framed_lem string16_id f (string_bytes to_utf8 s) (λ e. omega arith) run buffer
  write_pointer_lem (notification topic content) f run buffer =
      write_framed_lem notification_id f (body to_utf8 (notification topic content))
        (λ e. omega arith) run buffer

  serialize_lem :
      (o : Object) (buffer : List ℕ) → serialize to_utf8 o buffer ≡ (true, buffer ++ body to_utf8 o)
  unfolding serialize
  serialize_lem null buffer = ap (λ l. (true, l)) (sym (append-nil buffer))
  serialize_lem (string16 s) buffer = ap (λ l. (true, l)) (write_string_lem to_utf8 buffer s)
  serialize_lem (notification topic content) buffer =
      write_pointer_lem content (serialize to_utf8 content) (serialize_lem content)
        (write_string to_utf8 buffer topic)
      ∙ ap (λ l. (true, l ++ frame (class_id content) (body to_utf8 content)))
          (write_string_lem to_utf8 buffer topic)
      ∙ ap (λ l. (true, l)) (append_assoc buffer (string_bytes to_utf8 topic) _)

  pub write_object_lem :
      (o : Object) (buffer : List ℕ)
      → write_object to_utf8 o buffer ≡ (true, buffer ++ frame (class_id o) (body to_utf8 o))
  unfolding write_object
  write_object_lem o buffer = write_pointer_lem o (serialize to_utf8 o) (serialize_lem o) buffer

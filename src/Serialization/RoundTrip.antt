-- ===== src/Serialization/RoundTrip.antt =====
-- `CreateAndReadObject` behind `WriteObject`.
use mathlib.Core.Path.{subst}
use unix_thread_ipc.Prelude.{
  ℕ, zero, suc, ◌+◌, ◌^◌, ◌≤◌, ◌<◌, ◌≡◌, refl, sym, ap, ◌∙◌, true, List, [], ◌++◌, append-nil,
  append_assoc, Option, some, arith, drop, length, length-append, drop-append,
}
use unix_thread_ipc.Prelude.Map
use unix_thread_ipc.Prelude.Map.{Map}
use unix_thread_ipc.Serialization.{
  string16_id, notification_id, Object, null, string16, notification, class_id, write_object,
  Deserializer, got, Reader, c_string, deserialize, read_object,
}
use unix_thread_ipc.Serialization.Bytes.{Unread, advance, advance-Unread}
use unix_thread_ipc.Serialization.Writing.{frame, string_bytes, body, write_object_lem}
use unix_thread_ipc.Serialization.Texts.{IsText, read_string-Unread}
use unix_thread_ipc.Serialization.Frames.{
  embedded_reader, embedded_reader-Unread, read_frame_lem, frame-Unread, read_fresh_lem,
}

module _ (to_utf8 : List ℕ → Option (List ℕ)) where
  -- The strings of an object have no zero units and have UTF-8 forms.
  abbrev pub HasTexts : Object → Type 0
  HasTexts null = Unit
  HasTexts (string16 s) = IsText to_utf8 s
  HasTexts (notification topic content) = IsText to_utf8 topic × HasTexts content

abbrev pub depth : Object → ℕ
depth null = 1
depth (string16 s) = 1
depth (notification topic content) = suc (depth content)

-- The classes of `Object` are registered.
abbrev pub Registered : Map Object → Type 0
Registered constructors =
    (Map.lookup string16_id constructors ≡ some (string16 []))
    × (Map.lookup notification_id constructors ≡ some (notification [] null))

module _ (to_utf8 from_utf8 : List ℕ → Option (List ℕ))
    (back : (s u : List ℕ) → to_utf8 s ≡ some u → from_utf8 u ≡ some s)
    (zero_free : (s u : List ℕ) → to_utf8 s ≡ some u → c_string s ≡ s → c_string u ≡ u) where
  abbrev object_bytes : Object → List ℕ
  object_bytes o = frame (class_id o) (body to_utf8 o)

  -- A notification read from its bytes, given how its content is read.
  notification_lem :
      (constructors : Map Object) (read : Reader Object) (t : List ℕ) (c : Object)
      (bytes rest : List ℕ) (d : Deserializer)
      → IsText to_utf8 t
      → length (string_bytes to_utf8 t) < 2 ^ 31
      → Unread d ((string_bytes to_utf8 t ++ bytes) ++ []) rest
      → ((e : Deserializer)
          → Unread e (bytes ++ []) rest
          → read e ≡ got c (advance (length bytes) e))
      → deserialize from_utf8 constructors read (notification [] null) d
        ≡ got
            (notification t c)
            (advance (length bytes) (advance (length (string_bytes to_utf8 t)) d))
  notification_lem constructors read t c bytes rest d text h unread run =
      let text_bytes = string_bytes to_utf8 t in
      let apart : Unread d (text_bytes ++ (bytes ++ [])) rest =
        subst (λ l. Unread d l rest) (append_assoc text_bytes bytes []) unread in
      rw
        (
          read_string-Unread to_utf8 from_utf8 back zero_free d t (bytes ++ []) rest text h apart,
          run (advance (length text_bytes) d)
              (advance-Unread d text_bytes (bytes ++ []) rest apart),
        )
        refl

  read_object-Unread :
      (constructors : Map Object) (o : Object) (fuel : ℕ) (d : Deserializer) (b rest : List ℕ)
      → Registered constructors
      → depth o ≤ fuel
      → HasTexts to_utf8 o
      → length (body to_utf8 o) < 2 ^ 31
      → Unread d (object_bytes o ++ b) rest
      → read_object from_utf8 constructors fuel d ≡ got o (advance (8 + length (body to_utf8 o)) d)
  read_object-Unread constructors null zero d b rest registered enough texts h unread =
      absurd (omega arith)
  read_object-Unread constructors (string16 s) zero d b rest registered enough texts h unread =
      absurd (omega arith)
  read_object-Unread constructors (notification t c) zero d b rest registered enough texts h
        unread =
      absurd (omega arith)
  read_object-Unread constructors null (suc fuel) d b rest registered enough texts h unread =
      let position : d.read_pos + 4 + 4 ≡ d.read_pos + 8 = omega arith in
      read_frame_lem from_utf8 constructors fuel 0 [] b rest d (omega arith) (omega arith) unread
      ∙ ap (λ p. got null (record d { read_pos = p })) position
  read_object-Unread constructors (string16 s) (suc fuel) d b rest registered enough texts h
        unread =
      let bytes = string_bytes to_utf8 s in
      let inner = embedded_reader from_utf8 (advance 4 (advance 4 d)) (length bytes) in
      let run = read_string-Unread to_utf8 from_utf8 back zero_free inner s [] (b ++ rest) texts h (
        embedded_reader-Unread from_utf8 (advance 4 (advance 4 d)) bytes b rest
          (frame-Unread from_utf8 d string16_id bytes b rest unread)) in
      read_fresh_lem from_utf8 constructors fuel string16_id (string16 []) (string16 s) bytes b rest
        d (advance (length bytes) inner) ((λ e. omega arith), omega arith) registered.0 h unread
        (rw (run) refl)
  read_object-Unread constructors (notification t c) (suc fuel) d b rest registered enough
        (text, texts) h unread =
      let bytes = body to_utf8 (notification t c) in
      let content = object_bytes c in
      let inner = embedded_reader from_utf8 (advance 4 (advance 4 d)) (length bytes) in
      let start : Unread inner (bytes ++ []) (b ++ rest) =
        embedded_reader-Unread from_utf8 (advance 4 (advance 4 d)) bytes b rest
          (frame-Unread from_utf8 d notification_id bytes b rest unread) in
      let size = length-append (string_bytes to_utf8 t) content in
      let run =
        notification_lem constructors (read_object from_utf8 constructors fuel) t c content
          (b ++ rest) inner text (omega (arith, size)) start
          (λ e there.
            read_object-Unread constructors c fuel e [] (b ++ rest) registered (omega arith) texts
              (omega (arith, size)) there
            ∙ ap (λ n. got c (advance n e)) (omega arith)) in
      read_fresh_lem from_utf8 constructors fuel notification_id (notification [] null)
        (notification t c) bytes b rest d _ ((λ e. omega arith), omega arith) registered.1 h unread
        run

  read_back :
      (constructors : Map Object) (o : Object) (fuel : ℕ) (buffer rest : List ℕ)
      → Registered constructors
      → HasTexts to_utf8 o
      → depth o ≤ fuel
      → let written = buffer ++ object_bytes o in
        length (written ++ rest) < 2 ^ 31
        → (true ≡ true)
          × (read_object from_utf8 constructors fuel (record {
            memory = written ++ rest;
            size = length (written ++ rest);
            read_pos = length buffer;
          })
              ≡ got o (record {
                memory = written ++ rest;
                size = length (written ++ rest);
                read_pos = length written;
              }))
  read_back constructors o fuel buffer rest registered texts enough h =
      let written = buffer ++ object_bytes o in
      let d : Deserializer = record {
        memory = written ++ rest;
        size = length (written ++ rest);
        read_pos = length buffer;
      } in
      let size = length-append written rest in
      let added = length-append buffer (object_bytes o) in
      let all : object_bytes o ++ rest ≡ (object_bytes o ++ []) ++ rest =
        ap (λ l. l ++ rest) (sym (append-nil (object_bytes o))) in
      let start : Unread d (object_bytes o ++ []) rest = (
        ap (drop (length buffer)) (append_assoc buffer (object_bytes o) rest)
            ∙ drop-append buffer (object_bytes o ++ rest)
            ∙ all,
        omega (arith, size, added, ap length (append-nil (object_bytes o))),
        omega (arith, size, added),
        omega arith,
      ) in
      (
        refl,
        read_object-Unread constructors o fuel d [] rest registered enough texts
              (omega (arith, size, added)) start
            ∙ ap (λ p. got o (record d { read_pos = p })) (omega (arith, added)),
      )

  -- What `WriteObject` appends to a buffer, whatever is appended behind it, reads back as the same
  -- object, with the reader left right behind it: for strings without zero units that have a UTF-8
  -- form, where the conversions are inverse and bring in no zeros, with both classes of objects
  -- registered, in a buffer below 2^31 bytes, and with fuel for the depth of the object.
  pub write_object-read_object :
      (constructors : Map Object) (o : Object) (fuel : ℕ) (buffer rest : List ℕ)
      → Registered constructors
      → HasTexts to_utf8 o
      → depth o ≤ fuel
      → let (ok, written) = write_object to_utf8 o buffer in
        length (written ++ rest) < 2 ^ 31
        → (ok ≡ true)
          × (read_object from_utf8 constructors fuel (record {
            memory = written ++ rest;
            size = length (written ++ rest);
            read_pos = length buffer;
          })
              ≡ got o (record {
                memory = written ++ rest;
                size = length (written ++ rest);
                read_pos = length written;
              }))
  write_object-read_object constructors o fuel buffer rest registered texts enough =
      subst
        (λ r.
          length (r.1 ++ rest) < 2 ^ 31
          → (r.0 ≡ true)
            × (read_object from_utf8 constructors fuel (record {
              memory = r.1 ++ rest;
              size = length (r.1 ++ rest);
              read_pos = length buffer;
            })
                ≡ got o (record {
                  memory = r.1 ++ rest;
                  size = length (r.1 ++ rest);
                  read_pos = length r.1;
                })))
        (sym (write_object_lem to_utf8 o buffer))
        (read_back constructors o fuel buffer rest registered texts enough)

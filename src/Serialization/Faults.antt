-- ===== src/Serialization/Faults.antt =====
-- The sizes that a Deserializer takes from its bytes.
use native.Mathlib.Nat.{mod-eq_of_lt}
use mathlib.Core.Path.{subst}
use unix_thread_ipc.Prelude.{
  ℕ, suc, ◌+◌, ◌-◌, ◌%◌, ◌^◌, ◌≤◌, ◌<◌, ◌≡◌, ◌⊎◌, inl, inr, refl, sym, true, false, List, [], ◌++◌,
  Option, some, arith, length, dec_lt, leb,
}
use unix_thread_ipc.Prelude.Map
use unix_thread_ipc.Prelude.Map.{Map}
use unix_thread_ipc.Prelude.Size.{add_size}
use unix_thread_ipc.Serialization.{
  le_bytes, size_of_int, string16_id, Object, string16, Deserializer, got, fault, allocate,
  read_bytes, read_string, read_object, read_int,
}
use unix_thread_ipc.Serialization.Bytes.{Unread, advance, advance-Unread, read_int-Unread}

module _ (from_utf8 : List ℕ → Option (List ℕ)) where
  read_bytes-fault :
      (n : ℕ) (d : Deserializer)
      → add_size d.read_pos n ≤ d.size
      → length d.memory < d.read_pos + n
      → read_bytes n d ≡ fault
  unfolding read_bytes
  read_bytes-fault n d fits outside = ground arith

  -- The end of `ReadString` behind its size.
  read_text-fault :
      (size : ℕ) (d e : Deserializer)
      → read_int d ≡ got size e
      → (allocate size e ≡ fault)
        ⊎ ((allocate size e ≡ got size e) × (read_bytes (size_of_int size) e ≡ fault))
      → read_string from_utf8 d ≡ fault
  unfolding read_string
  read_text-fault size d e first (inl none_allocated) = rw (read_string, first, none_allocated) refl
  read_text-fault size d e first (inr (allocated, outside)) =
      rw (read_string, first, allocated, outside) refl

  allocate-fault :
      (size : ℕ) (d : Deserializer)
      → 2 ^ 31 ≤ size + 1
      → size + 1 < 2 ^ 32
      → allocate size d ≡ fault
  allocate-fault size d h bound =
      let sum : (size + 1) % 2 ^ 32 ≡ size + 1 = mod-eq_of_lt bound in
      let large : leb (2 ^ 31) (size + 1) ≡ true = ground arith in rw (sum, large) refl

  minus_one-fault :
      (d : Deserializer)
      → 0 < d.read_pos
      → d.read_pos ≤ d.size
      → d.size < 2 ^ 64
      → length d.memory < 2 ^ 63
      → read_bytes (size_of_int (2 ^ 32 - 1)) d ≡ fault
  minus_one-fault d started fits bound small =
      read_bytes-fault (2 ^ 64 - 1) d (omega arith) (omega arith)

  -- Where the next four bytes are the size of a string and the size is negative or the largest `int`,
  -- `ReadString` does not return false: it leaves the memory or asks for a negative amount of it.
  pub negative_size-fault :
      (d : Deserializer) (size : ℕ) (b rest : List ℕ)
      → 2 ^ 31 ≤ size + 1
      → size < 2 ^ 32
      → length d.memory < 2 ^ 63
      → Unread d (le_bytes 4 size ++ b) rest
      → read_string from_utf8 d ≡ fault
  negative_size-fault d size b rest large bound small unread = elim (dec_lt (size + 1) (2 ^ 32)) [
    | yes p ↦
        read_text-fault size d (advance 4 d) (read_int-Unread d size b rest bound unread)
          (inl (allocate-fault size (advance 4 d) large p))
    | no p ↦
        let last : size ≡ 2 ^ 32 - 1 = omega arith in
        let (_, fits, _, limit) = advance-Unread d (le_bytes 4 size) b rest unread in
        read_text-fault size d (advance 4 d) (read_int-Unread d size b rest bound unread) (
          inr (
            subst
              (λ n.
                (allocate n (advance 4 d) ≡ got n (advance 4 d))
                × (read_bytes (size_of_int n) (advance 4 d) ≡ fault))
              (sym last)
              (refl, minus_one-fault (advance 4 d) (omega arith) (omega arith) limit small)))
  ]

  short_string-fault :
      (m n : ℕ) (text : List ℕ)
      → length text < m
      → 4 + m ≤ n
      → n < 2 ^ 31
      → read_string from_utf8 (record { memory = le_bytes 4 m ++ text; size = n; read_pos = 0 })
        ≡ fault
  short_string-fault m n text short fits bound =
      let d : Deserializer = record { memory = le_bytes 4 m ++ text; size = n; read_pos = 0 } in
      let start : Unread d (le_bytes 4 m ++ []) text =
        (refl, omega arith, omega arith, omega arith) in
      let sum : (m + 1) % 2 ^ 32 ≡ m + 1 = mod-eq_of_lt (omega arith) in
      let moderate : leb (2 ^ 31) (m + 1) ≡ false = ground arith in
      let size : size_of_int m ≡ m = ground arith in
      let position : add_size 4 m ≡ 4 + m = mod-eq_of_lt (omega arith) in
      read_text-fault m d (advance 4 d) (read_int-Unread d m [] text (omega arith) start) (
        inr (
          rw (sum, moderate) refl,
          rw (size) (read_bytes-fault m (advance 4 d) (omega (arith, position)) (omega arith)),
        ))

  -- The memory of a string object of declared size `n` whose string has the declared size `m`.
  abbrev declared : (n m : ℕ) → List ℕ → List ℕ
  declared n m text = le_bytes 4 string16_id ++ (le_bytes 4 n ++ (le_bytes 4 m ++ text))

  -- `CreateAndReadObject` does not hold the declared size of an object against the size of the
  -- buffer: a string that is shorter than its object declares is read past the end of the buffer.
  pub short_object-fault :
      (constructors : Map Object) (fuel n m : ℕ) (text : List ℕ)
      → Map.lookup string16_id constructors ≡ some (string16 [])
      → length text < m
      → 4 + m ≤ n
      → n < 2 ^ 31
      → let memory = declared n m text in
        read_object from_utf8 constructors
          (suc fuel)
          (record { memory = memory; size = length memory; read_pos = 0 })
        ≡ fault
  unfolding read_object
  short_object-fault constructors fuel n m text registered short fits bound =
      let memory = declared n m text in
      let d : Deserializer = record { memory = memory; size = length memory; read_pos = 0 } in
      let tail = le_bytes 4 n ++ (le_bytes 4 m ++ []) in
      let start : Unread d (le_bytes 4 string16_id ++ tail) text =
        (refl, omega arith, omega arith, omega arith) in
      let size : size_of_int n ≡ n = ground arith in
      rw
        (
          read_object,
          read_int-Unread d string16_id tail text (omega arith) start,
          read_int-Unread (advance 4 d) n (le_bytes 4 m ++ []) text (omega arith)
              (advance-Unread d (le_bytes 4 string16_id) tail text start),
          registered,
          size,
          short_string-fault m n text short fits bound,
        )
        refl

-- ===== src/Serialization/Texts.antt =====
-- `ReadString` behind `WriteString`.
use native.Mathlib.Nat.{mod-eq_of_lt}
use unix_thread_ipc.Prelude.{
  ℕ, ◌+◌, ◌%◌, ◌^◌, ◌<◌, ◌≡◌, refl, ap, ◌∙◌, false, List, ◌++◌, Option, some, arith, length, leb,
}
use unix_thread_ipc.Serialization.{
  le_bytes, size_of_int, utf8_or_empty, Deserializer, got, c_string, allocate, read_string,
}
use unix_thread_ipc.Serialization.Bytes.{
  Unread, advance, advance-Unread, read_bytes-Unread, read_int-Unread,
}
use unix_thread_ipc.Serialization.Writing.{string_bytes}

module _ (to_utf8 : List ℕ → Option (List ℕ)) where
  -- A string without zero units that has a UTF-8 form.
  abbrev pub IsText : List ℕ → Type 0
  IsText s = (c_string s ≡ s) × (to_utf8 s ≡ some (utf8_or_empty to_utf8 s))

pub size_of_int_lem : (n : ℕ) → n < 2 ^ 31 → size_of_int n ≡ n
size_of_int_lem n h = ground arith

allocate_lem : (n : ℕ) (d : Deserializer) → n + 1 < 2 ^ 31 → allocate n d ≡ got n d
allocate_lem n d h =
    let sum : (n + 1) % 2 ^ 32 ≡ n + 1 = mod-eq_of_lt (omega arith) in
    let small : leb (2 ^ 31) (n + 1) ≡ false = ground arith in rw (sum, small) refl

module _ (to_utf8 from_utf8 : List ℕ → Option (List ℕ))
    (back : (s u : List ℕ) → to_utf8 s ≡ some u → from_utf8 u ≡ some s)
    (zero_free : (s u : List ℕ) → to_utf8 s ≡ some u → c_string s ≡ s → c_string u ≡ u) where
  read_utf8-Unread :
      (d : Deserializer) (s u b rest : List ℕ)
      → c_string u ≡ u
      → from_utf8 u ≡ some s
      → 4 + length u < 2 ^ 31
      → Unread d (le_bytes 4 (length u % 2 ^ 32) ++ (u ++ b)) rest
      → read_string from_utf8 d ≡ got s (advance (4 + length u) d)
  unfolding read_string
  read_utf8-Unread d s u b rest ends converted h unread =
      let size : length u % 2 ^ 32 ≡ length u = mod-eq_of_lt (omega arith) in
      let behind : Unread (advance 4 d) (u ++ b) rest =
        advance-Unread d (le_bytes 4 (length u % 2 ^ 32)) (u ++ b) rest unread in
      let position : d.read_pos + 4 + length u ≡ d.read_pos + (4 + length u) = omega arith in
      rw
        (
          read_string,
          read_int-Unread d (length u % 2 ^ 32) (u ++ b) rest (omega arith) unread,
          size,
          allocate_lem (length u) (advance 4 d) (omega arith),
          size_of_int_lem (length u) (omega arith),
          read_bytes-Unread (advance 4 d) u b rest behind,
          ends,
          converted,
        )
        (ap (λ p. got s (record d { read_pos = p })) position)

  pub read_string-Unread :
      (d : Deserializer) (s b rest : List ℕ)
      → IsText to_utf8 s
      → length (string_bytes to_utf8 s) < 2 ^ 31
      → Unread d (string_bytes to_utf8 s ++ b) rest
      → read_string from_utf8 d ≡ got s (advance (length (string_bytes to_utf8 s)) d)
  read_string-Unread d s b rest (plain, converted) h unread =
      let u = utf8_or_empty to_utf8 s in
      let position : 4 + length u ≡ length (string_bytes to_utf8 s) = omega arith in
      read_utf8-Unread d s u b rest (zero_free s u converted plain) (back s u converted)
        (omega arith) unread
      ∙ ap (λ n. got s (advance n d)) position

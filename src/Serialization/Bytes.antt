-- ===== src/Serialization/Bytes.antt =====
-- The bytes of a number, and a reader at a place in its memory.
use native.Mathlib.Nat.{mod-eq_of_lt}
use unix_thread_ipc.Prelude.{
  ℕ, zero, suc, ◌+◌, ◌/◌, ◌^◌, ◌≤◌, ◌<◌, ◌≡◌, refl, sym, ap, ◌∙◌, List, [], ◌∷◌, ◌++◌, append_assoc,
  arith, take, drop, length, length-append, length-drop, take-append, drop-append, ltb, leb, true,
  false,
}
use unix_thread_ipc.Prelude.Size.{add_size}
use unix_thread_ipc.Serialization.{le_bytes, le_value, Deserializer, got, read_bytes, read_int}

pub le_value-le_bytes : (k n : ℕ) → n < 256 ^ k → le_value (le_bytes k n) ≡ n
le_value-le_bytes zero n h = omega arith
le_value-le_bytes (suc k) n h = omega (arith, le_value-le_bytes k (n / 256) (omega arith))

drop_nil : (n : ℕ) → drop {A = ℕ} n [] ≡ []
drop_nil zero = refl
drop_nil (suc n) = refl

pub drop_add : (m n : ℕ) (xs : List ℕ) → drop (m + n) xs ≡ drop n (drop m xs)
drop_add zero n xs = ap (λ i. drop i xs) (omega arith)
drop_add (suc m) n [] =
    let e : suc m + n ≡ suc (m + n) = omega arith in ap (λ i. drop i []) e ∙ sym (drop_nil n)
drop_add (suc m) n (x ∷ xs) =
    let e : suc m + n ≡ suc (m + n) = omega arith in ap (λ i. drop i (x ∷ xs)) e ∙ drop_add m n xs

-- What a reader has before it is `bytes`, within its size, and `rest` behind.
abbrev pub Unread : Deserializer → List ℕ → List ℕ → Type 0
Unread d bytes rest =
    (drop d.read_pos d.memory ≡ bytes ++ rest)
    × (d.read_pos + length bytes ≤ d.size)
    × (d.read_pos ≤ length d.memory)
    × (d.size < 2 ^ 64)

abbrev pub advance : ℕ → Deserializer → Deserializer
advance n d = record d { read_pos = d.read_pos + n }

pub advance-Unread :
    (d : Deserializer) (a b rest : List ℕ)
    → Unread d (a ++ b) rest
    → Unread (advance (length a) d) b rest
advance-Unread d a b rest (unread, fits, inside, small) =
    let size : length (drop d.read_pos d.memory) ≡ length (a ++ b) + length rest =
      ap length unread ∙ length-append (a ++ b) rest in
    (
      drop_add d.read_pos (length a) d.memory
          ∙ ap (drop (length a)) (unread ∙ append_assoc a b rest)
          ∙ drop-append a (b ++ rest),
      omega (arith, length-append a b),
      omega (arith, size, length-append a b, length-drop d.read_pos d.memory),
      small,
    )

pub read_bytes-Unread :
    (d : Deserializer) (a b rest : List ℕ)
    → Unread d (a ++ b) rest
    → read_bytes (length a) d ≡ got a (advance (length a) d)
unfolding read_bytes
read_bytes-Unread d a b rest (unread, fits, inside, small) =
    let size : length (drop d.read_pos d.memory) ≡ length (a ++ b) + length rest =
      ap length unread ∙ length-append (a ++ b) rest in
    let taken : take (length a) (drop d.read_pos d.memory) ≡ a =
      ap (take (length a)) (unread ∙ append_assoc a b rest) ∙ take-append a (b ++ rest) in
    let sum : add_size d.read_pos (length a) ≡ d.read_pos + length a =
      mod-eq_of_lt (omega (arith, length-append a b)) in
    let within : ltb d.size (d.read_pos + length a) ≡ false = ground (arith, length-append a b) in
    let mapped : leb (d.read_pos + length a) (length d.memory) ≡ true =
      ground (arith, size, length-append a b, length-drop d.read_pos d.memory) in
    rw (sum, within, mapped, taken) refl

pub read_int-Unread :
    (d : Deserializer) (n : ℕ) (b rest : List ℕ)
    → n < 2 ^ 32
    → Unread d (le_bytes 4 n ++ b) rest
    → read_int d ≡ got n (advance 4 d)
unfolding read_int
read_int-Unread d n b rest h unread =
    rw (read_int, read_bytes-Unread d (le_bytes 4 n) b rest unread, le_value-le_bytes 4 n h) refl

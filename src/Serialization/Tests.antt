-- ===== src/Serialization/Tests.antt =====
-- Objects written and read at concrete inputs, with ASCII strings.
use mathlib.Core.Path.{subst}
use unix_thread_ipc.Prelude.{
  ℕ, ◌≡◌, ◌≢◌, refl, sym, ap, ◌∙◌, Bool, true, ◌&&◌, Option, none, some, List, [], ◌∷◌, ◌++◌, arith,
  length, leb, if◌then◌else◌,
}
use unix_thread_ipc.Prelude.Map
use unix_thread_ipc.Prelude.Map.{Map}
use unix_thread_ipc.Serialization.{
  c_string, Object, null, string16, notification, register_class, write_object, Deserializer, got,
  fault, out_of_fuel, read_object,
}
use unix_thread_ipc.Serialization.RoundTrip.{write_object-read_object}
use unix_thread_ipc.Serialization.Termination.{read_object-terminates}
use unix_thread_ipc.Serialization.Faults.{short_object-fault}

-- Conversions of strings below 128.
abbrev is_ascii : List ℕ → Bool
is_ascii [] = true
is_ascii (c ∷ rest) = leb c 127 && is_ascii rest

abbrev ascii : List ℕ → Option (List ℕ)
ascii s = if is_ascii s then some s else none

ascii_lem : (s u : List ℕ) → ascii s ≡ some u → s ≡ u
ascii_lem s u e = ground arith

ascii_back : (s u : List ℕ) → ascii s ≡ some u → ascii u ≡ some s
ascii_back s u e =
    let same = ascii_lem s u e in subst (λ t. ascii t ≡ some s) same (e ∙ ap some (sym same))

ascii_zero_free : (s u : List ℕ) → ascii s ≡ some u → c_string s ≡ s → c_string u ≡ u
ascii_zero_free s u e plain = subst (λ t. c_string t ≡ t) (ascii_lem s u e) plain

abbrev constructors : Map Object
constructors = register_class (register_class [] 3 (string16 [])) 8 (notification [] null)

-- The topic "ab" with the content "c".
abbrev message : Object
message = notification (97 ∷ 98 ∷ []) (string16 (99 ∷ []))

abbrev reader_at : List ℕ → ℕ → Deserializer
reader_at memory p = record { memory = memory; size = length memory; read_pos = p }

-- What `WriteObject` of the message appends to a buffer of one byte.
message-write_object : write_object ascii message (7 ∷ []) ≡ (
  true,
  7 ∷ 8 ∷ 0 ∷ 0 ∷ 0 ∷ 19 ∷ 0 ∷ 0 ∷ 0 ∷ 2 ∷ 0 ∷ 0 ∷ 0 ∷ 97 ∷ 98 ∷ 3 ∷ 0 ∷ 0 ∷ 0 ∷ 5 ∷ 0 ∷ 0 ∷ 0 ∷ 1
      ∷ 0 ∷ 0 ∷ 0 ∷ 99 ∷ [],
)
unfolding write_object
message-write_object = refl

write_object-read_object_example :
    let (ok, written) = write_object ascii message (7 ∷ []) in
    (ok ≡ true)
    × (read_object ascii constructors 3 (record {
      memory = written ++ (5 ∷ []);
      size = length (written ++ (5 ∷ []));
      read_pos = 1;
    })
        ≡ got message (record {
          memory = written ++ (5 ∷ []);
          size = length (written ++ (5 ∷ []));
          read_pos = length written;
        }))
unfolding write_object register_class Map.lookup Map.insert
write_object-read_object_example =
    write_object-read_object ascii ascii ascii_back ascii_zero_free constructors message 3 (7 ∷ [])
      (5 ∷ []) (refl, refl) ((refl, refl), (refl, refl)) (omega arith) (omega arith)

read_object-terminates_example :
    read_object ascii constructors 9 (reader_at (3 ∷ 0 ∷ 0 ∷ 0 ∷ 9 ∷ 9 ∷ []) 0) ≢ out_of_fuel
read_object-terminates_example =
    read_object-terminates ascii constructors 9 (reader_at (3 ∷ 0 ∷ 0 ∷ 0 ∷ 9 ∷ 9 ∷ []) 0)
      (omega arith) (omega arith)

-- A string of 100 bytes is declared, and the buffer ends behind its first.
short_object-fault_example :
    read_object ascii constructors 1
      (reader_at (3 ∷ 0 ∷ 0 ∷ 0 ∷ 104 ∷ 0 ∷ 0 ∷ 0 ∷ 100 ∷ 0 ∷ 0 ∷ 0 ∷ 97 ∷ []) 0)
    ≡ fault
unfolding register_class Map.lookup Map.insert
short_object-fault_example =
    short_object-fault ascii constructors 0 104 100 (97 ∷ []) refl (omega arith) (omega arith)
      (omega arith)

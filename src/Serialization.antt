-- ===== src/Serialization.antt =====
-- Serializer and Deserializer of common/serialization.h and .cc, with SerializableString16 and the
-- NotificationMessage of common/message_service.cc.
--
-- A buffer is a list of bytes. An `int` is its 32-bit pattern, in the byte order of x86, and a
-- `size_t` wraps at 2^64. A reader has the memory from its buffer pointer on; a `memcpy` that leaves
-- this memory is a `fault`, and so is a `new` of a negative size. The conversions between UTF-16 and
-- UTF-8, which call vendored code, are the parameters `to_utf8` and `from_utf8`. Objects contain
-- objects, so reading takes fuel.
pub mod Bytes
pub mod Writing
pub mod Texts
pub mod Frames
pub mod RoundTrip
pub mod Faults
pub mod Termination
mod Tests
use unix_thread_ipc.Prelude.{
  ℕ, zero, suc, ◌+◌, ◌-◌, ◌/◌, ◌*◌, ◌%◌, ◌^◌, Bool, true, false, Option, none, some, List, [], ◌∷◌,
  ◌++◌, leb, ltb, ◌==◌, if◌then◌else◌, take, drop, length,
}
use unix_thread_ipc.Prelude.Map
use unix_thread_ipc.Prelude.Map.{Map}
use unix_thread_ipc.Prelude.Size.{add_size}

-- The memory of a number of `k` bytes.
abbrev pub le_bytes : ℕ → ℕ → List ℕ
le_bytes zero n = []
le_bytes (suc k) n = n % 256 ∷ le_bytes k (n / 256)

abbrev pub le_value : List ℕ → ℕ
le_value [] = 0
le_value (b ∷ rest) = b + 256 * le_value rest

-- `static_cast<size_t>` of an `int`, which extends the sign.
abbrev pub size_of_int : ℕ → ℕ
size_of_int w = if ltb w (2 ^ 31) then w else w + (2 ^ 64 - 2 ^ 32)

-- The values of `SerializableClassId` for the classes below, and `SERIALIZABLE_NULL`.
abbrev pub null_id : ℕ
null_id = 0

abbrev pub string16_id : ℕ
string16_id = 3

abbrev pub notification_id : ℕ
notification_id = 8

-- A C string ends at its first zero.
abbrev pub c_string : List ℕ → List ℕ
c_string [] = []
c_string (b ∷ rest) = let more = c_string rest in if b == 0 then [] else b ∷ more

-- A `Serializable *`. A string is the list of its UTF-16 units.
pub data Object : Type 0 where
  null : Object
  string16 : List ℕ → Object
  notification : (topic : List ℕ) (content : Object) → Object

-- `GetSerializableClassId`
abbrev pub class_id : Object → ℕ
class_id null = null_id
class_id (string16 s) = string16_id
class_id (notification topic content) = notification_id

-- `WriteBool`, `WriteInt`, `WriteInt64` and `WriteBytes`
abbrev pub write_bool : List ℕ → Bool → List ℕ
write_bool buffer flag = buffer ++ ((if flag then 1 else 0) ∷ [])

abbrev pub write_int : List ℕ → ℕ → List ℕ
write_int buffer n = buffer ++ le_bytes 4 n

abbrev pub write_int64 : List ℕ → ℕ → List ℕ
write_int64 buffer n = buffer ++ le_bytes 8 n

-- `buffer_->at(size_position)` as an `int`, set to `size`.
abbrev pub patch_int : List ℕ → ℕ → ℕ → List ℕ
patch_int buffer position size =
    take position buffer ++ (le_bytes 4 (size % 2 ^ 32) ++ drop (position + 4) buffer)

-- `WriteObject` of an object that is not NULL, by its class and its `Serialize`.
unfoldable pub write_framed : ℕ → (List ℕ → Bool × List ℕ) → List ℕ → Bool × List ℕ
write_framed id serialize buffer =
    if id == null_id
    then (false, buffer)
    else (let header = write_int buffer id in
        let (ok, written) = serialize (write_int header 0) in
        if ok
        then (true, patch_int written (length header) (length written - (length header + 4)))
        else (false, take (length buffer) written))

module _ (to_utf8 : List ℕ → Option (List ℕ)) where
  -- A string whose conversion fails is written empty.
  abbrev pub utf8_or_empty : List ℕ → List ℕ
  utf8_or_empty s = elim (to_utf8 (c_string s)) [ none ↦ [] | some utf8 ↦ utf8 ]

  unfoldable pub write_string : List ℕ → List ℕ → List ℕ
  write_string buffer s =
      let utf8 = utf8_or_empty s in write_int buffer (length utf8 % 2 ^ 32) ++ utf8

  -- `WriteObject`, given what `Serialize` of the object does.
  abbrev pub write_pointer : Object → (List ℕ → Bool × List ℕ) → List ℕ → Bool × List ℕ
  write_pointer null serialize buffer = (true, write_int (write_int buffer null_id) 0)
  write_pointer (string16 s) serialize buffer = write_framed string16_id serialize buffer
  write_pointer (notification topic content) serialize buffer =
      write_framed notification_id serialize buffer

  unfoldable pub serialize : Object → List ℕ → Bool × List ℕ
  unfolding write_string write_framed
  serialize null buffer = (true, buffer)
  serialize (string16 s) buffer = (true, write_string buffer s)
  serialize (notification topic content) buffer =
      write_pointer content (serialize content) (write_string buffer topic)

  unfoldable pub write_object : Object → List ℕ → Bool × List ℕ
  unfolding serialize
  write_object o buffer = write_pointer o (serialize o) buffer

-- `constructors_`: each class with a fresh object of it.
unfoldable pub register_class : Map Object → ℕ → Object → Map Object
register_class constructors id fresh = Map.insert id fresh constructors

pub record Deserializer : Type 0 where
  pub memory : List ℕ  -- from `buffer_` on
  pub size : ℕ  -- `length_`
  pub read_pos : ℕ

-- How a read ends: with its value, with the result false, with an access outside the memory, with an
-- assertion that fails, or not within the fuel.
pub data Read (A : Type 0) : Type 0 where
  got : A → Deserializer → Read A
  failed : Deserializer → Read A
  fault : Read A
  aborted : Read A
  out_of_fuel : Read A

abbrev pub Reader : Type 0 → Type 0
Reader A = Deserializer → Read A

abbrev pub after : {A B : Type 0} → Read A → (A → Reader B) → Read B
after (got a d) f = f a d
after (failed d) f = failed d
after fault f = fault
after aborted f = aborted
after out_of_fuel f = out_of_fuel

infixl 5 ◌>>=◌
abbrev pub ◌>>=◌ : {A B : Type 0} → Reader A → (A → Reader B) → Reader B
◌>>=◌ m f d = after (m d) f

abbrev pub pure : {A : Type 0} → A → Reader A
pure a d = got a d

unfoldable pub read_bytes : ℕ → Reader (List ℕ)
read_bytes n d =
    if ltb d.size (add_size d.read_pos n)
    then failed d
    else if leb (d.read_pos + n) (length d.memory)
    then got (take n (drop d.read_pos d.memory)) (record d { read_pos = add_size d.read_pos n })
    else fault

unfoldable pub read_bool : Reader Bool
unfolding read_bytes
read_bool = do bytes ← read_bytes 1; pure (if le_value bytes == 0 then false else true)

unfoldable pub read_int : Reader ℕ
unfolding read_bytes
read_int = do bytes ← read_bytes 4; pure (le_value bytes)

unfoldable pub read_int64 : Reader ℕ
unfolding read_bytes
read_int64 = do bytes ← read_bytes 8; pure (le_value bytes)

-- `new char[size + 1]` for an `int`.
abbrev pub allocate : ℕ → Reader ℕ
allocate size d = if leb (2 ^ 31) ((size + 1) % 2 ^ 32) then fault else got size d

-- The result of a conversion as the result of the caller.
abbrev pub checked : {A : Type 0} → Option A → Reader A
checked none d = failed d
checked (some a) d = got a d

-- The end of `CreateAndReadObject`: the reader of the object is embedded, and `d` goes on behind it.
abbrev pub embedded : Deserializer → Read Object → Read Object
embedded d (got o e) = got o d
embedded d (failed e) = failed d
embedded d fault = fault
embedded d aborted = aborted
embedded d out_of_fuel = out_of_fuel

module _ (from_utf8 : List ℕ → Option (List ℕ)) where
  unfoldable pub read_string : Reader (List ℕ)
  unfolding read_int read_bytes
  read_string = do
    size ← read_int
    allocated ← allocate size
    utf8 ← read_bytes (size_of_int allocated)
    checked (from_utf8 (c_string utf8))

  module _ (constructors : Map Object) where
    -- `Deserialize` of a fresh object, given what `CreateAndReadObject` does.
    abbrev pub deserialize : Reader Object → Object → Reader Object
    deserialize read_content null = pure null
    deserialize read_content (string16 s) = do t ← read_string; pure (string16 t)
    deserialize read_content (notification topic content) = do
      t ← read_string
      c ← read_content
      pure (notification t c)

    -- What follows the class and the size.
    abbrev pub read_body : Reader Object → ℕ → ℕ → Reader Object
    read_body read_content id size d =
        if id == null_id
        then (if size == 0 then got null d else aborted)
        else (let behind = record d { read_pos = add_size d.read_pos (size_of_int size) } in
            elim (Map.lookup id constructors) [
              | none ↦ failed behind
              | some fresh ↦ embedded behind (
                  deserialize read_content fresh (record {
                    memory = drop d.read_pos d.memory;
                    size = size_of_int size;
                    read_pos = 0;
                  }))
            ])

    unfoldable pub read_object : ℕ → Reader Object
    unfolding read_int read_string
    read_object zero d = out_of_fuel
    read_object (suc fuel) d =
        (do id ← read_int; size ← read_int; read_body (read_object fuel) id size) d

-- ===== src/ByteStore.antt =====
-- ByteStore of common/byte_store.cc over MemoryBuffer of common/memory_buffer.cc.
--
-- A MemoryBuffer is its bytes and its capacity. A file is its bytes and its position, and `Disk` says
-- of one call whether a temporary file can be created and how many bytes can still be written: a
-- write that does not fit is cut short. Lengths and offsets are not negative here, and the calls are
-- made under `mutex_`, one after the other. AddDataDirect and ReadDirect are not modelled.
pub mod Contents
pub mod Operations
pub mod Finalized
pub mod Refinement
pub mod Capacity
mod Tests
use unix_thread_ipc.Prelude.{
  ℕ, zero, suc, ◌+◌, ◌-◌, ◌*◌, Bool, true, false, not, ◌&&◌, Option, none, some, List, [], ◌∷◌,
  ◌++◌, ltb, leb, ◌==◌, if◌then◌else◌, take, drop, length, min,
}

pub record MemoryBuffer : Type 0 where
  pub capacity : ℕ
  pub bytes : List ℕ

-- `gInitialCapacity` and `kMaxBufferSize`
abbrev pub initial_capacity : ℕ
initial_capacity = 16

abbrev pub max_buffer_size : ℕ
max_buffer_size = 1024 * 1024

abbrev pub empty_buffer : MemoryBuffer
empty_buffer = record { capacity = 0; bytes = [] }

-- The loop of `Reserve`; each round doubles the capacity.
unfoldable pub grow : ℕ → ℕ → ℕ → ℕ
grow zero capacity num = capacity
grow (suc fuel) capacity num =
    let doubled = grow fuel (capacity * 2) num in if ltb capacity num then doubled else capacity

unfoldable pub reserve_buffer : ℕ → MemoryBuffer → MemoryBuffer
unfolding grow
reserve_buffer num b =
    let capacity = if b.capacity == 0 then initial_capacity else b.capacity in
    if ltb num b.capacity then b else record b { capacity = grow num capacity num }

unfoldable pub append : List ℕ → MemoryBuffer → MemoryBuffer
unfolding reserve_buffer
append bytes b =
    let reserved = reserve_buffer (length b.bytes + length bytes) b in
    record reserved { bytes = reserved.bytes ++ bytes }

abbrev pub clear : MemoryBuffer → MemoryBuffer
clear b = record b { bytes = [] }

pub record File : Type 0 where
  pub contents : List ℕ
  pub position : ℕ

pub record Disk : Type 0 where
  pub creates : Bool
  pub room : ℕ

abbrev pub new_file : File
new_file = record { contents = []; position = 0 }

-- `Write` of `bytes`, of which the first `n` fit.
abbrev pub write_file : ℕ → List ℕ → File → File
write_file n bytes f = record {
  contents =
      take f.position f.contents
      ++ (take n bytes ++ drop (f.position + length (take n bytes)) f.contents);
  position = f.position + length (take n bytes);
}

abbrev pub seek_end : File → File
seek_end f = record f { position = length f.contents }

abbrev pub truncate : ℕ → File → File
truncate n f = record f { contents = take n f.contents }

pub record Store : Type 0 where
  pub buffer : MemoryBuffer  -- `data_`
  pub file : Option File
  pub reading : Bool  -- `file_op_ == File::READ`
  pub is_finalized : Bool
  pub preserve_data : Bool
  pub stored : ℕ  -- `length_`

abbrev pub new_store : Store
new_store = record {
  buffer = empty_buffer;
  file = none;
  reading = false;
  is_finalized = false;
  preserve_data = false;
  stored = 0;
}

-- The second part of `AddDataToFile`, with a file.
unfoldable pub add_to_open : ℕ → List ℕ → File → Store → Bool × Store
add_to_open room bytes f s =
    if length bytes == 0
    then (true, record s { file = some f })
    else (let ready = if s.reading then seek_end f else f in
        let written = write_file room bytes ready in
        if leb (length bytes) room
        then (
          true,
          record s { file = some written; reading = false; stored = s.stored + length bytes },
        )
        else (
          false,
          record s { file = some (seek_end (truncate ready.position written)); reading = false },
        ))

-- The first part, without a file.
unfoldable pub open_file : Disk → List ℕ → Store → Bool × Store
unfolding add_to_open
open_file disk bytes s =
    let kept = if s.preserve_data then s.buffer else clear s.buffer in
    if not disk.creates
    then (false, s)
    else if leb (length s.buffer.bytes) disk.room
    then add_to_open (disk.room - length s.buffer.bytes) bytes
        (write_file disk.room s.buffer.bytes new_file) (record s { buffer = kept })
    else (false, s)

abbrev pub add_data_to_file : Disk → List ℕ → Option File → Store → Bool × Store
add_data_to_file disk bytes none s = open_file disk bytes s
add_data_to_file disk bytes (some f) s = add_to_open disk.room bytes f s

abbrev pub is_using_data : Store → Bool
is_using_data s = elim s.file [ none ↦ true | some f ↦ false ]

-- `AddData` behind its assertions.
unfoldable pub add_unfinalized : Disk → List ℕ → Store → Bool × Store
unfolding open_file append
add_unfinalized disk bytes s =
    if is_using_data s && leb (length bytes + length s.buffer.bytes) max_buffer_size
    then (true, record s { buffer = append bytes s.buffer; stored = s.stored + length bytes })
    else add_data_to_file disk bytes s.file s

-- `AddData`, `none` where its assertion that the store is not finalized fails. The one on
-- `async_add_length_` holds, as only AddDataDirect sets it.
unfoldable pub add_data : Disk → List ℕ → Store → Option (Bool × Store)
unfolding add_unfinalized
add_data disk bytes s =
    if length bytes == 0
    then some (true, s)
    else if s.is_finalized
    then none
    else some (add_unfinalized disk bytes s)

-- `ReadFromFile`
abbrev pub read_from_file : ℕ → ℕ → File → Store → List ℕ × Store
read_from_file offset max_length f s =
    let bytes = take max_length (drop offset f.contents) in
    (
      bytes,
      record s { file = some (record f { position = offset + length bytes }); reading = true },
    )

-- `Read`, and what it copies to `destination`.
abbrev pub read_by : ℕ → ℕ → Option File → Store → List ℕ × Store
read_by offset max_length none s = (
  if leb (length s.buffer.bytes) offset
      then []
      else (let available = length s.buffer.bytes - offset in
          take (if ltb available max_length then available else max_length)
            (drop offset s.buffer.bytes)),
  s,
)
read_by offset max_length (some f) s = read_from_file offset max_length f s

unfoldable pub read_store : ℕ → ℕ → Store → List ℕ × Store
read_store offset max_length s = read_by offset max_length s.file s

abbrev pub reserve_by : Disk → ℕ → Option File → Store → Store
reserve_by disk n (some f) s = s
reserve_by disk n none s =
    if ltb max_buffer_size n
    then (open_file disk [] s).1
    else record s { buffer = reserve_buffer n s.buffer }

unfoldable pub reserve : Disk → ℕ → Store → Store
unfolding open_file reserve_buffer
reserve disk n s = reserve_by disk n s.file s

unfoldable pub finalize : Store → Store
finalize s = record s { is_finalized = true }

-- What `GetDataElement` does to the store.
unfoldable pub pin_data : Store → Store
unfolding reserve_buffer
pin_data s =
    if not s.is_finalized && (is_using_data s && not s.preserve_data)
    then record s { buffer = reserve_buffer max_buffer_size s.buffer; preserve_data = true }
    else s

-- ===== src/ByteStore/Finalized.antt =====
-- `is_finalized_`, which only Finalize changes.
use unix_thread_ipc.Prelude.{
  ℕ, ◌+◌, ◌≡◌, refl, Bool, true, false, not, ◌&&◌, Option, none, some, List, [], arith, ltb, leb,
  if◌then◌else◌, length, Bool-cases, inl, inr,
}
use unix_thread_ipc.ByteStore.{
  max_buffer_size, add_to_open, add_data_to_file, reserve_buffer, File, Disk, Store, open_file,
  is_using_data, add_unfinalized, read_by, reserve_by, pin_data,
}

add_to_open-finalized :
    (room : ℕ) (bytes : List ℕ) (f : File) (s : Store)
    → (add_to_open room bytes f s).1.is_finalized ≡ s.is_finalized
unfolding add_to_open
add_to_open-finalized room bytes f s = ground arith

open_file-finalized :
    (disk : Disk) (bytes : List ℕ) (s : Store)
    → (open_file disk bytes s).1.is_finalized ≡ s.is_finalized
unfolding open_file add_to_open
open_file-finalized disk bytes s = ground arith

add_data_to_file-finalized :
    (disk : Disk) (bytes : List ℕ) (o : Option File) (s : Store)
    → (add_data_to_file disk bytes o s).1.is_finalized ≡ s.is_finalized
add_data_to_file-finalized disk bytes none s = open_file-finalized disk bytes s
add_data_to_file-finalized disk bytes (some f) s = add_to_open-finalized disk.room bytes f s

pub add_unfinalized-finalized :
    (disk : Disk) (bytes : List ℕ) (s : Store)
    → (add_unfinalized disk bytes s).1.is_finalized ≡ s.is_finalized
unfolding add_unfinalized
add_unfinalized-finalized disk bytes s =
    elim (Bool-cases
      (is_using_data s && leb (length bytes + length s.buffer.bytes) max_buffer_size)) [
        | inl h ↦ rw (h) refl
        | inr h ↦ rw (h) (add_data_to_file-finalized disk bytes s.file s)
      ]

pub read_by-finalized :
    (offset max_length : ℕ) (o : Option File) (s : Store)
    → (read_by offset max_length o s).1.is_finalized ≡ s.is_finalized
read_by-finalized offset max_length none s = refl
read_by-finalized offset max_length (some f) s = refl

pub reserve_by-finalized :
    (disk : Disk) (n : ℕ) (o : Option File) (s : Store)
    → (reserve_by disk n o s).is_finalized ≡ s.is_finalized
reserve_by-finalized disk n (some f) s = refl
reserve_by-finalized disk n none s = elim (Bool-cases (ltb max_buffer_size n)) [
  | inl h ↦ rw (h) (open_file-finalized disk [] s)
  | inr h ↦ rw (h) refl
]

either-finalized :
    (c finalized : Bool) (r t : Store)
    → r.is_finalized ≡ finalized
    → t.is_finalized ≡ finalized
    → (if c then r else t).is_finalized ≡ finalized
either-finalized true finalized r t e f = e
either-finalized false finalized r t e f = f

pub pin_data-finalized : (s : Store) → (pin_data s).is_finalized ≡ s.is_finalized
unfolding pin_data
pin_data-finalized s =
    either-finalized (not s.is_finalized && (is_using_data s && not s.preserve_data)) s.is_finalized
      (record s { buffer = reserve_buffer max_buffer_size s.buffer; preserve_data = true }) s refl
      refl

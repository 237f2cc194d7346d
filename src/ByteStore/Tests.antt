-- ===== src/ByteStore/Tests.antt =====
-- A store that moves from memory to a file, and a disk that fills up.
use unix_thread_ipc.Prelude.{
  ℕ, ◌+◌, ◌≤◌, ◌<◌, ◌≡◌, ◌⊎◌, inr, refl, Bool, true, false, Option, none, some, List, [], ◌∷◌, ◌++◌,
  arith,
}
use unix_thread_ipc.ByteStore.{
  MemoryBuffer, Disk, Store, new_store, finalize, add_unfinalized, add_data, read_store, reserve,
  open_file, add_to_open, append, reserve_buffer, grow,
}
use unix_thread_ipc.ByteStore.Refinement.{
  Call, adding, reading_at, reserving, finalizing, pinning, BehavesAs, store-BehavesAs,
}
use unix_thread_ipc.ByteStore.Capacity.{IsValid, append-IsValid}

abbrev disk : ℕ → Disk
disk room = record { creates = true; room = room }

abbrev calls : List Call
calls =
    adding (disk 0) (1 ∷ 2 ∷ 3 ∷ [])
    ∷ pinning
    ∷ reserving (disk 100) 1048577
    ∷ reading_at 1 9
    ∷ adding (disk 2) (4 ∷ 5 ∷ 6 ∷ [])
    ∷ adding (disk 9) (7 ∷ 8 ∷ [])
    ∷ reading_at 2 2
    ∷ finalizing
    ∷ reading_at 0 1
    ∷ adding (disk 9) (9 ∷ [])
    ∷ []

store-BehavesAs_example : BehavesAs [] false calls new_store
store-BehavesAs_example = store-BehavesAs calls

-- A read from the file behind a write that the disk cut short and one that fitted.
abbrev store_of : Option (Bool × Store) → Store
store_of none = new_store
store_of (some (ok, s)) = s

reread :
    (read_store 2 2 (
      store_of (
        add_data (disk 9) (7 ∷ 8 ∷ []) (
          store_of (
            add_data (disk 2) (4 ∷ 5 ∷ 6 ∷ []) (
              reserve
                (disk 100)
                1048577
                (store_of (add_data (disk 0) (1 ∷ 2 ∷ 3 ∷ []) new_store)))))))).0
    ≡ 3 ∷ 7 ∷ []
unfolding read_store add_data add_unfinalized reserve open_file add_to_open append reserve_buffer
    grow
reread = refl

-- Nothing is added to a finalized store.
refused : add_data (disk 9) (9 ∷ []) (finalize new_store) ≡ none
unfolding add_data finalize
refused = refl

abbrev full : MemoryBuffer
full = record {
  capacity = 16;
  bytes = 1 ∷ 2 ∷ 3 ∷ 4 ∷ 5 ∷ 6 ∷ 7 ∷ 8 ∷ 9 ∷ 10 ∷ 11 ∷ 12 ∷ 13 ∷ 14 ∷ 15 ∷ 16 ∷ [];
}

append-IsValid_example :
    (16 + 1 ≤ (reserve_buffer 17 full).capacity)
    × ((append (17 ∷ []) full).bytes ≡ full.bytes ++ (17 ∷ []))
    × IsValid (append (17 ∷ []) full)
    × (((append (17 ∷ []) full).capacity ≡ 16)
        ⊎ (((append (17 ∷ []) full).capacity < 17 + 17) ⊎ ((append (17 ∷ []) full).capacity ≡ 16)))
append-IsValid_example = append-IsValid (17 ∷ []) full (omega arith, inr (omega arith))

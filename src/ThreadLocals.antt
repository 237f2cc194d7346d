-- ===== src/ThreadLocals.antt =====
-- common/thread_locals.cc and thread_locals.h, the POSIX variant: per-thread slots with destructors.
--
-- A pthread key holds one table of `kMaxSlots` entries for each thread, `none` for NULL. `V` stands
-- for what a `void *` value points to, `D` for a destructor callback. A destructor is not run but
-- listed: each operation returns its calls in order, for the caller to perform. The callbacks of
-- the program (the two `ThreadEndHook`s) do not use the slots themselves.
pub mod Slots
pub mod Values
pub mod Destruction
mod Tests
use unix_thread_ipc.Prelude.{
  ℕ, ◌+◌, ◌-◌, ◌%◌, ◌^◌, Bool, true, false, ◌&&◌, Option, none, some, List, [], ◌∷◌, ◌++◌, leb, ltb,
  if◌then◌else◌, get_or, set, replicate,
}
use unix_thread_ipc.Prelude.Int.{ℤ, pos, negsuc, int32}

abbrev pub max_slots : ℕ
max_slots = 64

-- `Alloc` over the bit pattern of `next_slot_`: the slot, and the new counter; `none` where its
-- assertion fails, in a build that is `asserting`.
unfoldable pub alloc : Bool → ℕ → Option (ℤ × ℕ)
alloc asserting next_slot =
    let next = (next_slot + 1) % 2 ^ 32 in
    if ltb next (2 ^ 31) && leb max_slots next
    then (if asserting then none else some (negsuc 0, next))
    else some (int32 ((next + 2 ^ 32 - 1) % 2 ^ 32), next)

pub record Entry (V D : Type 0) : Type 0 where
  pub value : Option V
  pub destructor : Option D
  pub valid : Bool

-- The calls `destructor(value)` that an operation makes.
abbrev pub Calls : Type 0 → Type 0 → Type 0
Calls V D = List (D × Option V)

-- The table that the pthread key holds for one thread.
abbrev pub Table : Type 0 → Type 0 → Type 0
Table V D = Option (List (Entry V D))

-- The index of a slot that passes `key < 0 || key >= kMaxSlots`.
abbrev pub index : ℤ → Option ℕ
index (pos n) = if ltb n max_slots then some n else none
index (negsuc n) = none

module _ {V D : Type 0} where
  abbrev pub empty_entry : Entry V D
  empty_entry = record { value = none; destructor = none; valid = false }

  -- `GetEntries`
  unfoldable pub get_entries : Bool → Table V D → Table V D
  get_entries create_if_needed (some entries) = some entries
  get_entries create_if_needed none =
      if create_if_needed then some (replicate max_slots empty_entry) else none

  unfoldable pub get_value : Table V D → ℤ → Option V
  unfolding get_entries
  get_value t key = elim (index key) [
    | none ↦ none
    | some i ↦ elim (get_entries false t) [
      | none ↦ none
      | some entries ↦
          if (get_or entries i empty_entry).valid
          then (get_or entries i empty_entry).value
          else none
    ]
  ]

  unfoldable pub has_value : Table V D → ℤ → Bool
  unfolding get_entries
  has_value t key = elim (index key) [
    | none ↦ false
    | some i ↦ elim (get_entries false t) [
      | none ↦ false
      | some entries ↦ (get_or entries i empty_entry).valid
    ]
  ]

  -- The destructor call that is due for an entry.
  unfoldable pub due : Entry V D → Calls V D
  due e = if e.valid then elim e.destructor [ none ↦ [] | some d ↦ (d, e.value) ∷ [] ] else []

  unfoldable pub destroy_value : Table V D → ℤ → Calls V D × Table V D
  unfolding get_entries due
  destroy_value t key = elim (index key) [
    | none ↦ ([], t)
    | some i ↦ elim (get_entries false t) [
      | none ↦ ([], t)
      | some entries ↦
          if (get_or entries i empty_entry).valid
          then (
            due (get_or entries i empty_entry),
            some (set entries i (record (get_or entries i empty_entry) { valid = false })),
          )
          else ([], t)
    ]
  ]

  unfoldable pub set_value : Table V D → ℤ → Option V → Option D → Calls V D × Table V D
  unfolding get_entries destroy_value
  set_value t key value destructor = elim (index key) [
    | none ↦ ([], t)
    | some i ↦
        let (calls, t') = destroy_value t key in
        elim (get_entries true t') [
          | none ↦ (calls, t')
          | some entries ↦ (
            calls,
            some (set entries i (record { value = value; destructor = destructor; valid = true })),
          )
        ]
  ]

  -- The loop of `ClearEntries` and `DestroyEntries`.
  unfoldable pub destroy_loop : List (Entry V D) → Calls V D × List (Entry V D)
  unfolding due
  destroy_loop [] = ([], [])
  destroy_loop (e ∷ rest) =
      let (calls, rest') = destroy_loop rest in (due e ++ calls, record e { valid = false } ∷ rest')

  unfoldable pub clear_entries : Table V D → Calls V D × Table V D
  clear_entries none = ([], none)
  clear_entries (some entries) =
      let (calls, entries') = destroy_loop entries in (calls, some entries')

  -- `DestroyEntries`, which also frees the table.
  unfoldable pub destroy_entries : List (Entry V D) → Calls V D
  unfolding destroy_loop
  destroy_entries entries = (destroy_loop entries).0

  -- The end of a thread: pthread calls `FinalizeKey` if the key holds a table.
  unfoldable pub finalize_key : Table V D → Calls V D
  unfolding destroy_entries
  finalize_key none = []
  finalize_key (some entries) = destroy_entries entries

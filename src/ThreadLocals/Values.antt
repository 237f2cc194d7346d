-- ===== src/ThreadLocals/Values.antt =====
-- What the slots of one thread hold after an operation.
use unix_thread_ipc.Prelude.{
  ℕ, ◌<◌, ◌≡◌, true, false, Option, none, some, List, arith, length, length-set, ◌∙◌, get_or, set,
  set-set, get_or-set, get_or-replicate, replicate, ◌==◌, if◌then◌else◌,
}
use unix_thread_ipc.Prelude.Int.{pos}
use unix_thread_ipc.ThreadLocals.{
  max_slots, Entry, Table, empty_entry, due, get_value, has_value, destroy_value, set_value,
}

module _ {V D : Type 0} where
  -- The entries of a table, where a missing table stands for empty entries.
  abbrev pub entries_of : Table V D → List (Entry V D)
  entries_of none = replicate max_slots empty_entry
  entries_of (some entries) = entries

  -- A table has an entry for each slot.
  abbrev pub IsTable : Table V D → Type 0
  IsTable t = length (entries_of t) ≡ max_slots

  abbrev pub entry_at : Table V D → ℕ → Entry V D
  entry_at t i = get_or (entries_of t) i empty_entry

  abbrev pub assigned : Option V → Option D → Entry V D
  assigned v d = record { value = v; destructor = d; valid = true }

  abbrev pub destroyed : Table V D → ℕ → Table V D
  destroyed t i =
      if (entry_at t i).valid
      then some (set (entries_of t) i (record (entry_at t i) { valid = false }))
      else t

  pub entry_at-none : (i : ℕ) → entry_at none i ≡ empty_entry
  entry_at-none i = get_or-replicate max_slots i empty_entry

  -- `SetValue` and `DestroyValue` in one line each.
  pub set_value_lem :
      (t : Table V D) (i : ℕ) (v : Option V) (d : Option D)
      → i < max_slots
      → set_value t (pos i) v d ≡ (due (entry_at t i), some (set (entries_of t) i (assigned v d)))
  unfolding set_value due
  set_value_lem none i v d h = ground (arith, entry_at-none i)
  set_value_lem (some es) i v d h =
      ground (arith, set-set es i (record (entry_at (some es) i) { valid = false }) (assigned v d))

  pub destroy_value_lem :
      (t : Table V D) (i : ℕ)
      → i < max_slots
      → destroy_value t (pos i) ≡ (due (entry_at t i), destroyed t i)
  unfolding destroy_value due
  destroy_value_lem none i h = ground (arith, entry_at-none i)
  destroy_value_lem (some es) i h = ground arith

  get_value_lem :
      (t : Table V D) (i : ℕ)
      → i < max_slots
      → get_value t (pos i) ≡ (if (entry_at t i).valid then (entry_at t i).value else none)
  unfolding get_value
  get_value_lem none i h = ground (arith, entry_at-none i)
  get_value_lem (some es) i h = ground arith

  pub has_value_lem :
      (t : Table V D) (i : ℕ) → i < max_slots → has_value t (pos i) ≡ (entry_at t i).valid
  unfolding has_value
  has_value_lem none i h = ground (arith, entry_at-none i)
  has_value_lem (some es) i h = ground arith

  pub set_value-IsTable :
      (t : Table V D) (i : ℕ) (v : Option V) (d : Option D)
      → IsTable t
      → i < max_slots
      → IsTable (set_value t (pos i) v d).1
  set_value-IsTable t i v d w h =
      rw (set_value_lem t i v d h) (length-set (entries_of t) i (assigned v d) ∙ w)

  pub destroy_value-IsTable :
      (t : Table V D) (i : ℕ) → IsTable t → i < max_slots → IsTable (destroy_value t (pos i)).1
  destroy_value-IsTable t i w h =
      rw (destroy_value_lem t i h)
        (ground (arith, length-set (entries_of t) i (record (entry_at t i) { valid = false })))

  -- After `SetValue` of one slot, that slot has the new value, also if it is NULL, and every other
  -- slot is as before.
  pub get_value-set_value :
      (t : Table V D) (i j : ℕ) (v : Option V) (d : Option D)
      → IsTable t
      → i < max_slots
      → j < max_slots
      → (get_value (set_value t (pos i) v d).1 (pos j)
          ≡ (if i == j then v else get_value t (pos j)))
        × (has_value (set_value t (pos i) v d).1 (pos j)
            ≡ (if i == j then true else has_value t (pos j)))
  get_value-set_value t i j v d w h k =
      rw
        (
          set_value_lem t i v d h,
          get_value_lem (some (set (entries_of t) i (assigned v d))) j k,
          has_value_lem (some (set (entries_of t) i (assigned v d))) j k,
          get_value_lem t j k,
          has_value_lem t j k,
          get_or-set (entries_of t) i j (assigned v d) empty_entry (omega arith),
        )
        (ground arith)

  -- After `DestroyValue` of one slot, that slot has no value, and every other slot is as before.
  get_value-destroy_value :
      (t : Table V D) (i j : ℕ)
      → IsTable t
      → i < max_slots
      → j < max_slots
      → (get_value (destroy_value t (pos i)).1 (pos j)
          ≡ (if i == j then none else get_value t (pos j)))
        × (has_value (destroy_value t (pos i)).1 (pos j)
            ≡ (if i == j then false else has_value t (pos j)))
  get_value-destroy_value t i j w h k = rw (destroy_value_lem t i h) (
      ground (
        arith,
        get_value_lem (destroyed t i) j k,
        has_value_lem (destroyed t i) j k,
        get_value_lem t j k,
        has_value_lem t j k,
        get_or-set (entries_of t) i j (record (entry_at t i) { valid = false }) empty_entry
            (omega arith),
      ))

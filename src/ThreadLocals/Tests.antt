-- ===== src/ThreadLocals/Tests.antt =====
-- Examples for common/thread_locals.cc.
use mathlib.Core.List.{Perm}
use unix_thread_ipc.Prelude.{ℕ, ◌≡◌, refl, false, none, some, List, [], ◌∷◌, arith, set, replicate}
use unix_thread_ipc.Prelude.Int.{pos, negsuc}
use unix_thread_ipc.ThreadLocals.{
  Table, max_slots, empty_entry, set_value, destroy_value, get_entries, due, finalize_key,
}
use unix_thread_ipc.ThreadLocals.Slots.{slot_of, call, counter_after, alloc-counter_after}
use unix_thread_ipc.ThreadLocals.Values.{assigned}
use unix_thread_ipc.ThreadLocals.Destruction.{
  Request, assign, destroy, lifetime, step, owed, lifetime-perm-owed,
}

-- The first call that gets no slot, in a build without assertions.
alloc-counter_after_example : slot_of (call false (counter_after false 63)) ≡ some (negsuc 0)
alloc-counter_after_example = alloc-counter_after false 63 (omega arith)

-- Slot 2 has a value with destructor 9.
abbrev one_value : Table ℕ ℕ
one_value = some (set (replicate max_slots empty_entry) 2 (assigned (some 5) (some 9)))

-- A value is replaced, one is destroyed by request, one is left to the end of the thread, and one
-- slot does not exist.
abbrev some_requests : List (Request ℕ ℕ)
some_requests =
    assign (pos 1) (some 10) (some 7)
    ∷ assign (pos 1) (some 11) (some 7)
    ∷ assign (pos 4) none (some 8)
    ∷ destroy (pos 1)
    ∷ assign (pos 64) (some 12) (some 7)
    ∷ []

lifetime-perm-owed_example : Perm (lifetime none some_requests) (owed some_requests)
lifetime-perm-owed_example = lifetime-perm-owed some_requests

lifetime_test : lifetime none some_requests ≡ (7, some 10) ∷ (7, some 11) ∷ (8, none) ∷ []
unfolding lifetime step set_value destroy_value get_entries due finalize_key
lifetime_test = refl

-- ===== src/ThreadLocals/Slots.antt =====
-- Which slots `Alloc` hands out.
use unix_thread_ipc.Prelude.{
  ℕ, zero, suc, ◌+◌, ◌^◌, ◌<◌, ◌≡◌, arith, Bool, ◌&&◌, Option, none, some, ltb, if◌then◌else◌,
}
use unix_thread_ipc.Prelude.Int.{ℤ, pos, negsuc}
use unix_thread_ipc.ThreadLocals.{alloc}

-- `Alloc` of a program that is still running.
abbrev pub call : Bool → Option ℕ → Option (ℤ × ℕ)
call asserting none = none
call asserting (some next_slot) = alloc asserting next_slot

abbrev counter_of : Option (ℤ × ℕ) → Option ℕ
counter_of none = none
counter_of (some (slot, next)) = some next

abbrev pub slot_of : Option (ℤ × ℕ) → Option ℤ
slot_of none = none
slot_of (some (slot, next)) = some slot

-- `next_slot_` after `n` calls of `Alloc`, from its initial value 0; `none` if an assertion has failed.
pub counter_after : Bool → ℕ → Option ℕ
counter_after asserting zero = some 0
counter_after asserting (suc n) = counter_of (call asserting (counter_after asserting n))

counter_after_lem :
    (asserting : Bool) (n : ℕ)
    → n < 2 ^ 31
    → counter_after asserting n ≡ (if asserting && ltb 63 n then none else some n)
unfolding counter_after alloc
counter_after_lem asserting zero h = ground arith
counter_after_lem asserting (suc n) h = ground (arith, counter_after_lem asserting n (omega arith))

-- Call number `n` (from 0), as long as the counter stays below 2^31, returns slot `n` while
-- `n < 63`. From then on it returns -1, or fails its assertion where assertions are checked. So no two
-- calls return the same slot, and the last slot of the table, 63, is never handed out.
pub alloc-counter_after :
    (asserting : Bool) (n : ℕ)
    → n + 1 < 2 ^ 31
    → slot_of (call asserting (counter_after asserting n))
      ≡ (if ltb n 63 then some (pos n) else (if asserting then none else some (negsuc 0)))
unfolding alloc
alloc-counter_after asserting n h = ground (arith, counter_after_lem asserting n (omega arith))

-- ===== src/CircularBuffer/WriteRound.antt =====
-- One round of the loop of `write`.
use mathlib.Core.Path.{ap₂}
use unix_thread_ipc.Prelude.{
  sym, ℕ, ◌+◌, ◌-◌, ◌≤◌, ◌<◌, ◌≡◌, refl, ap, ◌∙◌, true, List, ◌++◌, arith, length, ltb, ◌==◌,
  if◌then◌else◌, take, length-take,
}
use unix_thread_ipc.Prelude.Size.{mod_once}
use unix_thread_ipc.CircularBuffer.{CircularBuffer, memory, has_buffer, copy_into, write_round}
use unix_thread_ipc.CircularBuffer.Window.{
  window, window-append, advance, length-copy_into, window-copy_into_outside,
  window-copy_into_inside,
}
use unix_thread_ipc.CircularBuffer.Valid.{IsValid, count, contents, count-le, tail-eq-advance}

-- The bytes that fit behind the tail before the block ends or the head is met.
abbrev pub room : CircularBuffer → ℕ
room r =
    if ltb r.tail r.head
    then r.head - r.tail - 1
    else (if r.head == 0 then r.buf_size - r.tail - 1 else r.buf_size - r.tail)

memory-write_round :
    (r : CircularBuffer) (source : List ℕ) (a : ℕ)
    → has_buffer r ≡ true
    → (memory (write_round r source a) ≡ copy_into (memory r) r.tail (take a source))
      × (has_buffer (write_round r source a) ≡ true)
unfolding write_round
memory-write_round r source a h = ground arith

-- One round appends its bytes.
pub record Wrote (r : CircularBuffer) (bytes : List ℕ) (r' : CircularBuffer) : Type 0 where
  pub valid : IsValid r'
  pub stored : contents r' ≡ contents r ++ bytes
  pub counted : count r' ≡ count r + length bytes
  pub capacity_kept : r'.capacity ≡ r.capacity

module _ {r : CircularBuffer} (v : IsValid r) (source : List ℕ) (a : ℕ) (fits : a ≤ room r)
    (enough : a ≤ length source) where
  length-chunk : length (take a source) ≡ a
  length-chunk = omega (arith, length-take a source)

  tail-write_round : (write_round r source a).tail ≡ advance r.buf_size r.tail a
  unfolding write_round
  tail-write_round = ground (arith, mod_once (r.tail + a) r.buf_size)

  in_block : r.tail + length (take a source) ≤ r.buf_size
  in_block = ground (arith, length-chunk)

  write_round-IsValid : IsValid (write_round r source a)
  unfolding write_round
  write_round-IsValid =
      let (where_to, still) = memory-write_round r source a v.mapped in
      record {
        mapped = still;
        block = ap length where_to ∙ length-copied ∙ v.block;
        small = v.small;
        spare = v.spare;
        head_in = v.head_in;
        tail_in = ground (arith, tail-write_round);
      }
    where
      length-copied : length (copy_into (memory r) r.tail (take a source)) ≡ length (memory r)
      length-copied = length-copy_into (memory r) (take a source) r.tail (omega (arith, in_block))

  count-write_round : count (write_round r source a) ≡ count r + a
  unfolding write_round
  count-write_round = ground (arith, tail-write_round)

  contents-write_round : contents (write_round r source a) ≡ contents r ++ take a source
  unfolding write_round
  contents-write_round =
      rw (count-write_round, (memory-write_round r source a v.mapped).0) (split ∙ ap₂ ◌++◌ old new)
    where
      m' : List ℕ
      m' = copy_into (memory r) r.tail (take a source)

      split :
          window m' r.buf_size r.head (count r + a)
          ≡ window m' r.buf_size r.head (count r)
            ++ window m' r.buf_size (advance r.buf_size r.head (count r)) a
      split = window-append m' r.buf_size r.head (count r) a v.head_in (omega (arith, count-le v))

      old : window m' r.buf_size r.head (count r) ≡ contents r
      old =
          window-copy_into_outside (memory r) (take a source) r.buf_size r.head (count r) r.tail
            (omega (arith, in_block)) v.head_in (ground (arith, length-chunk))

      new : window m' r.buf_size (advance r.buf_size r.head (count r)) a ≡ take a source
      new = rw (← tail-eq-advance v) (
          ap (window m' r.buf_size r.tail) (sym length-chunk)
          ∙ window-copy_into_inside (memory r) (take a source) r.buf_size r.tail in_block
              (omega arith))

  capacity-write_round : (write_round r source a).capacity ≡ r.capacity
  unfolding write_round
  capacity-write_round = refl

  pub write_round-Wrote : Wrote r (take a source) (write_round r source a)
  write_round-Wrote = record {
    valid = write_round-IsValid;
    stored = contents-write_round;
    counted = omega (arith, count-write_round, length-chunk);
    capacity_kept = capacity-write_round;
  }

  -- What does not fit in this round fits in the next.
  pub room-write_round : a ≡ room r → r.capacity - count r ≤ room r + room (write_round r source a)
  unfolding write_round
  room-write_round e = ground (arith, tail-write_round)

pub room-pos : {r : CircularBuffer} → IsValid r → count r < r.capacity → 0 < room r
room-pos v h = ground arith

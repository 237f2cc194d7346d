-- ===== src/CircularBuffer.antt =====
-- common/circular_buffer.h: a FIFO of bytes over a memory block of the caller. The capacity is one
-- less than the block, so that `head_ == tail_` means empty only.
--
-- The block is a list of bytes (`none` for NULL) that `write` returns changed, `size_t` is a number
-- with its wrap-around written out, and `memcpy` copies a slice. The assertions of `read` and
-- `write` (at most two rounds, no empty round) stop the model with `none`.
pub mod Window
pub mod Valid
pub mod WriteRound
pub mod Write
pub mod Read
pub mod Fifo
mod Tests
use unix_thread_ipc.Prelude.{
  ℕ, zero, suc, ◌+◌, ◌-◌, ◌%◌, Bool, true, false, ◌||◌, Option, none, some, List, [], ◌++◌, leb,
  ltb, ◌==◌, if◌then◌else◌, take, drop, length,
}
use unix_thread_ipc.Prelude.Size.{add_size, sub_size}

pub record CircularBuffer : Type 0 where
  pub head : ℕ
  pub tail : ℕ
  pub capacity : ℕ
  pub buf_size : ℕ
  pub buffer : Option (List ℕ)

-- `(a < b) ? a : b`
abbrev pub min_size : ℕ → ℕ → ℕ
min_size a b = if ltb a b then a else b

-- The memory that a read or a write at the buffer's pointer goes to.
abbrev pub memory : CircularBuffer → List ℕ
memory r = elim r.buffer [ none ↦ [] | some m ↦ m ]

abbrev pub has_buffer : CircularBuffer → Bool
has_buffer r = elim r.buffer [ none ↦ false | some m ↦ true ]

unfoldable pub set_buffer : CircularBuffer → Option (List ℕ) → ℕ → CircularBuffer
set_buffer r none size = record { head = 0; tail = 0; capacity = 0; buf_size = size; buffer = none }
set_buffer r (some m) size = record {
  head = 0;
  tail = 0;
  capacity = sub_size size 1;
  buf_size = size;
  buffer = some m;
}

unfoldable pub set_head : CircularBuffer → ℕ → Bool × CircularBuffer
set_head r head = elim r.buffer [
  | none ↦ (false, r)
  | some m ↦ if leb r.buf_size head then (false, r) else (true, record r { head = head })
]

unfoldable pub set_tail : CircularBuffer → ℕ → Bool × CircularBuffer
set_tail r tail = elim r.buffer [
  | none ↦ (false, r)
  | some m ↦ if leb r.buf_size tail then (false, r) else (true, record r { tail = tail })
]

unfoldable pub is_empty : CircularBuffer → Bool
is_empty r = r.tail == r.head

unfoldable pub is_full : CircularBuffer → Bool
is_full r = (add_size r.tail 1 % r.buf_size) == r.head

unfoldable pub data_available : CircularBuffer → ℕ
data_available r =
    if leb r.head r.tail
    then sub_size r.tail r.head
    else add_size (sub_size r.buf_size r.head) r.tail

unfoldable pub space_available : CircularBuffer → ℕ
unfolding data_available
space_available r = sub_size r.capacity (data_available r)

unfoldable pub contiguous_data_available : CircularBuffer → ℕ
contiguous_data_available r =
    if leb r.head r.tail then sub_size r.tail r.head else sub_size r.buf_size r.head

unfoldable pub contiguous_space_available : CircularBuffer → ℕ
unfolding is_full
contiguous_space_available r =
    if is_full r
    then 0
    else if ltb r.tail r.head
    then sub_size (sub_size r.head r.tail) 1
    else (let contig = sub_size r.buf_size r.tail in
        if r.head == 0 then sub_size contig 1 else contig)

unfoldable pub advance_head : CircularBuffer → ℕ → ℕ × CircularBuffer
advance_head r amt =
    let amt' = min_size amt (data_available r) in
    (amt', record r { head = add_size r.head amt' % r.buf_size })

unfoldable pub advance_tail : CircularBuffer → ℕ → ℕ × CircularBuffer
advance_tail r amt =
    let amt' = min_size amt (space_available r) in
    (amt', record r { tail = add_size r.tail amt' % r.buf_size })

-- memcpy(memory + i, source, length source)
abbrev pub copy_into : List ℕ → ℕ → List ℕ → List ℕ
copy_into m i source = take i m ++ (source ++ drop (i + length source) m)

-- One round of the loop of `read`: the bytes copied out and the new head.
unfoldable pub read_round : CircularBuffer → ℕ → List ℕ × CircularBuffer
read_round r amount =
    (take amount (drop r.head (memory r)), record r { head = add_size r.head amount % r.buf_size })

-- The loop of `read`. `rounds` is what `iters` may still count, and `out` is what is in `data`.
unfoldable pub read_loop : ℕ → CircularBuffer → ℕ → List ℕ → Option (List ℕ × CircularBuffer)
read_loop zero r remaining out = if remaining == 0 then some (out, r) else none
read_loop (suc rounds) r remaining out =
    let amount = min_size remaining (contiguous_data_available r) in
    let rest =
      read_loop rounds (read_round r amount).1 (sub_size remaining amount)
        (out ++ (read_round r amount).0) in
    if remaining == 0 then some (out, r) else if amount == 0 then none else rest

-- The bytes read (their number is the return value of the source) and the new state.
unfoldable pub read : CircularBuffer → ℕ → Option (List ℕ × CircularBuffer)
read r size = read_loop 2 r (min_size size (data_available r)) []

-- `read` with the head put back.
unfoldable pub peek : CircularBuffer → ℕ → Option (List ℕ × CircularBuffer)
peek r size = elim (read r size) [
  | none ↦ none
  | some (out, r') ↦ some (out, record r' { head = r.head })
]

unfoldable pub write_round : CircularBuffer → List ℕ → ℕ → CircularBuffer
write_round r source amount = record r {
  tail = add_size r.tail amount % r.buf_size;
  buffer = elim r.buffer [ none ↦ none | some m ↦ some (copy_into m r.tail (take amount source)) ];
}

unfoldable pub write_loop : ℕ → CircularBuffer → ℕ → List ℕ → Option CircularBuffer
write_loop zero r remaining source = if remaining == 0 then some r else none
write_loop (suc rounds) r remaining source =
    let amount = min_size remaining (contiguous_space_available r) in
    let rest =
      write_loop rounds (write_round r source amount) (sub_size remaining amount)
        (drop amount source) in
    if remaining == 0 then some r else if amount == 0 then none else rest

-- The number of bytes written and the new state.
unfoldable pub write : CircularBuffer → List ℕ → ℕ → Option (ℕ × CircularBuffer)
write r source size =
    let size' = min_size size (space_available r) in
    elim (write_loop 2 r size' source) [ none ↦ none | some r' ↦ some (size', r') ]

-- ===== src/CircularBuffer/Valid.antt =====
-- The representation invariant of a circular buffer, its contents, and the observers against them.
use unix_thread_ipc.Prelude.{
  ℕ, ◌+◌, ◌-◌, ◌%◌, ◌^◌, ◌≤◌, ◌<◌, ◌≡◌, refl, ◌↔◌, true, some, List, [], refl, some, arith, length,
  leb, ltb, ◌==◌, min, if◌then◌else◌,
}
use unix_thread_ipc.Prelude.Size.{add_size, mod_once}
use unix_thread_ipc.CircularBuffer.{
  CircularBuffer, memory, min_size, has_buffer, set_buffer, set_head, set_tail, is_empty, is_full,
  set_buffer, set_head, set_tail, data_available, space_available, contiguous_data_available,
  contiguous_space_available,
}
use unix_thread_ipc.CircularBuffer.Window.{window, length-window, advance, next_index}

-- A buffer over a block of `buf_size` bytes, at most half of the address space.
pub record IsValid (r : CircularBuffer) : Type 0 where
  pub mapped : has_buffer r ≡ true
  pub block : length (memory r) ≡ r.buf_size
  pub small : r.buf_size ≤ 2 ^ 63
  pub spare : r.capacity + 1 ≡ r.buf_size
  pub head_in : r.head < r.buf_size
  pub tail_in : r.tail < r.buf_size

-- The number of bytes stored, without `size_t`.
abbrev pub count : CircularBuffer → ℕ
count r = if leb r.head r.tail then r.tail - r.head else r.buf_size - r.head + r.tail

-- The stored bytes, oldest first.
abbrev pub contents : CircularBuffer → List ℕ
contents r = window (memory r) r.buf_size r.head (count r)

pub min_size_lem : (a b : ℕ) → min_size a b ≡ min a b
min_size_lem a b = ground arith

module _ {r : CircularBuffer} (v : IsValid r) where
  pub count-le : count r ≤ r.capacity
  count-le = ground arith

  pub tail-eq-advance : r.tail ≡ advance r.buf_size r.head (count r)
  tail-eq-advance = ground arith

  pub data_available_lem : data_available r ≡ count r
  unfolding data_available
  data_available_lem = ground arith

  pub space_available_lem : space_available r ≡ r.capacity - count r
  unfolding space_available
  space_available_lem = ground arith

  pub contiguous_data_available_lem :
      contiguous_data_available r
      ≡ (if leb r.head r.tail then r.tail - r.head else r.buf_size - r.head)
  unfolding contiguous_data_available
  contiguous_data_available_lem = ground arith

  pub tail-next_lem : add_size r.tail 1 % r.buf_size ≡ next_index r.buf_size r.tail
  tail-next_lem = ground (arith, mod_once (r.tail + 1) r.buf_size)

  pub is_full_lem : is_full r ≡ (r.capacity == count r)
  unfolding is_full
  is_full_lem = ground (arith, tail-next_lem)

  pub contiguous_space_available_lem : contiguous_space_available r ≡ (
      if ltb r.tail r.head
      then r.head - r.tail - 1
      else (if r.head == 0 then r.buf_size - r.tail - 1 else r.buf_size - r.tail))
  unfolding contiguous_space_available
  contiguous_space_available_lem = ground (arith, is_full_lem)

-- What `data_available`, `space_available`, `is_empty` and `is_full` say of the contents.
pub observers_lem :
    {r : CircularBuffer}
    → IsValid r
    → (data_available r ≡ length (contents r))
      × (data_available r + space_available r ≡ r.capacity)
      × ((is_empty r ≡ true) ↔ (data_available r ≡ 0))
      × ((is_full r ≡ true) ↔ (space_available r ≡ 0))
unfolding is_empty
observers_lem {r} v = ground (
  arith,
  data_available_lem v,
  space_available_lem v,
  is_full_lem v,
  count-le v,
  length-window (memory r) r.buf_size r.head (count r),
)

-- `set_buffer` over a block of `size` bytes gives a valid buffer that holds nothing.
pub set_buffer-IsValid :
    (r : CircularBuffer) (m : List ℕ) (size : ℕ)
    → length m ≡ size
    → 0 < size
    → size ≤ 2 ^ 63
    → IsValid (set_buffer r (some m) size) × (contents (set_buffer r (some m) size) ≡ [])
unfolding set_buffer
set_buffer-IsValid r m size e p q = (ground arith, refl)

-- `set_head` and `set_tail` accept exactly the positions inside the block, and a buffer stays
-- valid whether or not they do.
pub set_positions-IsValid :
    {r : CircularBuffer} (i : ℕ)
    → IsValid r
    → IsValid (set_head r i).1
      × IsValid (set_tail r i).1
      × (((set_head r i).0 ≡ true) ↔ (i < r.buf_size))
      × (((set_tail r i).0 ≡ true) ↔ (i < r.buf_size))
unfolding set_head set_tail
set_positions-IsValid {r} i v = (ground arith, ground arith, ground arith, ground arith)

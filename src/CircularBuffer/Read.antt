-- ===== src/CircularBuffer/Read.antt =====
-- The loop of `CircularBuffer::read`.
use native.Mathlib.Nat.{sub_self}
use unix_thread_ipc.Prelude.{
  sym, ℕ, zero, suc, ◌+◌, ◌-◌, ◌≤◌, ◌<◌, ◌≡◌, refl, ap, ◌∙◌, false, some, List, [], ◌++◌,
  append_assoc, arith, length, leb, ◌==◌, if◌then◌else◌, dec_lt, ℕ_discrete, min, length-append,
}
use unix_thread_ipc.Prelude.Size.{sub_size, mod_once}
use unix_thread_ipc.CircularBuffer.{
  CircularBuffer, memory, min_size, contiguous_data_available, data_available, read_round,
  read_loop, read,
}
use unix_thread_ipc.CircularBuffer.Window.{
  window, length-window, window-append, window-eq-slice, advance,
}
use unix_thread_ipc.CircularBuffer.Valid.{
  IsValid, count, contents, count-le, min_size_lem, data_available_lem,
  contiguous_data_available_lem,
}

-- The stored bytes before the end of the block.
abbrev ready : CircularBuffer → ℕ
ready r = if leb r.head r.tail then r.tail - r.head else r.buf_size - r.head

-- `bytes` were the oldest bytes of `r`, and `r'` holds the others.
record Took (r : CircularBuffer) (bytes : List ℕ) (r' : CircularBuffer) : Type 0 where
  valid : IsValid r'
  split : contents r ≡ bytes ++ contents r'
  counted : count r ≡ length bytes + count r'
  capacity_kept : r'.capacity ≡ r.capacity

module _ {r : CircularBuffer} (v : IsValid r) (a : ℕ) (there : a ≤ ready r) where
  head-read_round : (read_round r a).1.head ≡ advance r.buf_size r.head a
  unfolding read_round
  head-read_round = ground (arith, mod_once (r.head + a) r.buf_size)

  read_round-IsValid : IsValid (read_round r a).1
  unfolding read_round
  read_round-IsValid = record {
    mapped = v.mapped;
    block = v.block;
    small = v.small;
    spare = v.spare;
    head_in = ground (arith, head-read_round);
    tail_in = v.tail_in;
  }

  count-read_round : count r ≡ a + count (read_round r a).1
  unfolding read_round
  count-read_round = ground (arith, head-read_round)

  slice_lem : (read_round r a).0 ≡ window (memory r) r.buf_size r.head a
  unfolding read_round
  slice_lem =
      sym (window-eq-slice (memory r) r.buf_size r.head a (ground arith) (omega (arith, v.block)))

  capacity-read_round : (read_round r a).1.capacity ≡ r.capacity
  unfolding read_round
  capacity-read_round = refl

  length-read_round : length (read_round r a).0 ≡ a
  length-read_round = ap length slice_lem ∙ length-window (memory r) r.buf_size r.head a

  split-read_round : contents r ≡ (read_round r a).0 ++ contents (read_round r a).1
  unfolding read_round
  split-read_round =
      ap (window (memory r) r.buf_size r.head) count-read_round
      ∙ window-append (memory r) r.buf_size r.head a (count (read_round r a).1) v.head_in
          (ground arith)
      ∙ rw (slice_lem, ← head-read_round) refl

  read_round-Took : Took r (read_round r a).0 (read_round r a).1
  read_round-Took = record {
    valid = read_round-IsValid;
    split = split-read_round;
    counted = omega (arith, count-read_round, length-read_round);
    capacity_kept = capacity-read_round;
  }

  -- What does not lie before the end of the block lies at its start.
  ready-read_round : a ≡ ready r → count r ≤ ready r + ready (read_round r a).1
  unfolding read_round
  ready-read_round e = ground (arith, head-read_round)

ready-pos : {r : CircularBuffer} → IsValid r → 0 < count r → 0 < ready r
ready-pos v h = ground arith

read_loop-round :
    {r : CircularBuffer} (v : IsValid r) (rounds n a : ℕ) (out : List ℕ)
    → a ≡ min n (ready r)
    → 0 < n
    → n ≤ count r
    → read_loop (suc rounds) r n out
      ≡ read_loop rounds (read_round r a).1 (n - a) (out ++ (read_round r a).0)
unfolding read_loop
read_loop-round {r} v rounds n a out e p q = rw (amount, difference, more, some_ready)
  where
    amount : min_size n (contiguous_data_available r) ≡ a
    amount = ground (arith, contiguous_data_available_lem v)

    difference : sub_size n a ≡ n - a
    difference = omega (arith, v.small, v.spare, count-le v)

    more : (n == 0) ≡ false
    more = ground arith

    some_ready : (a == 0) ≡ false
    some_ready = ground (arith, ready-pos v)

read_loop-end :
    (rounds : ℕ) (r : CircularBuffer) (out : List ℕ) → read_loop rounds r 0 out ≡ some (out, r)
unfolding read_loop
read_loop-end zero r out = refl
read_loop-end (suc rounds) r out = refl

Took-refl : {r : CircularBuffer} → IsValid r → Took r [] r
Took-refl v = record { valid = v; split = refl; counted = omega arith; capacity_kept = refl }

Took-trans :
    {r r' r'' : CircularBuffer} (xs ys : List ℕ)
    → Took r xs r'
    → Took r' ys r''
    → Took r (xs ++ ys) r''
Took-trans {r'' = r''} xs ys f g = record {
  valid = g.valid;
  split = f.split ∙ ap (λ l. xs ++ l) g.split ∙ sym (append_assoc xs ys (contents r''));
  counted = omega (arith, f.counted, g.counted, length-append xs ys);
  capacity_kept = g.capacity_kept ∙ f.capacity_kept;
}

-- What `read` does, if it takes `n` bytes.
abbrev Reads : CircularBuffer → ℕ → Type 0
Reads r n =
    (out : List ℕ) × (r' : CircularBuffer) × (read_loop 2 r n [] ≡ some (out, r'))
    × Took r out r'
    × (length out ≡ n)

module _ {r : CircularBuffer} (v : IsValid r) (n : ℕ) (there : n ≤ count r) where
  -- The data goes round the end of the block.
  read_loop-two : (a : ℕ) → a ≡ ready r → a < n → Reads r n
  read_loop-two a e h = (out1 ++ out2, r2, run, Took-trans out1 out2 first second, total)
    where
      r1 : CircularBuffer
      r1 = (read_round r a).1

      out1 : List ℕ
      out1 = (read_round r a).0

      first : Took r out1 r1
      first = read_round-Took v a (omega arith)

      left : ℕ
      left = n - a

      r2 : CircularBuffer
      r2 = (read_round r1 left).1

      out2 : List ℕ
      out2 = (read_round r1 left).0

      facts : (left ≤ ready r1) × (left ≤ count r1)
      facts =
          omega (arith, ready-read_round v a (omega arith) e, count-read_round v a (omega arith))

      second : Took r1 out2 r2
      second = read_round-Took first.valid left facts.0

      total : length (out1 ++ out2) ≡ n
      total = omega (
        arith,
        length-append out1 out2,
        length-read_round v a (omega arith),
        length-read_round first.valid left facts.0,
      )

      run : read_loop 2 r n [] ≡ some (out1 ++ out2, r2)
      run =
          read_loop-round v 1 n a [] (omega arith) (omega arith) there
          ∙ read_loop-round first.valid 0 left left out1 (omega (arith, facts)) (omega arith)
              facts.1
          ∙ rw sub_self (read_loop-end 0 r2 (out1 ++ out2))

  read_loop_lem : Reads r n
  read_loop_lem = elim (dec_lt (ready r) n) [
    | yes more ↦ read_loop-two (ready r) refl more
    | no all ↦ elim (ℕ_discrete n 0) [
      | yes nothing ↦ ([], r, rw nothing (read_loop-end 2 r []), Took-refl v, sym nothing)
      | no p ↦ (
        (read_round r n).0,
        (read_round r n).1,
        read_loop-round v 1 n n [] (omega arith) (omega arith) there
            ∙ rw sub_self (read_loop-end 1 (read_round r n).1 (read_round r n).0),
        read_round-Took v n (omega arith),
        length-read_round v n (omega arith),
      )
    ]
  ]

-- From a valid buffer `read` makes at most two rounds, none of them empty. It takes out the oldest
-- bytes, as many as are asked for or stored, and leaves the others in their order.
pub read_lem :
    {r : CircularBuffer} (size : ℕ)
    → IsValid r
    → (out : List ℕ) × (r' : CircularBuffer) × (read r size ≡ some (out, r'))
      × IsValid r'
      × (contents r ≡ out ++ contents r')
      × (length out ≡ min size (data_available r))
      × (r'.capacity ≡ r.capacity)
unfolding read
read_lem {r} size v =
    let (out, r', run, took, counted) =
      read_loop_lem v (min size (data_available r)) (omega (arith, data_available_lem v)) in
    (
      out,
      r',
      rw (min_size_lem size (data_available r)) run,
      took.valid,
      took.split,
      counted,
      took.capacity_kept,
    )

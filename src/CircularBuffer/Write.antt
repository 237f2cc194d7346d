-- ===== src/CircularBuffer/Write.antt =====
-- The loop of `CircularBuffer::write`.
use native.Mathlib.Nat.{sub-zero, sub_self}
use unix_thread_ipc.Prelude.{
  sym, ℕ, zero, suc, ◌-◌, ◌≤◌, ◌<◌, ◌≡◌, refl, ap, ◌∙◌, false, some, List, [], ◌∷◌, ◌++◌,
  append_assoc, append-nil, arith, length, ◌==◌, dec_lt, ℕ_discrete, take, drop, min, length-take,
  length-drop, length-append,
}
use unix_thread_ipc.Prelude.Size.{sub_size}
use unix_thread_ipc.CircularBuffer.{
  CircularBuffer, contiguous_space_available, space_available, write_round, write_loop, write,
  min_size,
}
use unix_thread_ipc.CircularBuffer.Valid.{
  IsValid, count, contents, min_size_lem, space_available_lem, contiguous_space_available_lem,
}
use unix_thread_ipc.CircularBuffer.WriteRound.{
  room, Wrote, write_round-Wrote, room-write_round, room-pos,
}

-- A round is made with the whole rest, or with all the room before the end of the block.
write_loop-round :
    {r : CircularBuffer} (v : IsValid r) (rounds n a : ℕ) (source : List ℕ)
    → a ≡ min n (room r)
    → 0 < n
    → n ≤ r.capacity - count r
    → write_loop (suc rounds) r n source
      ≡ write_loop rounds (write_round r source a) (n - a) (drop a source)
unfolding write_loop
write_loop-round {r} v rounds n a source e p q = rw (amount, difference, more, some_room)
  where
    amount : min_size n (contiguous_space_available r) ≡ a
    amount = ground (arith, contiguous_space_available_lem v)

    difference : sub_size n a ≡ n - a
    difference = omega (arith, v.small, v.spare)

    more : (n == 0) ≡ false
    more = ground arith

    some_room : (a == 0) ≡ false
    some_room = ground (arith, room-pos v)

write_loop-end :
    (rounds : ℕ) (r : CircularBuffer) (source : List ℕ) → write_loop rounds r 0 source ≡ some r
unfolding write_loop
write_loop-end zero r source = refl
write_loop-end (suc rounds) r source = refl

Wrote-refl : {r : CircularBuffer} → IsValid r → Wrote r [] r
Wrote-refl {r} v = record {
  valid = v;
  stored = sym (append-nil (contents r));
  counted = omega arith;
  capacity_kept = refl;
}

take-nil : (n : ℕ) → take {A = ℕ} n [] ≡ []
take-nil zero = refl
take-nil (suc n) = refl

suc-sub : (n a : ℕ) → suc n - suc a ≡ n - a
suc-sub n a = omega arith

Wrote-trans :
    {r r' r'' : CircularBuffer} (xs ys : List ℕ)
    → Wrote r xs r'
    → Wrote r' ys r''
    → Wrote r (xs ++ ys) r''
Wrote-trans {r} xs ys f g = record {
  valid = g.valid;
  stored = g.stored ∙ ap (λ l. l ++ ys) f.stored ∙ append_assoc (contents r) xs ys;
  counted = omega (arith, f.counted, g.counted, length-append xs ys);
  capacity_kept = g.capacity_kept ∙ f.capacity_kept;
}

take-split : (n a : ℕ) (l : List ℕ) → a ≤ n → take a l ++ take (n - a) (drop a l) ≡ take n l
take-split n zero l p = rw sub-zero
take-split zero (suc a) l p = absurd (omega arith)
take-split (suc n) (suc a) [] p = take-nil (suc n - suc a)
take-split (suc n) (suc a) (x ∷ l) p =
    rw (suc-sub n a) (ap (λ k. x ∷ k) (take-split n a l (omega arith)))

module _ {r : CircularBuffer} (v : IsValid r) (n : ℕ) (source : List ℕ)
    (fits : n ≤ r.capacity - count r) (enough : n ≤ length source) where
  -- The data goes round the end of the block.
  write_loop-two :
      (a : ℕ)
      → a ≡ room r
      → a < n
      → (r' : CircularBuffer) × (write_loop 2 r n source ≡ some r') × Wrote r (take n source) r'
  write_loop-two a e h = (r2, run, done)
    where
      r1 : CircularBuffer
      r1 = write_round r source a

      first : Wrote r (take a source) r1
      first = write_round-Wrote v source a (omega arith) (omega arith)

      left : ℕ
      left = n - a

      r2 : CircularBuffer
      r2 = write_round r1 (drop a source) left

      facts : (left ≤ room r1) × (left ≤ r1.capacity - count r1) × (left ≤ length (drop a source))
      facts = omega (
        arith,
        room-write_round v source a (omega arith) (omega arith) e,
        first.counted,
        first.capacity_kept,
        length-take a source,
        length-drop a source,
      )

      second : Wrote r1 (take left (drop a source)) r2
      second = write_round-Wrote first.valid (drop a source) left facts.0 facts.2

      run : write_loop 2 r n source ≡ some r2
      run =
          write_loop-round v 1 n a source (omega arith) (omega arith) fits
          ∙ write_loop-round first.valid 0 left left (drop a source) (omega (arith, facts))
              (omega arith) facts.1
          ∙ rw sub_self (write_loop-end 0 r2 (drop left (drop a source)))

      done : Wrote r (take n source) r2
      done =
          rw (← take-split n a source (omega arith))
            (Wrote-trans (take a source) (take left (drop a source)) first second)

  write_loop_lem :
      (r' : CircularBuffer) × (write_loop 2 r n source ≡ some r') × Wrote r (take n source) r'
  write_loop_lem = elim (dec_lt (room r) n) [
    | yes more ↦ write_loop-two (room r) refl more
    | no all ↦ elim (ℕ_discrete n 0) [
      | yes nothing ↦ (r, rw nothing (write_loop-end 2 r source), rw nothing (Wrote-refl v))
      | no p ↦ (
        write_round r source n,
        write_loop-round v 1 n n source (omega arith) (omega arith) fits
            ∙ rw sub_self (write_loop-end 1 (write_round r source n) (drop n source)),
        write_round-Wrote v source n (omega arith) enough,
      )
    ]
  ]

write-of-loop :
    (r : CircularBuffer) {r' : CircularBuffer} {n : ℕ} (source : List ℕ) (size : ℕ)
    → min_size size (space_available r) ≡ n
    → write_loop 2 r n source ≡ some r'
    → write r source size ≡ some (n, r')
unfolding write
write-of-loop r source size e run = ground arith

-- From a valid buffer `write` makes at most two rounds, none of them empty. It stores as much of
-- the data as there is space for, behind what is stored, and returns that number.
pub write_lem :
    {r : CircularBuffer} (source : List ℕ) (size : ℕ)
    → IsValid r
    → size ≤ length source
    → (r' : CircularBuffer) × (write r source size ≡ some (min size (space_available r), r'))
      × IsValid r'
      × (contents r' ≡ contents r ++ take (min size (space_available r)) source)
      × (r'.capacity ≡ r.capacity)
write_lem {r} source size v h =
    let (r', run, done) =
      write_loop_lem v (min size (space_available r)) source (omega (arith, space_available_lem v))
        (omega arith) in
    (
      r',
      write-of-loop r source size (min_size_lem size (space_available r)) run,
      done.valid,
      done.stored,
      done.capacity_kept,
    )

-- ===== src/ByteStore/Capacity.antt =====
-- The capacity of a MemoryBuffer and the rounds of the loop of `Reserve`.
use unix_thread_ipc.Prelude.{
  ℕ, zero, suc, ◌+◌, ◌*◌, ◌≤◌, ◌<◌, ◌≡◌, refl, ap, ◌∙◌, true, false, List, ◌++◌, arith, ltb, ◌==◌,
  if◌then◌else◌, length, length-append, ◌⊎◌, inl, inr, dec_lt,
}
use unix_thread_ipc.ByteStore.{MemoryBuffer, initial_capacity, grow, reserve_buffer, append}

-- A round adds at least one to a capacity above 0, so that `fuel` rounds are enough.
grow_lem :
    (fuel capacity num : ℕ)
    → 0 < capacity
    → num ≤ capacity + fuel
    → (num ≤ grow fuel capacity num) × (capacity ≤ grow fuel capacity num)
unfolding grow
grow_lem zero capacity num positive enough = (omega arith, omega arith)
grow_lem (suc fuel) capacity num positive enough = elim (dec_lt capacity num) [
  | yes p ↦
      let small : ltb capacity num ≡ true = ground arith in
      let (fits, grows) = grow_lem fuel (capacity * 2) num (omega arith) (omega arith) in
      rw (small) (fits, omega arith)
  | no p ↦
      let large : ltb capacity num ≡ false = ground arith in rw (large) (omega arith, omega arith)
]

-- With enough rounds, the capacity is less than twice of what was asked for, or as before.
grow-bound :
    (fuel capacity num : ℕ)
    → num ≤ capacity + fuel
    → 0 < capacity
    → (grow fuel capacity num ≡ capacity) ⊎ (grow fuel capacity num < num + num)
unfolding grow
grow-bound zero capacity num enough positive = inl refl
grow-bound (suc fuel) capacity num enough positive = elim (dec_lt capacity num) [
  | no p ↦ let large : ltb capacity num ≡ false = ground arith in rw (large) (inl refl)
  | yes p ↦
      let small : ltb capacity num ≡ true = ground arith in
      rw (small)
        (inr (omega (arith, grow-bound fuel (capacity * 2) num (omega arith) (omega arith))))
]

-- The bytes are within what is allocated, which is nothing or at least the initial capacity.
abbrev pub IsValid : MemoryBuffer → Type 0
IsValid b = (length b.bytes ≤ b.capacity) × ((b.capacity ≡ 0) ⊎ (initial_capacity ≤ b.capacity))

abbrev Bounded : ℕ → ℕ → ℕ → Type 0
Bounded before num after = (after ≡ before) ⊎ ((after < num + num) ⊎ (after ≡ initial_capacity))

-- The capacity that `Reserve` starts doubling from.
start_lem :
    (capacity : ℕ)
    → (capacity ≡ 0) ⊎ (initial_capacity ≤ capacity)
    → let c = if capacity == 0 then initial_capacity else capacity in
      (initial_capacity ≤ c) × (capacity ≤ c) × ((c ≡ capacity) ⊎ (c ≡ initial_capacity))
start_lem capacity (inl e) =
    let z : (capacity == 0) ≡ true = ground arith in rw (z) (omega arith, omega arith, inr refl)
start_lem capacity (inr h) =
    let z : (capacity == 0) ≡ false = ground arith in rw (z) (h, omega arith, inl refl)

grown-Bounded :
    (capacity c num grown : ℕ)
    → (c ≡ capacity) ⊎ (c ≡ initial_capacity)
    → (grown ≡ c) ⊎ (grown < num + num)
    → Bounded capacity num grown
grown-Bounded capacity c num grown (inl e) (inl f) = inl (f ∙ e)
grown-Bounded capacity c num grown (inr e) (inl f) = inr (inr (f ∙ e))
grown-Bounded capacity c num grown e (inr h) = inr (inl h)

reserve_buffer_lem :
    (num : ℕ) (b : MemoryBuffer)
    → (b.capacity ≡ 0) ⊎ (initial_capacity ≤ b.capacity)
    → let b' = reserve_buffer num b in
      (num ≤ b'.capacity)
      × (b'.bytes ≡ b.bytes)
      × ((b'.capacity ≡ 0) ⊎ (initial_capacity ≤ b'.capacity))
      × Bounded b.capacity num b'.capacity
unfolding reserve_buffer
reserve_buffer_lem num b valid = elim (dec_lt num b.capacity) [
  | yes p ↦
      let enough : ltb num b.capacity ≡ true = ground arith in
      rw (enough) (omega arith, refl, valid, inl refl)
  | no p ↦
      let more : ltb num b.capacity ≡ false = ground arith in
      let c = if b.capacity == 0 then initial_capacity else b.capacity in
      let (initial, above, which) = start_lem b.capacity valid in
      let (fits, grows) = grow_lem num c num (omega arith) (omega arith) in
      rw (more) (
        fits,
        refl,
        inr (omega arith),
        grown-Bounded b.capacity c num (grow num c num) which
            (grow-bound num c num (omega arith) (omega arith)),
      )
]

-- `Append` to a valid buffer has room for all bytes before it copies them, keeps what was there, and
-- keeps the buffer valid. It allocates less than twice the new size, or the initial capacity, if it
-- allocates more than there was.
pub append-IsValid :
    (bytes : List ℕ) (b : MemoryBuffer)
    → IsValid b
    → let num = length b.bytes + length bytes in
      let b' = append bytes b in
      (num ≤ (reserve_buffer num b).capacity)
      × (b'.bytes ≡ b.bytes ++ bytes)
      × IsValid b'
      × ((b'.capacity ≡ b.capacity)
          ⊎ ((b'.capacity < num + num) ⊎ (b'.capacity ≡ initial_capacity)))
unfolding append
append-IsValid bytes b (inside, capacity) =
    let num = length b.bytes + length bytes in
    let (fits, same, valid, bounded) = reserve_buffer_lem num b capacity in
    let all = ap (λ l. l ++ bytes) same in
    (fits, all, (omega (arith, fits, ap length all, length-append b.bytes bytes), valid), bounded)

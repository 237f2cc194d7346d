-- ===== src/Serialization/Termination.antt =====
-- The nesting of `CreateAndReadObject` against the length of its memory.
use mathlib.Core.Path.{subst}
use native.Mathlib.Nat.{mod-eq_of_lt}
use unix_thread_ipc.Prelude.{
  ℕ, zero, suc, ◌+◌, ◌%◌, ◌^◌, ◌≤◌, ◌<◌, ◌≡◌, ◌≢◌, refl, ap, Bool, true, false, List, Option, none,
  some, arith, drop, length, length-drop, ltb, leb, ◌==◌, if◌then◌else◌,
}
use unix_thread_ipc.Prelude.Map
use unix_thread_ipc.Prelude.Map.{Map}
use unix_thread_ipc.Prelude.Size.{add_size}
use unix_thread_ipc.Serialization.{
  null_id, size_of_int, Object, null, string16, notification, Deserializer, Read, got, failed,
  fault, aborted, out_of_fuel, Reader, after, allocate, checked, embedded, c_string, read_string,
  deserialize, read_body, read_object, read_int, read_bytes,
}

-- A read that ends, and whose value leaves the reader in the memory `memory`, of `least` bytes or
-- more, at `least` or behind.
abbrev EndsIn : {A : Type 0} → List ℕ → ℕ → Read A → Type 0
EndsIn memory least (got a d) = (d.memory ≡ memory) × (least ≤ d.read_pos) × (least ≤ length memory)
EndsIn memory least (failed d) = Unit
EndsIn memory least fault = Unit
EndsIn memory least aborted = Unit
EndsIn memory least out_of_fuel = ⊥

-- A chain of reads ends if its first does, and what follows it where it has a value.
after-EndsIn :
    {A B : Type 0} (memory : List ℕ) (least more : ℕ) (r : Read A) (f : A → Reader B)
    → EndsIn memory least r
    → ((a : A) (d : Deserializer)
        → d.memory ≡ memory
        → least ≤ d.read_pos
        → least ≤ length d.memory
        → EndsIn d.memory more (f a d))
    → EndsIn memory more (after r f)
after-EndsIn memory least more (got a d) f (kept, far, long) next =
    subst (λ m. EndsIn m more (f a d)) kept (next a d kept far (omega (arith, ap length kept)))
after-EndsIn memory least more (failed d) f ends next = tt
after-EndsIn memory least more fault f ends next = tt
after-EndsIn memory least more aborted f ends next = tt
after-EndsIn memory least more out_of_fuel f ends next = absurd ends

-- A test that decides between two ends.
if-EndsIn :
    {A : Type 0} (memory : List ℕ) (least : ℕ) (c : Bool) (r s : Read A)
    → (c ≡ true → EndsIn memory least r)
    → EndsIn memory least s
    → EndsIn memory least (if c then r else s)
if-EndsIn memory least true r s x y = x refl
if-EndsIn memory least false r s x y = y

read_bytes-EndsIn :
    (n : ℕ) (d : Deserializer) → length d.memory < 2 ^ 64 → EndsIn d.memory n (read_bytes n d)
unfolding read_bytes
read_bytes-EndsIn n d h =
    if-EndsIn {A = List ℕ} d.memory n (ltb d.size (add_size d.read_pos n)) _ _ (λ e. tt)
      (if-EndsIn {A = List ℕ} d.memory n (leb (d.read_pos + n) (length d.memory)) _ _
        (λ e. (refl, ground (arith, mod-eq_of_lt {n = d.read_pos + n} {m = 2 ^ 64}), ground arith))
        tt)

read_int-EndsIn : (d : Deserializer) → length d.memory < 2 ^ 64 → EndsIn d.memory 4 (read_int d)
unfolding read_int
read_int-EndsIn d h =
    after-EndsIn d.memory 4 4 (read_bytes 4 d) _ (read_bytes-EndsIn 4 d h)
      (λ a e kept far long. (refl, far, long))

allocate-EndsIn : (size : ℕ) (d : Deserializer) → EndsIn d.memory 0 (allocate size d)
allocate-EndsIn size d =
    if-EndsIn {A = ℕ} d.memory 0 (leb (2 ^ 31) ((size + 1) % 2 ^ 32)) fault (got size d) (λ e. tt)
      (refl, omega arith, omega arith)

checked-EndsIn : {A : Type 0} (r : Option A) (d : Deserializer) → EndsIn d.memory 0 (checked r d)
checked-EndsIn none d = tt
checked-EndsIn (some a) d = (refl, omega arith, omega arith)

read_string-EndsIn :
    (from_utf8 : List ℕ → Option (List ℕ)) (d : Deserializer)
    → length d.memory < 2 ^ 64
    → EndsIn d.memory 0 (read_string from_utf8 d)
unfolding read_string
read_string-EndsIn from_utf8 d h =
    after-EndsIn d.memory 4 0 (read_int d) _ (read_int-EndsIn d h) (λ size e kept far long.
      after-EndsIn e.memory 0 0 (allocate size e) _ (allocate-EndsIn size e) (λ n f same here _.
        after-EndsIn f.memory (size_of_int n) 0 (read_bytes (size_of_int n) f) _
          (read_bytes-EndsIn (size_of_int n) f (omega (arith, h, ap length kept, ap length same)))
          (λ utf8 g there beyond _. checked-EndsIn (from_utf8 (c_string utf8)) g)))

module _ (from_utf8 : List ℕ → Option (List ℕ)) (constructors : Map Object) where
  -- Reading the content, which is within memory shorter than `bound`, ends.
  abbrev Bounded : Reader Object → ℕ → Type 0
  Bounded read bound = (d : Deserializer) → length d.memory < bound → EndsIn d.memory 0 (read d)

  deserialize-EndsIn :
      (read : Reader Object) (fresh : Object) (d : Deserializer)
      → length d.memory < 2 ^ 64
      → Bounded read (suc (length d.memory))
      → EndsIn d.memory 0 (deserialize from_utf8 constructors read fresh d)
  deserialize-EndsIn read null d h ends = (refl, omega arith, omega arith)
  deserialize-EndsIn read (string16 s) d h ends =
      after-EndsIn d.memory 0 0 (read_string from_utf8 d) _ (read_string-EndsIn from_utf8 d h)
        (λ t e kept far long. (refl, omega arith, omega arith))
  deserialize-EndsIn read (notification t c) d h ends =
      after-EndsIn d.memory 0 0 (read_string from_utf8 d) _ (read_string-EndsIn from_utf8 d h)
        (λ topic e kept far long.
          after-EndsIn e.memory 0 0 (read e) _ (ends e (omega (arith, ap length kept)))
            (λ content f same there _. (refl, omega arith, omega arith)))

  embedded-EndsIn :
      (d : Deserializer) (memory : List ℕ) (r : Read Object)
      → EndsIn memory 0 r
      → EndsIn d.memory 0 (embedded d r)
  embedded-EndsIn d memory (got o e) ends = (refl, omega arith, omega arith)
  embedded-EndsIn d memory (failed e) ends = tt
  embedded-EndsIn d memory fault ends = tt
  embedded-EndsIn d memory aborted ends = tt
  embedded-EndsIn d memory out_of_fuel ends = absurd ends

  created-EndsIn :
      (d : Deserializer) (found : Option Object) (f : Object → Read Object)
      → ((fresh : Object) → EndsIn d.memory 0 (f fresh))
      → EndsIn d.memory 0 (elim found [ none ↦ failed d | some fresh ↦ f fresh ])
  created-EndsIn d none f ends = tt
  created-EndsIn d (some fresh) f ends = ends fresh

  read_body-EndsIn :
      (read : Reader Object) (id size : ℕ) (d : Deserializer)
      → length d.memory < 2 ^ 64
      → 0 < d.read_pos
      → 0 < length d.memory
      → Bounded read (length d.memory)
      → EndsIn d.memory 0 (read_body from_utf8 constructors read id size d)
  read_body-EndsIn read id size d h far long ends =
      if-EndsIn {A = Object} d.memory 0 (id == null_id) _ _
        (λ e.
          if-EndsIn {A = Object} d.memory 0 (size == 0) (got null d) aborted
            (λ z. (refl, omega arith, omega arith)) tt)
        (let behind : Deserializer = record d {
          read_pos = add_size d.read_pos (size_of_int size);
        } in
          created-EndsIn behind (Map.lookup id constructors) _ (λ fresh.
            let inner : Deserializer = record {
              memory = drop d.read_pos d.memory;
              size = size_of_int size;
              read_pos = 0;
            } in
            let shorter = length-drop d.read_pos d.memory in
            embedded-EndsIn behind inner.memory
              (deserialize from_utf8 constructors read fresh inner)
              (deserialize-EndsIn read fresh inner (omega (arith, shorter))
                (λ e small. ends e (omega (arith, shorter))))))

  read_object-EndsIn :
      (fuel : ℕ) (d : Deserializer)
      → length d.memory < fuel
      → length d.memory < 2 ^ 64
      → EndsIn d.memory 0 (read_object from_utf8 constructors fuel d)
  unfolding read_object
  read_object-EndsIn zero d h small = absurd (omega arith)
  read_object-EndsIn (suc fuel) d h small =
      after-EndsIn d.memory 4 0 (read_int d) _ (read_int-EndsIn d small) (λ id e kept far long.
        after-EndsIn e.memory 4 0 (read_int e) _ (read_int-EndsIn e (omega (arith, ap length kept)))
          (λ size f same there wide.
            read_body-EndsIn (read_object from_utf8 constructors fuel) id size f
              (omega (arith, ap length kept, ap length same)) (omega arith) (omega arith)
              (λ g bound.
                read_object-EndsIn fuel g (omega (arith, ap length kept, ap length same))
                  (omega (arith, ap length kept, ap length same)))))

  -- Reading an object ends on any bytes whatever: fuel above the number of bytes in the memory, which
  -- a `size_t` can count, is never used up.
  pub read_object-terminates :
      (fuel : ℕ) (d : Deserializer)
      → length d.memory < fuel
      → length d.memory < 2 ^ 64
      → read_object from_utf8 constructors fuel d ≢ out_of_fuel
  read_object-terminates fuel d h small stuck =
      subst (EndsIn d.memory 0) stuck (read_object-EndsIn fuel d h small)

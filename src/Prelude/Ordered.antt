-- ===== src/Prelude/Ordered.antt =====
-- The order of the keys of a `std::map`: each key occurs once.
use Prim.Native.Nat.{ℕ, ◌<◌, ◌≤◌}
use mathlib.Core.Path.{◌≡◌, refl}
use mathlib.Core.Option.{Option, none, some}
use mathlib.Core.List.{[], ◌∷◌}
use mathlib.Core.Bool.{Bool, true, false}
use native.Mathlib.Omega.{arith}
use unix_thread_ipc.Prelude.Tests.{◌==◌, if◌then◌else◌}
use unix_thread_ipc.Prelude.Map
use unix_thread_ipc.Prelude.Map.{Map}

module _ {ℓ} {V : Type ℓ} where
  -- All keys are above `b`.
  abbrev pub Above : ℕ → Map V → Type 0
  Above b [] = Unit
  Above b ((k, v) ∷ m) = (b < k) × Above b m

  abbrev pub IsOrdered : Map V → Type 0
  IsOrdered [] = Unit
  IsOrdered ((k, v) ∷ m) = Above k m × IsOrdered m

  Above-le : (a b : ℕ) (m : Map V) → a ≤ b → Above b m → Above a m
  Above-le a b [] le h = tt
  Above-le a b ((k, v) ∷ m) le h = (omega (arith, h.0), Above-le a b m le h.1)

  pub Above-insert : (b k : ℕ) (v : V) (m : Map V) → b < k → Above b m → Above b (Map.insert k v m)
  unfolding Map.insert
  Above-insert b k v [] lt h = (lt, tt)
  Above-insert b k v ((j, w) ∷ m) lt h = ground (arith, Above-insert b k v m lt h.1)

  pub Above-erase : (b k : ℕ) (m : Map V) → Above b m → Above b (Map.erase k m)
  unfolding Map.erase
  Above-erase b k [] h = tt
  Above-erase b k ((j, w) ∷ m) h = ground (arith, Above-erase b k m h.1)

  pub insert-IsOrdered : (k : ℕ) (v : V) (m : Map V) → IsOrdered m → IsOrdered (Map.insert k v m)
  unfolding Map.insert
  insert-IsOrdered k v [] h = (tt, tt)
  insert-IsOrdered k v ((j, w) ∷ m) h =
      ground (arith, Above-insert j k v m, insert-IsOrdered k v m h.1, Above-le k j m)

  pub erase-IsOrdered : (k : ℕ) (m : Map V) → IsOrdered m → IsOrdered (Map.erase k m)
  unfolding Map.erase
  erase-IsOrdered k [] h = tt
  erase-IsOrdered k ((j, w) ∷ m) h = ground (arith, Above-erase j k m h.0, erase-IsOrdered k m h.1)

  pub lookup-Above : (b k : ℕ) (m : Map V) → k ≤ b → Above b m → Map.lookup k m ≡ none
  unfolding Map.lookup
  lookup-Above b k [] le h = refl
  lookup-Above b k ((j, w) ∷ m) le h = ground (arith, lookup-Above b k m le h.1)

  -- A predicate on all values.
  abbrev pub Values : (V → Type 0) → Map V → Type 0
  Values P [] = Unit
  Values P ((k, v) ∷ m) = P v × Values P m

  pub Values-insert :
      (P : V → Type 0) (k : ℕ) (v : V) (m : Map V) → P v → Values P m → Values P (Map.insert k v m)
  unfolding Map.insert
  Values-insert P k v [] p h = (p, tt)
  Values-insert P k v ((j, w) ∷ m) p h = ground (arith, Values-insert P k v m p h.1)

  pub Values-erase : (P : V → Type 0) (k : ℕ) (m : Map V) → Values P m → Values P (Map.erase k m)
  unfolding Map.erase
  Values-erase P k [] h = tt
  Values-erase P k ((j, w) ∷ m) h = ground (arith, Values-erase P k m h.1)

  abbrev pub WhenSome : (V → Type 0) → Option V → Type 0
  WhenSome P none = Unit
  WhenSome P (some v) = P v

  either-WhenSome :
      (P : V → Type 0) (c : Bool) (o o' : Option V)
      → WhenSome P o
      → WhenSome P o'
      → WhenSome P (if c then o else o')
  either-WhenSome P true o o' p q = p
  either-WhenSome P false o o' p q = q

  pub lookup-Values :
      (P : V → Type 0) (k : ℕ) (m : Map V) → Values P m → WhenSome P (Map.lookup k m)
  unfolding Map.lookup
  lookup-Values P k [] h = tt
  lookup-Values P k ((j, w) ∷ m) h =
      either-WhenSome P (j == k) (some w) (Map.lookup k m) h.0 (lookup-Values P k m h.1)

  -- The second of two writes to the same key counts.
  pub insert-insert :
      (k : ℕ) (v w : V) (m : Map V) → Map.insert k v (Map.insert k w m) ≡ Map.insert k v m
  unfolding Map.insert
  insert-insert k v w [] = ground arith
  insert-insert k v w ((j, u) ∷ m) = ground (arith, insert-insert k v w m)

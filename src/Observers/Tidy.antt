-- ===== src/Observers/Tidy.antt =====
-- The maps of the message service: collections and sets that no observer needs are deleted.
use unix_thread_ipc.Prelude.{
  ℕ, Bool, true, false, ◌≡◌, refl, Option, none, some, [], ◌∷◌, arith, if◌then◌else◌,
}
use unix_thread_ipc.Prelude.Map
use unix_thread_ipc.Prelude.Map.{Map, lookup-insert}
use unix_thread_ipc.Prelude.Ordered.{IsOrdered, Values, WhenSome, lookup-Values}
use unix_thread_ipc.Observers.{Service, ThreadObservers, ObserverSet, set_of, or_empty, is_nothing}

abbrev pub IsTidySet : ObserverSet → Type 0
IsTidySet set = IsOrdered set × (is_nothing set ≡ false)

abbrev pub IsTidyCollection : ThreadObservers → Type 0
IsTidyCollection c = IsOrdered c × Values IsTidySet c × (is_nothing c ≡ false)

-- Each topic, each thread and each observer is there once, no set is empty and no collection is.
abbrev pub IsTidy : Service → Type 0
IsTidy s = IsOrdered s.collections × Values IsTidyCollection s.collections

-- A collection that may be empty.
abbrev pub Loose : ThreadObservers → Type 0
Loose c = IsOrdered c × Values IsTidySet c

pub found-Loose : (o : Option ThreadObservers) → WhenSome IsTidyCollection o → Loose (or_empty o)
found-Loose none h = (tt, tt)
found-Loose (some c) h = (h.0, h.1)

found-IsOrdered : (o : Option ObserverSet) → WhenSome IsTidySet o → IsOrdered (or_empty o)
found-IsOrdered none h = tt
found-IsOrdered (some set) h = h.0

pub collection-Loose :
    (s : Service) (topic : ℕ) → IsTidy s → Loose (or_empty (Map.lookup topic s.collections))
collection-Loose s topic h =
    found-Loose (Map.lookup topic s.collections)
      (lookup-Values IsTidyCollection topic s.collections h.1)

pub set_of-IsOrdered :
    (s : Service) (topic thread : ℕ) → IsTidy s → IsOrdered (set_of s topic thread)
set_of-IsOrdered s topic thread h =
    let c = or_empty (Map.lookup topic s.collections) in
    found-IsOrdered (Map.lookup thread c)
      (lookup-Values IsTidySet thread c (collection-Loose s topic h).1)

pub insert-is_nothing :
    {V : Type 0} (k : ℕ) (v : V) (m : Map V) → is_nothing (Map.insert k v m) ≡ false
unfolding Map.insert
insert-is_nothing k v [] = refl
insert-is_nothing k v ((j, w) ∷ m) = ground arith

pub either : {A : Type 0} (P : A → Type 0) (c : Bool) (a b : A) → P a → P b → P (if c then a else b)
either P true a b p q = p
either P false a b p q = q

abbrev pub TidyMap : Map ThreadObservers → Type 0
TidyMap m = IsOrdered m × Values IsTidyCollection m

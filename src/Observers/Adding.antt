-- ===== src/Observers/Adding.antt =====
-- `AddObserver` and the maps of the message service.
use unix_thread_ipc.Prelude.{ℕ, ◌≡◌, sym, Option, none, some, [], arith, if◌then◌else◌}
use mathlib.Core.Path.{subst}
use unix_thread_ipc.Prelude.Map
use unix_thread_ipc.Prelude.Map.{Map, lookup-insert}
use unix_thread_ipc.Prelude.Ordered.{insert-IsOrdered, Values-insert, insert-insert}
use unix_thread_ipc.Observers.{
  Service, ThreadObservers, set_of, or_empty, is_some, create_set, add_observer,
}
use unix_thread_ipc.Observers.Tidy.{
  IsTidySet, IsTidyCollection, IsTidy, collection-Loose, set_of-IsOrdered, insert-is_nothing,
  either, TidyMap,
}

-- `AddObserver` in one write.
abbrev with_observer : Service → ℕ → ℕ → ℕ → Map ThreadObservers
with_observer s self observer topic =
    Map.insert topic
      (Map.insert self (Map.insert observer tt (set_of s topic self))
        (or_empty (Map.lookup topic s.collections)))
      s.collections

collections-add_observer :
    (s : Service) (self observer topic : ℕ)
    → (add_observer s self observer (some topic)).1.collections ≡ (
        if is_some (Map.lookup observer (set_of s topic self))
        then s.collections
        else with_observer s self observer topic)
unfolding add_observer create_set Map.lookup
collections-add_observer s self observer topic =
    let c = or_empty (Map.lookup topic s.collections) in
    ground (
      arith,
      lookup-insert topic topic (Map.insert self [] c) s.collections,
      lookup-insert self self [] c,
      insert-insert topic (Map.insert self (Map.insert observer tt []) c) (Map.insert self [] c)
          s.collections,
      insert-insert self (Map.insert observer tt []) [] c,
    )

with_observer-TidyMap :
    (s : Service) (self observer topic : ℕ)
    → IsTidy s
    → TidyMap (with_observer s self observer topic)
with_observer-TidyMap s self observer topic h =
    let c = or_empty (Map.lookup topic s.collections) in
    let set = Map.insert observer tt (set_of s topic self) in
    let loose = collection-Loose s topic h in
    let tidy_set : IsTidySet set = (
      insert-IsOrdered observer tt (set_of s topic self) (set_of-IsOrdered s topic self h),
      insert-is_nothing observer tt (set_of s topic self),
    ) in
    let tidy : IsTidyCollection (Map.insert self set c) = (
      insert-IsOrdered self set c loose.0,
      Values-insert IsTidySet self set c tidy_set loose.1,
      insert-is_nothing self set c,
    ) in
    (
      insert-IsOrdered topic (Map.insert self set c) s.collections h.0,
      Values-insert IsTidyCollection topic (Map.insert self set c) s.collections tidy h.1,
    )

pub add_observer-IsTidy :
    (s : Service) (self observer : ℕ) (topic : Option ℕ)
    → IsTidy s
    → IsTidy (add_observer s self observer topic).1
unfolding add_observer
add_observer-IsTidy s self observer none h = h
add_observer-IsTidy s self observer (some topic) h =
    subst TidyMap (sym (collections-add_observer s self observer topic)) (
      either TidyMap (is_some (Map.lookup observer (set_of s topic self))) s.collections
        (with_observer s self observer topic) h (with_observer-TidyMap s self observer topic h))

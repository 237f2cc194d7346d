-- ===== src/Observers/Registration.antt =====
-- Who observes what, after `AddObserver`, `RemoveObserver` and `RemoveObserversForThread`.
use unix_thread_ipc.Prelude.{
  ℕ, Bool, true, false, not, ◌&&◌, ◌≡◌, refl, none, some, [], ◌∷◌, arith, ◌==◌, if◌then◌else◌,
}
use unix_thread_ipc.Prelude.Map
use unix_thread_ipc.Prelude.Map.{Map, lookup-insert, lookup-erase}
use unix_thread_ipc.Observers.{
  Service, ThreadObservers, ObserverSet, set_of, or_empty, is_some, is_nothing, create_set,
  add_observer, remove_from, remove_observer, remove_thread, remove_observers_for_thread,
}

abbrev pub is_observing : Service → ℕ → ℕ → ℕ → Bool
is_observing s topic thread observer = is_some (Map.lookup observer (set_of s topic thread))

set_of-create_set :
    (s : Service) (topic self topic' thread : ℕ)
    → set_of (create_set s topic self) topic' thread ≡ set_of s topic' thread
unfolding create_set Map.lookup
set_of-create_set s topic self topic' thread = grind (arith, lookup-insert)

-- `AddObserver` succeeds exactly if the observer was not registered for the topic on this thread.
-- Then it is, and nothing else has changed for any topic, thread or observer.
pub add_observer_lem :
    (s : Service) (self observer topic topic' thread observer' : ℕ)
    → let (ok, s') = add_observer s self observer (some topic) in
      (ok ≡ not (is_observing s topic self observer))
      × (is_observing s' topic' thread observer' ≡ (
          if (topic == topic') && ((self == thread) && (observer == observer'))
          then true
          else is_observing s topic' thread observer'))
unfolding add_observer
add_observer_lem s self observer topic topic' thread observer' =
    (grind (arith, set_of-create_set), grind (arith, set_of-create_set, lookup-insert))

-- A collection after a removal, for each thread and observer.
abbrev is_in : ThreadObservers → ℕ → ℕ → Bool
is_in c thread observer = is_some (Map.lookup observer (or_empty (Map.lookup thread c)))

lookup-nothing : (k : ℕ) (m : ObserverSet) → is_nothing m ≡ true → is_some (Map.lookup k m) ≡ false
unfolding Map.lookup
lookup-nothing k [] h = refl
lookup-nothing k (x ∷ m) h = cc

thread-nothing :
    (thread observer : ℕ) (c : ThreadObservers)
    → is_nothing c ≡ true
    → is_in c thread observer ≡ false
unfolding Map.lookup
thread-nothing thread observer [] h = refl
thread-nothing thread observer (x ∷ c) h = cc

lookup-nil : {V : Type 0} (k : ℕ) → Map.lookup {V = V} k [] ≡ none
unfolding Map.lookup
lookup-nil k = refl

remove_from_lem :
    (c : ThreadObservers) (self observer thread observer' : ℕ)
    → let (ok, c') = remove_from c self observer in
      (ok ≡ is_in c self observer)
      × (is_in c' thread observer' ≡ (
          if (self == thread) && (observer == observer') then false else is_in c thread observer'))
unfolding remove_from
remove_from_lem c self observer thread observer' = (
  ground (arith, lookup-nil {V = Unit} observer),
  ground (
    arith,
    lookup-nil {V = Unit} observer',
    lookup-insert self thread (Map.erase observer (or_empty (Map.lookup self c))) c,
    lookup-erase self thread c,
    lookup-erase observer observer' (or_empty (Map.lookup self c)),
    lookup-nothing observer' (Map.erase observer (or_empty (Map.lookup self c))),
  ),
)

-- `RemoveObserver` succeeds exactly if the observer was registered for the topic on this thread.
-- Then it no longer is, and nothing else has changed for any topic, thread or observer.
pub remove_observer_lem :
    (s : Service) (self observer topic topic' thread observer' : ℕ)
    → let (ok, s') = remove_observer s self observer (some topic) in
      (ok ≡ is_observing s topic self observer)
      × (is_observing s' topic' thread observer' ≡ (
          if (topic == topic') && ((self == thread) && (observer == observer'))
          then false
          else is_observing s topic' thread observer'))
unfolding remove_observer
remove_observer_lem s self observer topic topic' thread observer' =
    let c = or_empty (Map.lookup topic s.collections) in
    let c' = (remove_from c self observer).1 in
    (
      ground (
        arith,
        remove_from_lem c self observer thread observer',
        lookup-nil {V = ObserverSet} self,
        lookup-nil {V = Unit} observer,
      ),
      ground (
        arith,
        remove_from_lem c self observer thread observer',
        remove_from_lem c self observer self observer,
        lookup-nil {V = ObserverSet} thread,
        lookup-nil {V = Unit} observer',
        lookup-insert topic topic' c' s.collections,
        lookup-erase topic topic' s.collections,
        thread-nothing thread observer' c',
      ),
    )

remove_thread_lem :
    (m : Map ThreadObservers) (thread topic : ℕ)
    → Map.lookup thread (or_empty (Map.lookup topic (remove_thread m thread))) ≡ none
unfolding remove_thread Map.lookup
remove_thread_lem [] thread topic = refl
remove_thread_lem ((k, c) ∷ m) thread topic =
    ground (arith, remove_thread_lem m thread topic, lookup-erase thread thread c)

-- After `RemoveObserversForThread` the thread has no observer for any topic.
remove_observers_for_thread_lem :
    (s : Service) (thread topic observer : ℕ)
    → is_observing (remove_observers_for_thread s thread) topic thread observer ≡ false
unfolding remove_observers_for_thread Map.lookup
remove_observers_for_thread_lem s thread topic observer =
    rw (remove_thread_lem s.collections thread topic) refl

-- ===== src/Observers.antt =====
-- The observers of common/message_service.cc: MessageService::AddObserver, RemoveObserver and
-- RemoveObserversForThread with ObserverCollection, under `observer_collections_mutex_`.
--
-- Topics, threads and observers are numbers, and a topic is `none` if it is NULL or empty. `started`
-- collects the threads for which `InitThreadEndHook` and `InitThreadMessageQueue` are called.
pub mod Registration
pub mod Tidy
pub mod Adding
pub mod Removing
pub mod Operations
pub mod Effects
mod Tests
use unix_thread_ipc.Prelude.{ℕ, Bool, true, false, Option, none, some, List, [], ◌∷◌, if◌then◌else◌}
use unix_thread_ipc.Prelude.Map
use unix_thread_ipc.Prelude.Map.{Map}

abbrev pub ObserverSet : Type 0
ObserverSet = Map Unit

abbrev pub ThreadObservers : Type 0
ThreadObservers = Map ObserverSet

pub record Service : Type 0 where
  pub collections : Map ThreadObservers
  pub started : List ℕ

abbrev pub new_service : Service
new_service = record { collections = []; started = [] }

-- What a pointer to a map entry reads, with an empty map for NULL.
abbrev pub or_empty {ℓ} : {A : Type ℓ} → Option (List A) → List A
or_empty none = []
or_empty (some l) = l

abbrev pub is_some {ℓ} : {A : Type ℓ} → Option A → Bool
is_some none = false
is_some (some a) = true

abbrev pub is_nothing {ℓ} : {A : Type ℓ} → List A → Bool
is_nothing [] = true
is_nothing (x ∷ l) = false

-- `GetTopicObserverCollection(topic, true)` and `GetThreadObserverSet(self, true)`
unfoldable pub create_set : Service → ℕ → ℕ → Service
create_set s topic self =
    let c = or_empty (Map.lookup topic s.collections) in
    if is_some (Map.lookup self c) then s else record s {
      collections = Map.insert topic (Map.insert self [] c) s.collections;
      started = self ∷ s.started;
    }

-- The set of the observers of a topic on a thread.
abbrev pub set_of : Service → ℕ → ℕ → ObserverSet
set_of s topic thread = or_empty (Map.lookup thread (or_empty (Map.lookup topic s.collections)))

unfoldable pub add_observer : Service → ℕ → ℕ → Option ℕ → Bool × Service
unfolding create_set
add_observer s self observer none = (false, s)
add_observer s self observer (some topic) =
    let s' = create_set s topic self in
    let set = set_of s' topic self in
    let c = or_empty (Map.lookup topic s'.collections) in
    if is_some (Map.lookup observer set) then (false, s') else (
      true,
      record s' {
        collections =
            Map.insert topic (Map.insert self (Map.insert observer tt set) c) s'.collections;
      },
    )

-- `ObserverCollection::Remove`: the collection without the observer, and without its set if that
-- is empty.
unfoldable pub remove_from : ThreadObservers → ℕ → ℕ → Bool × ThreadObservers
remove_from c self observer = elim (Map.lookup self c) [
  | none ↦ (false, c)
  | some set ↦
      if is_some (Map.lookup observer set)
      then (
        true,
        if is_nothing (Map.erase observer set)
            then Map.erase self c
            else Map.insert self (Map.erase observer set) c,
      )
      else (false, c)
]

unfoldable pub remove_observer : Service → ℕ → ℕ → Option ℕ → Bool × Service
unfolding remove_from
remove_observer s self observer none = (false, s)
remove_observer s self observer (some topic) = elim (Map.lookup topic s.collections) [
  | none ↦ (false, s)
  | some c ↦
      let (removed, c') = remove_from c self observer in
      (
        removed,
        if removed
            then record s {
              collections =
                  if is_nothing c'
                  then Map.erase topic s.collections
                  else Map.insert topic c' s.collections;
            }
            else s,
      )
]

-- The loop of `RemoveObserversForThread` over the topics.
unfoldable pub remove_thread : Map ThreadObservers → ℕ → Map ThreadObservers
remove_thread [] thread = []
remove_thread ((topic, c) ∷ rest) thread =
    let rest' = remove_thread rest thread in
    if is_nothing (Map.erase thread c) then rest' else (topic, Map.erase thread c) ∷ rest'

unfoldable pub remove_observers_for_thread : Service → ℕ → Service
unfolding remove_thread
remove_observers_for_thread s thread = record s { collections = remove_thread s.collections thread }

-- ===== src/Observers/Removing.antt =====
-- `RemoveObserver` and `RemoveObserversForThread`, and the maps of the message service.
use unix_thread_ipc.Prelude.{
  ℕ, Bool, true, false, ◌≡◌, Option, none, some, [], ◌∷◌, arith, if◌then◌else◌, Bool-cases,
  Option-cases, inl, inr,
}
use mathlib.Core.Path.{subst}
use unix_thread_ipc.Prelude.Map
use unix_thread_ipc.Prelude.Map.{Map, lookup-insert}
use unix_thread_ipc.Prelude.Ordered.{
  IsOrdered, Above, WhenSome, insert-IsOrdered, erase-IsOrdered, Values-insert, Values-erase,
  lookup-Values,
}
use unix_thread_ipc.Observers.{
  Service, ThreadObservers, ObserverSet, or_empty, is_some, is_nothing, remove_from,
  remove_observer, remove_thread,
}
use unix_thread_ipc.Observers.Tidy.{
  IsTidySet, IsTidyCollection, IsTidy, Loose, collection-Loose, either, TidyMap,
}

-- A map without an entry, or with a new value that is tidy.
kept-TidyMap :
    (topic : ℕ) (c : ThreadObservers) (m : Map ThreadObservers)
    → Loose c
    → TidyMap m
    → TidyMap (if is_nothing c then Map.erase topic m else Map.insert topic c m)
kept-TidyMap topic c m l h = elim (Bool-cases (is_nothing c)) [
  | inl e ↦ rw (e) (erase-IsOrdered topic m h.0, Values-erase IsTidyCollection topic m h.1)
  | inr e ↦
      rw (e)
        (insert-IsOrdered topic c m h.0, Values-insert IsTidyCollection topic c m (l.0, l.1, e) h.1)
]

kept-Loose :
    (self : ℕ) (set : ObserverSet) (c : ThreadObservers)
    → IsOrdered set
    → Loose c
    → Loose (if is_nothing set then Map.erase self c else Map.insert self set c)
kept-Loose self set c o h = elim (Bool-cases (is_nothing set)) [
  | inl e ↦ rw (e) (erase-IsOrdered self c h.0, Values-erase IsTidySet self c h.1)
  | inr e ↦ rw (e) (insert-IsOrdered self set c h.0, Values-insert IsTidySet self set c (o, e) h.1)
]

found-IsTidySet :
    (self : ℕ) (c : ThreadObservers) (set : ObserverSet)
    → Loose c
    → Map.lookup self c ≡ some set
    → IsTidySet set
found-IsTidySet self c set h e = subst (WhenSome IsTidySet) e (lookup-Values IsTidySet self c h.1)

remove_from-Loose :
    (c : ThreadObservers) (self observer : ℕ) → Loose c → Loose (remove_from c self observer).1
unfolding remove_from
remove_from-Loose c self observer h = elim (Option-cases (Map.lookup self c)) [
  | inl e ↦ rw (remove_from, e) h
  | inr (set, e) ↦
      rw (remove_from, e)
        (either {A = Bool × ThreadObservers} (λ r. Loose r.1) (is_some (Map.lookup observer set))
          (
            true,
            if is_nothing (Map.erase observer set)
                then Map.erase self c
                else Map.insert self (Map.erase observer set) c,
          )
          (false, c)
          (kept-Loose self (Map.erase observer set) c
            (erase-IsOrdered observer set (found-IsTidySet self c set h e).0) h)
          h)
]

pub remove_observer-IsTidy :
    (s : Service) (self observer : ℕ) (topic : Option ℕ)
    → IsTidy s
    → IsTidy (remove_observer s self observer topic).1
unfolding remove_observer
remove_observer-IsTidy s self observer none h = h
remove_observer-IsTidy s self observer (some topic) h =
    elim (Option-cases (Map.lookup topic s.collections)) [
      | inl e ↦ rw (remove_observer, e) h
      | inr (c, e) ↦
          rw (remove_observer, e)
            (either IsTidy (remove_from c self observer).0
              (record s {
                collections =
                    if is_nothing (remove_from c self observer).1
                    then Map.erase topic s.collections
                    else Map.insert topic (remove_from c self observer).1 s.collections;
              })
              s
              (kept-TidyMap topic (remove_from c self observer).1 s.collections
                (remove_from-Loose c self observer
                  (subst (λ o. Loose (or_empty o)) e (collection-Loose s topic h)))
                h)
              h)
    ]

erased-IsTidyCollection :
    (thread : ℕ) (c : ThreadObservers)
    → IsTidyCollection c
    → is_nothing (Map.erase thread c) ≡ false
    → IsTidyCollection (Map.erase thread c)
erased-IsTidyCollection thread c h e =
    (erase-IsOrdered thread c h.0, Values-erase IsTidySet thread c h.1, e)

Above-remove_thread :
    (b : ℕ) (m : Map ThreadObservers) (thread : ℕ) → Above b m → Above b (remove_thread m thread)
unfolding remove_thread
Above-remove_thread b [] thread h = tt
Above-remove_thread b ((k, c) ∷ m) thread h = ground (arith, Above-remove_thread b m thread)

pub remove_thread-TidyMap :
    (m : Map ThreadObservers) (thread : ℕ) → TidyMap m → TidyMap (remove_thread m thread)
unfolding remove_thread
remove_thread-TidyMap [] thread h = h
remove_thread-TidyMap ((k, c) ∷ m) thread h =
    let later : TidyMap (remove_thread m thread) = remove_thread-TidyMap m thread (h.0.1, h.1.1) in
    elim (Bool-cases (is_nothing (Map.erase thread c))) [
      | inl e ↦ rw (e) later
      | inr e ↦ rw (e) (
        (Above-remove_thread k m thread h.0.0, later.0),
        (erased-IsTidyCollection thread c h.1.0 e, later.1),
      )
    ]

-- ===== src/Observers/Effects.antt =====
-- Who observes what, after any operation.
use unix_thread_ipc.Prelude.{
  ℕ, Bool, true, false, ◌&&◌, none, some, [], ◌∷◌, ◌≡◌, refl, arith, ◌==◌, if◌then◌else◌,
}
use unix_thread_ipc.Prelude.Map
use unix_thread_ipc.Prelude.Map.{Map, lookup-erase}
use unix_thread_ipc.Prelude.Ordered.{IsOrdered, lookup-Above}
use unix_thread_ipc.Observers.{
  Service, ThreadObservers, is_nothing, or_empty, add_observer, remove_observer, remove_thread,
  remove_observers_for_thread,
}
use unix_thread_ipc.Observers.Registration.{is_observing, add_observer_lem, remove_observer_lem}
use unix_thread_ipc.Observers.Tidy.{IsTidy}
use unix_thread_ipc.Observers.Operations.{Operation, add, remove, end_thread, apply}

lookup-is_nothing : (j : ℕ) (c : ThreadObservers) → is_nothing c ≡ true → Map.lookup j c ≡ none
unfolding Map.lookup
lookup-is_nothing j [] h = refl
lookup-is_nothing j (x ∷ c) h = cc

lookup-remove_thread :
    (m : Map ThreadObservers) (thread topic t : ℕ)
    → IsOrdered m
    → Map.lookup t (or_empty (Map.lookup topic (remove_thread m thread)))
      ≡ (if thread == t then none else Map.lookup t (or_empty (Map.lookup topic m)))
unfolding remove_thread Map.lookup
lookup-remove_thread [] thread topic t h = ground arith
lookup-remove_thread ((k, c) ∷ m) thread topic t h = ground (
  arith,
  lookup-remove_thread m thread topic t h.1,
  lookup-erase thread t c,
  lookup-is_nothing t (Map.erase thread c),
  lookup-Above k topic m,
)

lookup-nil : {V : Type 0} (k : ℕ) → Map.lookup {V = V} k [] ≡ none
unfolding Map.lookup
lookup-nil k = refl

-- Whether the observer is registered behind an operation, by whether it was before.
abbrev pub registered : Operation → ℕ → ℕ → ℕ → Bool → Bool
registered (add self o none) topic thread observer before = before
registered (add self o (some t)) topic thread observer before =
    if (t == topic) && ((self == thread) && (o == observer)) then true else before
registered (remove self o none) topic thread observer before = before
registered (remove self o (some t)) topic thread observer before =
    if (t == topic) && ((self == thread) && (o == observer)) then false else before
registered (end_thread t) topic thread observer before = if t == thread then false else before

-- AddObserver registers the observer for the topic on the calling thread, RemoveObserver takes it
-- out, and RemoveObserversForThread takes out all observers of the thread, for all topics; no other
-- registration changes, and a topic that is NULL or empty changes none.
pub apply_lem :
    (s : Service) (op : Operation) (topic thread observer : ℕ)
    → IsTidy s
    → is_observing (apply s op) topic thread observer
      ≡ registered op topic thread observer (is_observing s topic thread observer)
unfolding apply add_observer remove_observer remove_observers_for_thread
apply_lem s (add self o none) topic thread observer tidy = refl
apply_lem s (add self o (some t)) topic thread observer tidy =
    (add_observer_lem s self o t topic thread observer).1
apply_lem s (remove self o none) topic thread observer tidy = refl
apply_lem s (remove self o (some t)) topic thread observer tidy =
    (remove_observer_lem s self o t topic thread observer).1
apply_lem s (end_thread t) topic thread observer tidy =
    rw (lookup-remove_thread s.collections t topic thread tidy.0)
      (ground (arith, lookup-nil {V = Unit} observer))

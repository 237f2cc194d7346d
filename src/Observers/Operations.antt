-- ===== src/Observers/Operations.antt =====
-- Runs of the operations on observers, in any order and on any threads.
use unix_thread_ipc.Prelude.{ℕ, Option, List, [], ◌∷◌}
use unix_thread_ipc.Observers.{
  Service, new_service, add_observer, remove_observer, remove_observers_for_thread,
}
use unix_thread_ipc.Observers.Tidy.{IsTidy}
use unix_thread_ipc.Observers.Adding.{add_observer-IsTidy}
use unix_thread_ipc.Observers.Removing.{remove_observer-IsTidy, remove_thread-TidyMap}

-- What the program can do with the registrations.
pub data Operation : Type 0 where
  add : ℕ → ℕ → Option ℕ → Operation
  remove : ℕ → ℕ → Option ℕ → Operation
  end_thread : ℕ → Operation

unfoldable pub apply : Service → Operation → Service
apply s (add self observer topic) = (add_observer s self observer topic).1
apply s (remove self observer topic) = (remove_observer s self observer topic).1
apply s (end_thread thread) = remove_observers_for_thread s thread

unfoldable pub apply_all : Service → List Operation → Service
unfolding apply
apply_all s [] = s
apply_all s (o ∷ rest) = apply_all (apply s o) rest

pub apply-IsTidy : (s : Service) (o : Operation) → IsTidy s → IsTidy (apply s o)
unfolding apply remove_observers_for_thread
apply-IsTidy s (add self observer topic) h = add_observer-IsTidy s self observer topic h
apply-IsTidy s (remove self observer topic) h = remove_observer-IsTidy s self observer topic h
apply-IsTidy s (end_thread thread) h = remove_thread-TidyMap s.collections thread h

all-IsTidy : (s : Service) (l : List Operation) → IsTidy s → IsTidy (apply_all s l)
unfolding apply_all
all-IsTidy s [] h = h
all-IsTidy s (o ∷ l) h = all-IsTidy (apply s o) l (apply-IsTidy s o h)

-- Whatever observers are added and removed and whatever threads end, from the start on: each topic
-- has one collection, each thread has one set in it, no collection and no set is empty, and each
-- observer is in a set once.
pub apply_all-IsTidy : (l : List Operation) → IsTidy (apply_all new_service l)
apply_all-IsTidy l = all-IsTidy new_service l (tt, tt)

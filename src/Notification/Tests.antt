-- ===== src/Notification/Tests.antt =====
-- Examples for notifications: observers 9 and 12 on thread 1 for topic 4. When 9 is called, it
-- removes 12 and registers 15, and another thread ends.
use unix_thread_ipc.Prelude.{
  ℕ, ◌+◌, Bool, All, some, List, [], ◌∷◌, true, false, ◌≡◌, refl, ◌==◌, if◌then◌else◌, map,
}
use unix_thread_ipc.Prelude.Map
use unix_thread_ipc.Prelude.Int.{pos}
use unix_thread_ipc.ThreadQueue.{new_queue}
use unix_thread_ipc.MessageQueue.{new_process}
use unix_thread_ipc.Observers.{
  add_observer, remove_observer, remove_observers_for_thread, new_service, is_some, is_nothing,
  set_of,
}
use unix_thread_ipc.Observers.Tidy.{IsTidy}
use unix_thread_ipc.Observers.Operations.{
  Operation, add, remove, end_thread, apply_all, apply_all-IsTidy,
}
use unix_thread_ipc.Notification.{
  Shared, Host, Heap, perform_all, notify_observers_impl, handle_thread_message,
}
use unix_thread_ipc.Notification.Posting.{notified, notify_observers_impl_lem}
use unix_thread_ipc.Notification.Calls.{AreCalls, handle_thread_message-AreCalls}
use unix_thread_ipc.Notification.Undisturbed.{Keeps, handle_thread_message-calls}

abbrev address : ℕ → ℕ
address n = n + 100

abbrev empty_heap : Heap
empty_heap = record {
  service = new_service;
  collection_at = λ t. 0;
  set_at = λ t thread. 0;
  allocations = 0;
}

abbrev registrations : List Operation
registrations = add 1 9 (some 4) ∷ add 1 12 (some 4) ∷ add 2 9 (some 4) ∷ []

abbrev heap : Heap
heap = perform_all address empty_heap registrations

abbrev on_notify : ℕ → Heap → List Operation
on_notify o h = if o == 9 then remove 1 12 (some 4) ∷ add 1 15 (some 4) ∷ end_thread 2 ∷ [] else []

abbrev shared : Shared
shared = record { topic = 4; content = 77 }

called : map (λ c. c.0) (handle_thread_message address on_notify 1 heap shared).0 ≡ 9 ∷ []
unfolding handle_thread_message perform_all Map.lookup Map.insert Map.erase add_observer
    remove_observer remove_observers_for_thread
called = refl

-- The set was deleted and made anew at another address, so the loop ends.
abbrev renewing : ℕ → Heap → List Operation
renewing o h =
    remove 1 9 (some 4) ∷ remove 1 12 (some 4) ∷ add 1 9 (some 4) ∷ add 1 12 (some 4) ∷ []

renewed : map (λ c. c.0) (handle_thread_message address renewing 1 heap shared).0 ≡ 9 ∷ []
unfolding handle_thread_message perform_all Map.lookup Map.insert Map.erase add_observer
    remove_observer remove_observers_for_thread
renewed = refl

apply_all-IsTidy_example : IsTidy (apply_all new_service registrations)
apply_all-IsTidy_example = apply_all-IsTidy registrations

heap-IsTidy : IsTidy heap.service
unfolding perform_all apply_all
heap-IsTidy = apply_all-IsTidy registrations

handle_thread_message-AreCalls_example :
    AreCalls address on_notify 4 1 heap 9 (handle_thread_message address on_notify 1 heap shared).0
handle_thread_message-AreCalls_example =
    handle_thread_message-AreCalls address on_notify 1 heap shared 9 heap-IsTidy

keeps-if :
    (c : Bool)
    → All
        (Keeps 4 1 9)
        (if c then remove 1 12 (some 4) ∷ add 1 15 (some 4) ∷ end_thread 2 ∷ [] else [])
keeps-if true = (refl, (tt, (refl, tt)))
keeps-if false = tt

abbrev keeps_nine : (o' : ℕ) (h : Heap) → All (Keeps 4 1 9) (on_notify o' h)
keeps_nine o' h = keeps-if (o' == 9)

handle_thread_message-calls_example :
    is_some (Map.lookup 9 (handle_thread_message address on_notify 1 heap shared).0) ≡ true
unfolding perform_all Map.lookup Map.insert add_observer
handle_thread_message-calls_example =
    handle_thread_message-calls address on_notify 1 heap shared 9 keeps_nine heap-IsTidy refl

-- Thread 1 has a queue.
abbrev host : Host ℕ
host = record {
  messages = record (new_process 1 (pos 0)) { message_queues = (1, new_queue 1) ∷ [] };
  service = heap.service;
  broadcast = some [];
}

notify_observers_impl_lem_example :
    (Map.lookup 1 (notify_observers_impl host shared true).messages.message_queues ≡ (
      if is_nothing (set_of heap.service 4 1)
      then some (new_queue 1)
      else notified shared (some (new_queue 1))))
    × ((notify_observers_impl host shared true).service ≡ heap.service)
    × ((notify_observers_impl host shared true).broadcast ≡ some (shared ∷ []))
unfolding Map.lookup
notify_observers_impl_lem_example = notify_observers_impl_lem host shared true 1 heap-IsTidy

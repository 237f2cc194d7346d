-- ===== src/Notification.antt =====
-- Notifications of common/message_service.cc: NotifyObserversImpl with PostThreadNotifications and
-- the IPC handler, and HandleThreadMessage with ProcessThreadNotification.
--
-- `Shared` stands for SharedNotificationData, with a topic that is not empty. The instance is a
-- `Host`: the thread message queue, the registrations of Observers.antt and, if there is an IPC
-- queue, what `SendToAll` was called with.
--
-- ProcessThreadNotification compares pointers to collections and sets, and unlocks the mutex while
-- it calls an observer. So a `Heap` has the address of each collection and set. Where the allocator
-- puts things is the parameter `address`, which may give out an address again. What happens while
-- the mutex is unlocked, in the callback or on other threads, is the parameter `on_notify`: the
-- operations on observers, in order, for each observer and each state.
pub mod Posting
pub mod Calls
pub mod Undisturbed
mod Tests
use unix_thread_ipc.Prelude.{
  ℕ, ◌+◌, Bool, true, false, ◌&&◌, not, Option, none, some, List, [], ◌∷◌, ◌++◌, ◌==◌,
  if◌then◌else◌,
}
use unix_thread_ipc.Prelude.Map
use unix_thread_ipc.MessageQueue.{Process, send}
use unix_thread_ipc.Observers.{Service, ThreadObservers, ObserverSet, or_empty, is_some, set_of}
use unix_thread_ipc.Observers.Registration.{is_observing}
use unix_thread_ipc.Observers.Operations.{Operation, add, remove, end_thread, apply}

-- `kMessageService_Notify`
abbrev pub message_service_notify : ℕ
message_service_notify = 1

pub record Shared : Type 0 where
  pub topic : ℕ
  pub content : ℕ

pub record Host (H : Type 0) : Type 0 where
  pub messages : Process Shared H
  pub service : Service
  pub broadcast : Option (List Shared)

abbrev pub send_to_all : Option (List Shared) → Shared → Option (List Shared)
send_to_all none shared = none
send_to_all (some sent) shared = some (sent ++ (shared ∷ []))

module _ {H : Type 0} where
  -- The loop of `PostThreadNotifications` over the threads of a collection.
  unfoldable pub post : Process Shared H → ThreadObservers → Shared → Process Shared H
  post p [] shared = p
  post p ((thread, set) ∷ rest) shared =
      post (send p thread message_service_notify (some shared)).1 rest shared

  unfoldable pub notify_observers_impl : Host H → Shared → Bool → Host H
  unfolding post
  notify_observers_impl h shared send_ipc =
      let h' = if send_ipc then record h { broadcast = send_to_all h.broadcast shared } else h in
      elim (Map.lookup shared.topic h.service.collections) [
        | none ↦ h'
        | some c ↦ record h' { messages = post h.messages c shared }
      ]

  unfoldable pub notify_observers : Host H → ℕ → ℕ → Host H
  unfolding notify_observers_impl
  notify_observers h topic content =
      notify_observers_impl h (record { topic = topic; content = content }) true

  unfoldable pub handle_ipc_message : Host H → Shared → Host H
  unfolding notify_observers_impl
  handle_ipc_message h shared = notify_observers_impl h shared false

-- The registrations, with the addresses of the collections and sets that exist.
pub record Heap : Type 0 where
  pub service : Service
  pub collection_at : ℕ → ℕ
  pub set_at : ℕ → ℕ → ℕ
  pub allocations : ℕ

-- What `GetTopicObserverCollection(topic, false)` and `GetThreadObserverSet(thread, false)` point to.
unfoldable pub collection_address : Heap → ℕ → Option ℕ
collection_address h topic =
    if is_some (Map.lookup topic h.service.collections) then some (h.collection_at topic) else none

unfoldable pub set_address : Heap → ℕ → ℕ → Option ℕ
set_address h topic thread =
    if is_some (Map.lookup thread (or_empty (Map.lookup topic h.service.collections)))
    then some (h.set_at topic thread)
    else none

abbrev pub is_at : Option ℕ → ℕ → Bool
is_at none a = false
is_at (some b) a = b == a

-- `AddObserver` puts a collection or set that is missing at the next address.
unfoldable pub allocate : (ℕ → ℕ) → Heap → ℕ → ℕ → Heap
unfolding collection_address set_address
allocate address h self topic =
    let fresh = address h.allocations in
    let fresh_set = address (h.allocations + 1) in
    record h {
      collection_at = λ t.
          if t == topic && not (is_some (collection_address h topic))
          then fresh
          else h.collection_at t;
      set_at = λ t thread.
          if t == topic && (thread == self && not (is_some (set_address h topic self)))
          then fresh_set
          else h.set_at t thread;
      allocations = h.allocations + 2;
    }

unfoldable pub perform : (ℕ → ℕ) → Heap → Operation → Heap
unfolding allocate apply
perform address h (add self observer none) = h
perform address h (add self observer (some topic)) = record (allocate address h self topic) {
  service = apply h.service (add self observer (some topic));
}
perform address h (remove self observer topic) = record h {
  service = apply h.service (remove self observer topic);
}
perform address h (end_thread thread) = record h { service = apply h.service (end_thread thread) }

unfoldable pub perform_all : (ℕ → ℕ) → Heap → List Operation → Heap
unfolding perform
perform_all address h [] = h
perform_all address h (o ∷ rest) = perform_all address (perform address h o) rest

module _ (address : ℕ → ℕ) (on_notify : ℕ → Heap → List Operation) (topic self : ℕ) where
  -- The loop over the copy of the set, which `ours` and `set` had the addresses of at first: the
  -- calls of `OnNotify`, each with the state before it, and the state at the end.
  unfoldable pub dispatch : ℕ → ℕ → Heap → ObserverSet → List (ℕ × Heap) × Heap
  unfolding perform_all
  dispatch ours set h [] = ([], h)
  dispatch ours set h ((observer, u) ∷ rest) =
      let here = is_observing h.service topic self observer in
      let (calls, h') =
        dispatch ours set (if here then perform_all address h (on_notify observer h) else h) rest in
      if is_at (collection_address h topic) ours && is_at (set_address h topic self) set
      then (if here then (observer, h) ∷ calls else calls, h')
      else ([], h)

  unfoldable pub process_thread_notification : Heap → List (ℕ × Heap) × Heap
  unfolding dispatch
  process_thread_notification h =
      if is_some (set_address h topic self)
      then dispatch (h.collection_at topic) (h.set_at topic self) h (set_of h.service topic self)
      else ([], h)

-- `HandleThreadMessage` on the thread `self`.
unfoldable pub handle_thread_message :
    (ℕ → ℕ) → (ℕ → Heap → List Operation) → ℕ → Heap → Shared → List (ℕ × Heap) × Heap
unfolding process_thread_notification
handle_thread_message address on_notify self h shared =
    if is_some (collection_address h shared.topic)
    then process_thread_notification address on_notify shared.topic self h
    else ([], h)

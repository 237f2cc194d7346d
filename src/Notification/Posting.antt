-- ===== src/Notification/Posting.antt =====
-- What `NotifyObserversImpl` sends.
use unix_thread_ipc.Prelude.{
  ℕ, Bool, not, Option, none, some, [], ◌∷◌, ◌≡◌, refl, arith, if◌then◌else◌,
}
use unix_thread_ipc.Prelude.Map
use unix_thread_ipc.Prelude.Ordered.{IsOrdered, WhenSome, lookup-Values, lookup-Above}
use unix_thread_ipc.ThreadQueue.{Queue}
use unix_thread_ipc.MessageQueue.{Process, send}
use unix_thread_ipc.MessageQueue.Sending.{after_send, send_lem}
use unix_thread_ipc.Observers.{
  Service, ThreadObservers, ObserverSet, or_empty, is_some, is_nothing, set_of,
}
use unix_thread_ipc.Observers.Tidy.{IsTidySet, IsTidy, collection-Loose}
use unix_thread_ipc.Notification.{
  Shared, Host, message_service_notify, post, send_to_all, notify_observers_impl,
}

-- The queue of a thread with a new notification in it.
abbrev pub notified : Shared → Option (Queue Shared) → Option (Queue Shared)
notified shared q = after_send message_service_notify (some shared) q

found-has_set :
    (j : ℕ) (o : Option ObserverSet)
    → WhenSome IsTidySet o
    → is_some o ≡ not (is_nothing (or_empty o))
found-has_set j none h = refl
found-has_set j (some set) h = rw (h.1)

-- With no set left empty, a thread has a set exactly if it has an observer.
has_set-set_of :
    (s : Service) (topic j : ℕ)
    → IsTidy s
    → is_some (Map.lookup j (or_empty (Map.lookup topic s.collections)))
      ≡ not (is_nothing (set_of s topic j))
has_set-set_of s topic j h =
    let c = or_empty (Map.lookup topic s.collections) in
    found-has_set j (Map.lookup j c) (lookup-Values IsTidySet j c (collection-Loose s topic h).1)

module _ {H : Type 0} where
  post_lem :
      (p : Process Shared H) (c : ThreadObservers) (shared : Shared) (j : ℕ)
      → IsOrdered c
      → Map.lookup j (post p c shared).message_queues ≡ (
          if is_some (Map.lookup j c)
          then notified shared (Map.lookup j p.message_queues)
          else Map.lookup j p.message_queues)
  unfolding post Map.lookup
  post_lem p [] shared j h = refl
  post_lem p ((t, set) ∷ rest) shared j h = ground (
    arith,
    post_lem (send p t message_service_notify (some shared)).1 rest shared j h.1,
    (send_lem p t message_service_notify (some shared) j).1,
    lookup-Above t j rest,
  )

  -- No thread is lost or notified when there is no collection.
  notify_observers_impl_eq :
      (h : Host H) (shared : Shared) (send_ipc : Bool)
      → notify_observers_impl h shared send_ipc ≡ record h {
        broadcast = if send_ipc then send_to_all h.broadcast shared else h.broadcast;
        messages =
            post h.messages (or_empty (Map.lookup shared.topic h.service.collections)) shared;
      }
  unfolding notify_observers_impl post
  notify_observers_impl_eq h shared send_ipc = ground arith

  -- `NotifyObserversImpl` puts one notification last into the queue of each thread that has an
  -- observer of the topic and has a queue, and leaves the queue of any other thread as it was. The
  -- registrations stay, and the other processes are told exactly if `send_ipc` is set, so a
  -- notification from another process is not sent on.
  pub notify_observers_impl_lem :
      (h : Host H) (shared : Shared) (send_ipc : Bool) (j : ℕ)
      → IsTidy h.service
      → let h' = notify_observers_impl h shared send_ipc in
        (Map.lookup j h'.messages.message_queues ≡ (
          if is_nothing (set_of h.service shared.topic j)
          then Map.lookup j h.messages.message_queues
          else notified shared (Map.lookup j h.messages.message_queues)))
        × (h'.service ≡ h.service)
        × (h'.broadcast ≡ (if send_ipc then send_to_all h.broadcast shared else h.broadcast))
  notify_observers_impl_lem h shared send_ipc j tidy =
      let c = or_empty (Map.lookup shared.topic h.service.collections) in
      rw (notify_observers_impl_eq h shared send_ipc) (
        rw
            (
              post_lem h.messages c shared j (collection-Loose h.service shared.topic tidy).0,
              has_set-set_of h.service shared.topic j tidy,
            )
            (ground arith),
        refl,
        refl,
      )

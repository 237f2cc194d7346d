-- ===== src/Notification/Undisturbed.antt =====
-- An observer that nothing takes away during a notification.
use unix_thread_ipc.Prelude.{
  ℕ, true, false, ◌&&◌, none, some, List, [], ◌∷◌, ◌≡◌, refl, sym, ◌∙◌, arith, ◌==◌, if◌then◌else◌,
  Bool-cases, ==_iff, inl, inr, All,
}
use mathlib.Core.Path.{subst}
use unix_thread_ipc.Prelude.Map
use unix_thread_ipc.Prelude.Map.{Map, lookup-erase}
use unix_thread_ipc.Observers.{Service, ObserverSet, is_some, set_of}
use unix_thread_ipc.Observers.Registration.{is_observing}
use unix_thread_ipc.Observers.Tidy.{IsTidy}
use unix_thread_ipc.Observers.Operations.{Operation, add, remove, end_thread, apply, apply-IsTidy}
use unix_thread_ipc.Observers.Effects.{apply_lem}
use unix_thread_ipc.Notification.{
  Shared, Heap, collection_address, set_address, is_at, allocate, perform, perform_all, dispatch,
  process_thread_notification, handle_thread_message,
}
use unix_thread_ipc.Notification.Calls.{next, dispatch-cases}

-- The operation does not take the observer away.
abbrev pub Keeps : ℕ → ℕ → ℕ → Operation → Type 0
Keeps topic self o (add thread o' topic') = Unit
Keeps topic self o (remove thread o' none) = Unit
Keeps topic self o (remove thread o' (some topic')) =
    (topic' == topic && (thread == self && o' == o)) ≡ false
Keeps topic self o (end_thread thread) = (thread == self) ≡ false

apply-Keeps :
    (s : Service) (topic self o : ℕ) (op : Operation)
    → IsTidy s
    → Keeps topic self o op
    → is_observing s topic self o ≡ true
    → is_observing (apply s op) topic self o ≡ true
apply-Keeps s topic self o (add thread o' none) tidy k h =
    apply_lem s (add thread o' none) topic self o tidy ∙ h
apply-Keeps s topic self o (add thread o' (some topic')) tidy k h =
    ground (arith, apply_lem s (add thread o' (some topic')) topic self o tidy)
apply-Keeps s topic self o (remove thread o' none) tidy k h =
    apply_lem s (remove thread o' none) topic self o tidy ∙ h
apply-Keeps s topic self o (remove thread o' (some topic')) tidy k h =
    ground (arith, apply_lem s (remove thread o' (some topic')) topic self o tidy)
apply-Keeps s topic self o (end_thread thread) tidy k h =
    ground (arith, apply_lem s (end_thread thread) topic self o tidy)

-- The state during the loop: the observer is registered, and the collection and the set are the
-- ones that the loop started with.
abbrev IsSteady : ℕ → ℕ → ℕ → ℕ → ℕ → Heap → Type 0
IsSteady topic self o ours set h =
    IsTidy h.service
    × (is_observing h.service topic self o ≡ true)
    × (h.collection_at topic ≡ ours)
    × (h.set_at topic self ≡ set)

lookup-nil : {V : Type 0} (k : ℕ) → Map.lookup {V = V} k [] ≡ none
unfolding Map.lookup
lookup-nil k = refl

observing-address :
    (h : Heap) (topic self o : ℕ)
    → is_observing h.service topic self o ≡ true
    → (collection_address h topic ≡ some (h.collection_at topic))
      × (set_address h topic self ≡ some (h.set_at topic self))
unfolding collection_address set_address Map.lookup
observing-address h topic self o e = (
  ground (arith, lookup-nil {V = ObserverSet} self, lookup-nil {V = Unit} o),
  ground (arith, lookup-nil {V = Unit} o),
)

perform-IsSteady :
    (address : ℕ → ℕ) (topic self o ours set : ℕ) (h : Heap) (op : Operation)
    → Keeps topic self o op
    → IsSteady topic self o ours set h
    → IsSteady topic self o ours set (perform address h op)
unfolding perform allocate
perform-IsSteady address topic self o ours set h (add t o' none) k s = s
perform-IsSteady address topic self o ours set h (add t o' (some topic')) k s =
    let e = observing-address h topic self o s.1 in
    (
      apply-IsTidy h.service (add t o' (some topic')) s.0,
      apply-Keeps h.service topic self o (add t o' (some topic')) s.0 k s.1,
      ground (arith, e, s),
      ground (arith, e, s),
    )
perform-IsSteady address topic self o ours set h (remove t o' topic') k s = (
  apply-IsTidy h.service (remove t o' topic') s.0,
  apply-Keeps h.service topic self o (remove t o' topic') s.0 k s.1,
  s.2,
  s.3,
)
perform-IsSteady address topic self o ours set h (end_thread t) k s = (
  apply-IsTidy h.service (end_thread t) s.0,
  apply-Keeps h.service topic self o (end_thread t) s.0 k s.1,
  s.2,
  s.3,
)

perform_all-IsSteady :
    (address : ℕ → ℕ) (topic self o ours set : ℕ) (h : Heap) (l : List Operation)
    → All (Keeps topic self o) l
    → IsSteady topic self o ours set h
    → IsSteady topic self o ours set (perform_all address h l)
unfolding perform_all
perform_all-IsSteady address topic self o ours set h [] k s = s
perform_all-IsSteady address topic self o ours set h (op ∷ l) k s =
    perform_all-IsSteady address topic self o ours set (perform address h op) l k.1
      (perform-IsSteady address topic self o ours set h op k.0 s)

module _ (address : ℕ → ℕ) (on_notify : ℕ → Heap → List Operation) (topic self o : ℕ)
    (keeps : (o' : ℕ) (h : Heap) → All (Keeps topic self o) (on_notify o' h)) where
  next-IsSteady :
      (ours set : ℕ) (h : Heap) (o' : ℕ)
      → IsSteady topic self o ours set h
      → IsSteady topic self o ours set (next address on_notify topic self h o')
  next-IsSteady ours set h o' s = elim (Bool-cases (is_observing h.service topic self o')) [
    | inl e ↦
        rw (e)
          (perform_all-IsSteady address topic self o ours set h (on_notify o' h) (keeps o' h) s)
    | inr e ↦ rw (e) s
  ]

  IsSteady-continues :
      (ours set : ℕ) (h : Heap)
      → IsSteady topic self o ours set h
      → (is_at (collection_address h topic) ours && is_at (set_address h topic self) set) ≡ true
  IsSteady-continues ours set h s =
      let e = observing-address h topic self o s.1 in rw (e.0, e.1) (ground (arith, s.2, s.3))

  is_some-lookup-dispatch :
      (ours set : ℕ) (h : Heap) (copy : ObserverSet)
      → IsSteady topic self o ours set h
      → is_some (Map.lookup o copy) ≡ true
      → is_some (Map.lookup o (dispatch address on_notify topic self ours set h copy).0) ≡ true
  unfolding dispatch Map.lookup
  is_some-lookup-dispatch ours set h [] s e = e
  is_some-lookup-dispatch ours set h ((o', u) ∷ rest) s e =
      let go = IsSteady-continues ours set h s in
      let s' = next-IsSteady ours set h o' s in
      let later =
        is_some-lookup-dispatch ours set (next address on_notify topic self h o') rest s' in
      let P : List (ℕ × Heap) → Type 0 = λ l. is_some (Map.lookup o l) ≡ true in
      elim (Bool-cases (o' == o)) [
        | inl same ↦
            let here : is_observing h.service topic self o' ≡ true =
              subst (λ x. is_observing h.service topic self x ≡ true) (sym ((==_iff o' o).0 same))
                s.1 in
            dispatch-cases address on_notify topic self P ours set o' u h rest
              (λ f. absurd (ground (arith, go, f))) (λ f. rw (same) refl)
              (λ f. absurd (ground (arith, here, f)))
        | inr other ↦
            let later' =
              later
                (subst (λ b. is_some (if b then some u else Map.lookup o rest) ≡ true) other e) in
            dispatch-cases address on_notify topic self P ours set o' u h rest
              (λ f. absurd (ground (arith, go, f))) (λ f. rw (other) later') (λ f. later')
      ]

-- Whatever else the callbacks and the other threads do, and wherever collections and sets are
-- allocated, an observer that is registered for the topic on this thread when the notification
-- message is taken up, and that none of them takes away, is called.
pub handle_thread_message-calls :
    (address : ℕ → ℕ) (on_notify : ℕ → Heap → List Operation) (self : ℕ) (h : Heap)
    (shared : Shared) (o : ℕ)
    (keeps : (o' : ℕ) (h : Heap) → All (Keeps shared.topic self o) (on_notify o' h))
    → IsTidy h.service
    → is_observing h.service shared.topic self o ≡ true
    → is_some (Map.lookup o (handle_thread_message address on_notify self h shared).0) ≡ true
unfolding handle_thread_message process_thread_notification
handle_thread_message-calls address on_notify self h shared o keeps tidy e =
    let topic = shared.topic in
    let at = observing-address h topic self o e in
    rw (handle_thread_message, process_thread_notification, at.0, at.1)
      (is_some-lookup-dispatch address on_notify topic self o keeps (h.collection_at topic)
        (h.set_at topic self) h (set_of h.service topic self) (tidy, e, refl, refl) e)

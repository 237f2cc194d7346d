-- ===== src/Notification/Calls.antt =====
-- Which observers ProcessThreadNotification calls, and in which states.
use unix_thread_ipc.Prelude.{
  ℕ, Bool, true, false, ◌&&◌, Option, none, some, List, [], ◌∷◌, ◌≡◌, refl, arith, ◌==◌,
  if◌then◌else◌, ==_iff, Bool-cases, inl, inr,
}
use mathlib.Core.Path.{subst}
use unix_thread_ipc.Prelude.Map
use unix_thread_ipc.Prelude.Ordered.{IsOrdered, Above, WhenSome}
use unix_thread_ipc.Observers.{ObserverSet, is_some, set_of}
use unix_thread_ipc.Observers.Registration.{is_observing}
use unix_thread_ipc.Observers.Tidy.{IsTidy, set_of-IsOrdered}
use unix_thread_ipc.Observers.Operations.{Operation}
use unix_thread_ipc.Notification.{
  Shared, Heap, collection_address, set_address, is_at, perform_all, dispatch,
  process_thread_notification, handle_thread_message,
}

-- The end of a round of `dispatch`.
abbrev outcome : Bool → Bool → ℕ × Heap → List (ℕ × Heap) × Heap → Heap → List (ℕ × Heap) × Heap
outcome continued here call (calls, h') h =
    if continued then (if here then call ∷ calls else calls, h') else ([], h)

outcome-cases :
    (P : List (ℕ × Heap) → Type 0) (continued here : Bool) (call : ℕ × Heap)
    (later : List (ℕ × Heap)) (h h' : Heap)
    → (continued ≡ false → P [])
    → (here ≡ true → P (call ∷ later))
    → (here ≡ false → P later)
    → P (outcome continued here call (later, h') h).0
outcome-cases P true true call later h h' p q r = q refl
outcome-cases P true false call later h h' p q r = r refl
outcome-cases P false here call later h h' p q r = p refl

module _ (address : ℕ → ℕ) (on_notify : ℕ → Heap → List Operation) (topic self : ℕ) where
  -- The state in which the rest of the copy is worked off.
  abbrev pub next : Heap → ℕ → Heap
  next h observer =
      if is_observing h.service topic self observer
      then perform_all address h (on_notify observer h)
      else h

  -- One round of the loop: it ends, or calls the observer, or passes it by.
  pub dispatch-cases :
      (P : List (ℕ × Heap) → Type 0) (ours set observer : ℕ) (u : Unit) (h : Heap)
      (rest : ObserverSet)
      → let later = (dispatch address on_notify topic self ours set (next h observer) rest).0 in
        let continued =
          is_at (collection_address h topic) ours && is_at (set_address h topic self) set in
        (continued ≡ false → P [])
        → (is_observing h.service topic self observer ≡ true → P ((observer, h) ∷ later))
        → (is_observing h.service topic self observer ≡ false → P later)
        → P (dispatch address on_notify topic self ours set h ((observer, u) ∷ rest)).0
  unfolding dispatch
  dispatch-cases P ours set observer u h rest p q r =
      let later = dispatch address on_notify topic self ours set (next h observer) rest in
      outcome-cases P
        (is_at (collection_address h topic) ours && is_at (set_address h topic self) set)
        (is_observing h.service topic self observer) (observer, h) later.0 h later.1 p q r

  Above-dispatch :
      (b ours set : ℕ) (h : Heap) (copy : ObserverSet)
      → Above b copy
      → Above b (dispatch address on_notify topic self ours set h copy).0
  unfolding dispatch
  Above-dispatch b ours set h [] a = tt
  Above-dispatch b ours set h ((o, u) ∷ rest) a =
      let later = Above-dispatch b ours set (next h o) rest a.1 in
      dispatch-cases (Above b) ours set o u h rest (λ f. tt) (λ f. (a.0, later)) (λ f. later)

  dispatch-IsOrdered :
      (ours set : ℕ) (h : Heap) (copy : ObserverSet)
      → IsOrdered copy
      → IsOrdered (dispatch address on_notify topic self ours set h copy).0
  unfolding dispatch
  dispatch-IsOrdered ours set h [] a = tt
  dispatch-IsOrdered ours set h ((o, u) ∷ rest) a =
      let later = dispatch-IsOrdered ours set (next h o) rest a.1 in
      dispatch-cases IsOrdered ours set o u h rest (λ f. tt)
        (λ f. (Above-dispatch o ours set (next h o) rest a.0, later)) (λ f. later)

  -- An observer was registered in the state in which it was called.
  abbrev pub WasObserving : ℕ → List (ℕ × Heap) → Type 0
  WasObserving o calls =
      WhenSome (λ h. is_observing h.service topic self o ≡ true) (Map.lookup o calls)

  first-WasObserving :
      (o observer : ℕ) (h : Heap) (calls : List (ℕ × Heap))
      → is_observing h.service topic self observer ≡ true
      → WasObserving o calls
      → WasObserving o ((observer, h) ∷ calls)
  unfolding Map.lookup
  first-WasObserving o observer h calls f w = elim (Bool-cases (observer == o)) [
    | inl e ↦
        rw (e) (subst (λ x. is_observing h.service topic self x ≡ true) ((==_iff observer o).0 e) f)
    | inr e ↦ rw (e) w
  ]

  dispatch-WasObserving :
      (o ours set : ℕ) (h : Heap) (copy : ObserverSet)
      → WasObserving o (dispatch address on_notify topic self ours set h copy).0
  unfolding dispatch Map.lookup
  dispatch-WasObserving o ours set h [] = tt
  dispatch-WasObserving o ours set h ((observer, u) ∷ rest) =
      let later = dispatch-WasObserving o ours set (next h observer) rest in
      let calls = (dispatch address on_notify topic self ours set (next h observer) rest).0 in
      dispatch-cases (WasObserving o) ours set observer u h rest (λ f. tt)
        (λ f. first-WasObserving o observer h calls f later) (λ f. later)

  -- An observer that is not in the copy is not called.
  lookup-dispatch :
      (o ours set : ℕ) (h : Heap) (copy : ObserverSet)
      → is_some (Map.lookup o copy) ≡ false
      → Map.lookup o (dispatch address on_notify topic self ours set h copy).0 ≡ none
  unfolding dispatch Map.lookup
  lookup-dispatch o ours set h [] a = refl
  lookup-dispatch o ours set h ((observer, u) ∷ rest) a =
      let later = lookup-dispatch o ours set (next h observer) rest in
      elim (Bool-cases (observer == o)) [
        | inl e ↦ absurd (ground (arith, e, a))
        | inr e ↦
            let a' : is_some (Map.lookup o rest) ≡ false = ground (arith, e, a) in
            dispatch-cases (λ l. Map.lookup o l ≡ none) ours set observer u h rest (λ f. refl)
              (λ f. rw (e) (later a')) (λ f. later a')
      ]

  -- What holds of the calls of one notification, for an observer: each was made in its place, and
  -- the observer was registered then and in the state `h`.
  abbrev pub AreCalls : Heap → ℕ → List (ℕ × Heap) → Type 0
  AreCalls h o calls =
      IsOrdered calls
      × WhenSome
          (λ h'.
            (is_observing h'.service topic self o ≡ true)
            × (is_observing h.service topic self o ≡ true))
          (Map.lookup o calls)

  calls-AreCalls :
      (h : Heap) (o : ℕ) (out : Option Heap)
      → (is_observing h.service topic self o ≡ false → out ≡ none)
      → WhenSome (λ h'. is_observing h'.service topic self o ≡ true) out
      → WhenSome
          (λ h'.
            (is_observing h'.service topic self o ≡ true)
            × (is_observing h.service topic self o ≡ true))
          out
  calls-AreCalls h o none f w = tt
  calls-AreCalls h o (some h') f w = elim (Bool-cases (is_observing h.service topic self o)) [
    | inl e ↦ (w, e)
    | inr e ↦ absurd (ground (arith, f e))
  ]

  process-AreCalls :
      (h : Heap) (o : ℕ)
      → IsTidy h.service
      → AreCalls h o (process_thread_notification address on_notify topic self h).0
  unfolding process_thread_notification Map.lookup
  process-AreCalls h o tidy =
      let copy = set_of h.service topic self in
      let ours = h.collection_at topic in
      let set = h.set_at topic self in
      elim (Bool-cases (is_some (set_address h topic self))) [
        | inl e ↦
            rw (process_thread_notification, e)
              (
                dispatch-IsOrdered ours set h copy (set_of-IsOrdered h.service topic self tidy),
                calls-AreCalls h o
                    (Map.lookup o (dispatch address on_notify topic self ours set h copy).0)
                    (lookup-dispatch o ours set h copy) (dispatch-WasObserving o ours set h copy),
              )
        | inr e ↦ rw (process_thread_notification, e) (tt, tt)
      ]

-- Whatever the callbacks and the other threads do, and wherever collections and sets are allocated,
-- one notification message calls each observer at most once, an observer only if it was
-- registered for the topic on this thread when the message was taken up, and only if it is
-- registered still (or again) when the call is made.
pub handle_thread_message-AreCalls :
    (address : ℕ → ℕ) (on_notify : ℕ → Heap → List Operation) (self : ℕ) (h : Heap)
    (shared : Shared) (observer : ℕ)
    → IsTidy h.service
    → AreCalls address on_notify shared.topic self h observer
        (handle_thread_message address on_notify self h shared).0
unfolding handle_thread_message Map.lookup
handle_thread_message-AreCalls address on_notify self h shared observer tidy =
    elim (Bool-cases (is_some (collection_address h shared.topic))) [
      | inl e ↦
          rw (handle_thread_message, e)
            (process-AreCalls address on_notify shared.topic self h observer tidy)
      | inr e ↦ rw (handle_thread_message, e) (tt, tt)
    ]

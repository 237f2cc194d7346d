-- ===== src/Timers/Kept.antt =====
-- The set of timers against the timers that exist.
use unix_thread_ipc.Prelude.{
  ℕ, ◌≡◌, ◌≢◌, refl, sym, ap, ◌∙◌, none, some, List, [], ◌∷◌, All, arith, if◌then◌else◌, ==_of_ne,
  ==_of_eq,
}
use unix_thread_ipc.Prelude.Map
use unix_thread_ipc.Prelude.Map.{Map, lookup-insert, lookup-erase}
use unix_thread_ipc.Timers.{Timer, Timers, deadline_or, deadline_of, set_insert, set_erase}
use unix_thread_ipc.Timers.Order.{
  IsSorted, set_insert-All, set_erase-All, set_insert-IsSorted, set_erase-IsSorted, set_erase-gone,
  IsSorted-cong,
}

abbrev pub IsLive : Map Timer → ℕ → Type 0
IsLive heap p = Map.lookup p heap ≢ none

-- The set is in order and has only timers that exist.
abbrev pub IsKept : Map Timer → List ℕ → Type 0
IsKept heap queue = IsSorted (deadline_of heap) queue × All (IsLive heap) queue

abbrev pub IsValid : Timers → Type 0
IsValid s = IsKept s.heap s.queue

-- Two heaps with the same timers at the addresses of `l`.
abbrev pub Agree : List ℕ → Map Timer → Map Timer → Type 0
Agree l heap heap' = All (λ x. Map.lookup x heap ≡ Map.lookup x heap') l

pub Agree-IsLive :
    (l : List ℕ) (a b : Map Timer) → Agree l a b → All (IsLive a) l → All (IsLive b) l
Agree-IsLive [] a b same live = tt
Agree-IsLive (x ∷ l) a b (e, same) (h, live) =
    ((λ dead. h (e ∙ dead)), Agree-IsLive l a b same live)

Agree-deadline_of :
    (l : List ℕ) (a b : Map Timer) → Agree l a b → All (λ x. deadline_of a x ≡ deadline_of b x) l
Agree-deadline_of [] a b same = tt
Agree-deadline_of (x ∷ l) a b (e, same) = (ap deadline_or e, Agree-deadline_of l a b same)

-- A change of the heap away from the timers of the set.
pub other-IsKept :
    (heap heap' : Map Timer) (queue : List ℕ)
    → Agree queue heap heap'
    → IsKept heap queue
    → IsKept heap' queue
other-IsKept heap heap' queue same (sorted, live) = (
  IsSorted-cong (deadline_of heap) (deadline_of heap') queue
      (Agree-deadline_of queue heap heap' same) sorted,
  Agree-IsLive queue heap heap' same live,
)

pub insert-elsewhere :
    (p : ℕ) (t : Timer) (heap : Map Timer) (l : List ℕ)
    → All (λ y. y ≢ p) l
    → Agree l heap (Map.insert p t heap)
insert-elsewhere p t heap [] other = tt
insert-elsewhere p t heap (x ∷ l) (ne, other) = (
  sym (
      lookup-insert p x t heap
      ∙ ap (λ b. if b then some t else Map.lookup x heap) (==_of_ne p x (λ e. ne (sym e)))),
  insert-elsewhere p t heap l other,
)

pub erase-elsewhere :
    (p : ℕ) (heap : Map Timer) (l : List ℕ) → All (λ y. y ≢ p) l → Agree l heap (Map.erase p heap)
erase-elsewhere p heap [] other = tt
erase-elsewhere p heap (x ∷ l) (ne, other) = (
  sym (
      lookup-erase p x heap
      ∙ ap (λ b. if b then none else Map.lookup x heap) (==_of_ne p x (λ e. ne (sym e)))),
  erase-elsewhere p heap l other,
)

-- A timer that is new, or not in the set, enters it with its deadline.
pub enter-IsKept :
    (p : ℕ) (t : Timer) (heap : Map Timer) (queue : List ℕ)
    → All (λ y. y ≢ p) queue
    → IsKept heap queue
    → let heap' = Map.insert p t heap in IsKept heap' (set_insert (deadline_of heap') p queue)
enter-IsKept p t heap queue other kept =
    let heap' = Map.insert p t heap in
    let (sorted, live) =
      other-IsKept heap heap' queue (insert-elsewhere p t heap queue other) kept in
    let here : Map.lookup p heap' ≡ some t =
      lookup-insert p p t heap
      ∙ ap (λ b. if b then some t else Map.lookup p heap) (==_of_eq p p refl) in
    (
      set_insert-IsSorted (deadline_of heap') p queue sorted,
      set_insert-All (deadline_of heap') (IsLive heap') p queue
          (λ dead. let clash : some t ≡ none = sym here ∙ dead in ground arith) live,
    )

pub erase-IsKept :
    (p : ℕ) (heap : Map Timer) (queue : List ℕ)
    → IsKept heap queue
    → IsKept heap (set_erase (deadline_of heap) p queue)
erase-IsKept p heap queue (sorted, live) = (
  set_erase-IsSorted (deadline_of heap) p queue sorted,
  set_erase-All (deadline_of heap) (IsLive heap) p queue live,
)

-- The set without a timer, which then leaves the heap.
pub leave-IsKept :
    (p : ℕ) (heap : Map Timer) (queue : List ℕ)
    → IsKept heap queue
    → IsKept (Map.erase p heap) (set_erase (deadline_of heap) p queue)
leave-IsKept p heap queue kept =
    let left = set_erase (deadline_of heap) p queue in
    other-IsKept heap (Map.erase p heap) left
      (erase-elsewhere p heap left (set_erase-gone (deadline_of heap) p queue kept.0))
      (erase-IsKept p heap queue kept)

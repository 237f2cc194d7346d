-- ===== src/IpcQueue/Awaited.antt =====
-- The handles that outbound queues wait for.
use unix_thread_ipc.Prelude.{
  ℕ, ◌-◌, ltb, ==_of_eq, zero, suc, ◌≡◌, refl, Bool, true, false, not, Option, none, some, List, [],
  ◌∷◌, ◌++◌, arith, if◌then◌else◌, Option-cases, inl, inr, All, take,
}
use mathlib.Core.Path.{subst}
use unix_thread_ipc.Prelude.Map
use unix_thread_ipc.Prelude.Map.{Map, lookup-insert}
use unix_thread_ipc.Prelude.Ordered.{
  IsOrdered, Above, Values, WhenSome, insert-IsOrdered, Values-insert, lookup-Values, lookup-Above,
}
use unix_thread_ipc.Packets.{IpcMessage, is_empty_list}
use unix_thread_ipc.IpcQueue.{
  OutboundQueue, new_outbound_queue, enqueue, Handle, send_data, data_available, write_mutex,
  space_available, process_end, timeout_ms, add_wait_handles, collect,
}
use unix_thread_ipc.IpcQueue.Messages.{collect-Above}
use unix_thread_ipc.IpcQueue.Phases.{IsPhased, add_message_to_queue-IsPhased}

abbrev pub waits_for_mutex : Option OutboundQueue → Bool
waits_for_mutex none = false
waits_for_mutex (some o) = o.out.is_waiting_for_write_mutex

abbrev pub waits_for_space : Option OutboundQueue → Bool
waits_for_space none = false
waits_for_space (some o) = o.out.is_waiting_for_space

-- A handle that a queue waits for.
abbrev pub IsAwaited : Map OutboundQueue → Handle → Type 0
IsAwaited m (write_mutex id) = waits_for_mutex (Map.lookup id m) ≡ true
IsAwaited m (space_available id) = waits_for_space (Map.lookup id m) ≡ true
IsAwaited m _ = Unit

abbrev pub ArePhased : Map OutboundQueue → Type 0
ArePhased m = Values (λ o. IsPhased o.out) m

abbrev pub IsSafe : List Handle → Map OutboundQueue → Type 0
IsSafe handles m = IsOrdered m × ArePhased m × All (IsAwaited m) handles

insert-IsAwaited :
    (k : ℕ) (o : OutboundQueue) (m : Map OutboundQueue) (h : Handle)
    → (waits_for_mutex (Map.lookup k m) ≡ true → o.out.is_waiting_for_write_mutex ≡ true)
    → (waits_for_space (Map.lookup k m) ≡ true → o.out.is_waiting_for_space ≡ true)
    → IsAwaited m h
    → IsAwaited (Map.insert k o m) h
insert-IsAwaited k o m (write_mutex id) f g a = ground (arith, lookup-insert k id o m)
insert-IsAwaited k o m (space_available id) f g a = ground (arith, lookup-insert k id o m)
insert-IsAwaited k o m (process_end id) f g a = tt
insert-IsAwaited k o m send_data f g a = tt
insert-IsAwaited k o m data_available f g a = tt

All-map : {A : Type 0} (P Q : A → Type 0) (l : List A) → ((a : A) → P a → Q a) → All P l → All Q l
All-map P Q [] f h = tt
All-map P Q (a ∷ l) f h = (f a h.0, All-map P Q l f h.1)

pub opened-IsSafe :
    (handles : List Handle) (m : Map OutboundQueue) (id : ℕ)
    → IsSafe handles m
    → Map.lookup id m ≡ none
    → IsSafe handles (Map.insert id new_outbound_queue m)
opened-IsSafe handles m id s e = (
  insert-IsOrdered id new_outbound_queue m s.0,
  Values-insert (λ o. IsPhased o.out) id new_outbound_queue m (refl, refl, refl, refl) s.1,
  All-map (IsAwaited m) (IsAwaited (Map.insert id new_outbound_queue m)) handles
      (λ h.
        insert-IsAwaited id new_outbound_queue m h (λ f. absurd (ground (arith, f, e)))
          (λ f. absurd (ground (arith, f, e))))
      s.2,
)

pub enqueued-IsSafe :
    (handles : List Handle) (m : Map OutboundQueue) (id now : ℕ) (o : OutboundQueue)
    (message : IpcMessage)
    → IsSafe handles m
    → Map.lookup id m ≡ some o
    → IsSafe handles (Map.insert id (enqueue now o message) m)
unfolding enqueue
enqueued-IsSafe handles m id now o message s e =
    let phased : IsPhased o.out =
      subst (WhenSome (λ o. IsPhased o.out)) e (lookup-Values (λ o. IsPhased o.out) id m s.1) in
    let o' = enqueue now o message in
    (
      insert-IsOrdered id o' m s.0,
      Values-insert (λ o. IsPhased o.out) id o' m
          (add_message_to_queue-IsPhased o.out message phased) s.1,
      All-map (IsAwaited m) (IsAwaited (Map.insert id o' m)) handles
          (λ h.
            insert-IsAwaited id o' m h
              (λ f.
                let was : o.out.is_waiting_for_write_mutex ≡ true =
                  subst (λ x. waits_for_mutex x ≡ true) e f in
                ground (arith, was))
              (λ f. subst (λ x. waits_for_space x ≡ true) e f))
          s.2,
    )

-- The handles of `collect`.
cons-IsAwaited :
    (id : ℕ) (o : OutboundQueue) (m : Map OutboundQueue) (h : Handle)
    → Above id m
    → IsAwaited m h
    → IsAwaited ((id, o) ∷ m) h
unfolding Map.lookup
cons-IsAwaited id o m (write_mutex k) a w = ground (arith, lookup-Above id k m)
cons-IsAwaited id o m (space_available k) a w = ground (arith, lookup-Above id k m)
cons-IsAwaited id o m (process_end k) a w = tt
cons-IsAwaited id o m send_data a w = tt
cons-IsAwaited id o m data_available a w = tt

either_awaited :
    (P : List Handle → Type 0) (c : Bool) (o o' : Option (List Handle))
    → (c ≡ true → WhenSome P o)
    → (c ≡ false → WhenSome P o')
    → WhenSome P (if c then o else o')
either_awaited P true o o' f g = f refl
either_awaited P false o o' f g = g refl

found-IsAwaited :
    (now id : ℕ) (o : OutboundQueue) (m : Map OutboundQueue)
    → WhenSome (All (IsAwaited ((id, o) ∷ m))) (add_wait_handles now id o)
unfolding add_wait_handles Map.lookup
found-IsAwaited now id o m =
    let P : List Handle → Type 0 = All (IsAwaited ((id, o) ∷ m)) in
    let here = ==_of_eq id id refl in
    let end = process_end id ∷ [] in
    let space = space_available id ∷ end in
    let mutex = write_mutex id ∷ end in
    let waiting =
      if o.out.is_waiting_for_space
      then some space
      else if o.out.is_waiting_for_write_mutex
      then some mutex
      else some end in
    let active = if ltb timeout_ms (now - o.last_active_time) then none else some end in
    let late = if ltb timeout_ms (now - o.wait_start_time) then none else waiting in
    either_awaited P (not o.has_process) none (if is_empty_list o.out.pending then active else late)
      (λ c. tt)
      (λ c.
        either_awaited P (is_empty_list o.out.pending) active late
          (λ d.
            either_awaited P (ltb timeout_ms (now - o.last_active_time)) none (some end) (λ e. tt)
              (λ e. (tt, tt)))
          (λ d.
            either_awaited P (ltb timeout_ms (now - o.wait_start_time)) none waiting (λ e. tt)
              (λ e.
                either_awaited P o.out.is_waiting_for_space (some space)
                  (if o.out.is_waiting_for_write_mutex then some mutex else some end)
                  (λ f. (rw (here) f, (tt, tt)))
                  (λ f.
                    either_awaited P o.out.is_waiting_for_write_mutex (some mutex) (some end)
                      (λ g. (rw (here) g, (tt, tt))) (λ g. (tt, tt))))))

All-append : {A : Type 0} (P : A → Type 0) (xs ys : List A) → All P xs → All P ys → All P (xs ++ ys)
All-append P [] ys h k = k
All-append P (x ∷ xs) ys h k = (h.0, All-append P xs ys h.1 k)

pub All-take : {A : Type 0} (P : A → Type 0) (n : ℕ) (xs : List A) → All P xs → All P (take n xs)
All-take P zero xs h = tt
All-take P (suc n) [] h = tt
All-take P (suc n) (x ∷ xs) h = (h.0, All-take P n xs h.1)

pub collect-IsSafe :
    (now : ℕ) (m : Map OutboundQueue)
    → IsOrdered m
    → ArePhased m
    → IsSafe (collect now m).0 (collect now m).1
unfolding collect
collect-IsSafe now [] h p = (tt, tt, tt)
collect-IsSafe now ((id, o) ∷ m) h p =
    let later = collect-IsSafe now m h.1 p.1 in
    let (handles, kept, lost) = collect now m in
    elim (Option-cases (add_wait_handles now id o)) [
      | inl e ↦ rw (collect, e) later
      | inr (l, e) ↦
          let above = collect-Above id now m h.0 in
          rw (collect, e)
            (
              (above, later.0),
              (p.0, later.1),
              All-append (IsAwaited ((id, o) ∷ kept)) l handles
                  (subst (WhenSome (All (IsAwaited ((id, o) ∷ kept)))) e
                    (found-IsAwaited now id o kept))
                  (All-map (IsAwaited kept) (IsAwaited ((id, o) ∷ kept)) handles
                    (λ k. cons-IsAwaited id o kept k above) later.2),
            )
    ]

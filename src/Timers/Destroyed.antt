-- ===== src/Timers/Destroyed.antt =====
-- A timer that another one's callback destroys.
use mathlib.Core.Path.{subst}
use unix_thread_ipc.Prelude.{
  ℕ, suc, ◌≡◌, refl, sym, ap, ◌∙◌, true, none, some, List, [], ◌∷◌, ◌++◌, All, leb, if◌then◌else◌,
  Option-cases, inl, inr, ==_of_eq,
}
use unix_thread_ipc.Prelude.Map
use unix_thread_ipc.Prelude.Map.{Map, lookup-erase}
use unix_thread_ipc.Timers.{
  Timer, Op, destroy, Timers, deadline_or, deadline_of, set_erase, cancel, destruct, perform,
  reschedule, call, run_due, rearmed, run_callbacks,
}
use unix_thread_ipc.Timers.Kept.{IsLive, IsValid}

module _ (clock : ℕ → ℕ) (allocate : Map Timer → ℕ) (callback : ℕ → Timers → List Op) where
  run_due-first :
      (now a : ℕ) (t : Timer) (l : List ℕ) (s : Timers)
      → Map.lookup a s.heap ≡ some t
      → leb t.deadline now ≡ true
      → run_due clock allocate callback now (a ∷ l) s
        ≡ run_due clock allocate callback now l (
            call clock allocate callback a (
              reschedule clock allocate callback a t
                (record s { queue = set_erase (deadline_of s.heap) a s.queue })))
  unfolding run_due
  run_due-first now a t l s found h = rw (run_due, found, h) refl

  run_due-dangling :
      (now b : ℕ) (l : List ℕ) (s : Timers)
      → Map.lookup b s.heap ≡ none
      → run_due clock allocate callback now (b ∷ l) s ≡ none
  unfolding run_due
  run_due-dangling now b l s gone = rw (run_due, gone) refl

  destruct-gone :
      (b : ℕ) (s : Timers) → Map.lookup b (destruct clock allocate callback b s).heap ≡ none
  unfolding destruct
  destruct-gone b s =
      let heap = (cancel clock allocate callback b s).heap in
      lookup-erase b b heap ∙ ap (λ c. if c then none else Map.lookup b heap) (==_of_eq b b refl)

  call-gone :
      (a b : ℕ) (s : Timers)
      → ((t : Timers) → callback a t ≡ destroy b ∷ [])
      → Map.lookup b (call clock allocate callback a s).heap ≡ none
  call-gone a b s destroys =
      let started = record s { fired = s.fired ++ (a ∷ []) } in
      ap (λ ops. Map.lookup b (perform clock allocate callback ops started).heap) (destroys started)
      ∙ destruct-gone b started

-- If the first timer is due and its callback destroys the second, the pass accesses the destroyed
-- timer.
pub destroyed-access :
    (clock : ℕ → ℕ) (allocate : Map Timer → ℕ) (callback : ℕ → Timers → List Op) (a b : ℕ)
    (rest : List ℕ) (s : Timers)
    → IsValid s
    → s.queue ≡ a ∷ b ∷ rest
    → leb (deadline_of s.heap a) (clock s.reads) ≡ true
    → ((t : Timers) → callback a t ≡ destroy b ∷ [])
    → run_callbacks clock allocate callback s ≡ none
unfolding run_callbacks run_due
destroyed-access clock allocate callback a b rest s valid both first destroys =
    let begun = record s { reads = suc s.reads } in
    elim (Option-cases (Map.lookup a s.heap)) [
      | inl gone ↦ absurd ((subst (All (IsLive s.heap)) both valid.1).0 gone)
      | inr (t, found) ↦
          let next = call clock allocate callback a (
            reschedule clock allocate callback a t
              (record begun { queue = set_erase (deadline_of s.heap) a s.queue })) in
          ap (rearmed clock allocate callback) (
            ap (λ l. run_due clock allocate callback (clock s.reads) l begun) both
            ∙ run_due-first clock allocate callback (clock s.reads) a t (b ∷ rest) begun found
                (sym (ap (λ o. leb (deadline_or o) (clock s.reads)) found) ∙ first)
            ∙ run_due-dangling clock allocate callback (clock s.reads) b rest next
                (call-gone clock allocate callback a b _ destroys))
    ]

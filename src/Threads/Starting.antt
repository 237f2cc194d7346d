-- ===== src/Threads/Starting.antt =====
-- What holds when `Start` and `Join` have returned.
use mathlib.Core.Path.{subst}
use unix_thread_ipc.Prelude.{
  ℕ, ◌<◌, ◌≡◌, ◌⊎◌, inl, inr, refl, ◌∙◌, true, false, Option, List, arith,
}
use unix_thread_ipc.Prelude.Int.{pos}
use unix_thread_ipc.ThreadLocals.{max_slots}
use unix_thread_ipc.MessageQueue.{Process, new_process, register_handler, send}
use unix_thread_ipc.MessageQueue.Sending.{send_lem}
use unix_thread_ipc.MessageQueue.Exit.{has_queue, Inv, lookup-exit_thread, exit_thread-Inv}
use unix_thread_ipc.MessageQueue.Init.{has_queue-init, init-Inv}
use unix_thread_ipc.MessageQueue.Lifetime.{
  Request, init, post, register, exit, serve, serve_all, serve-Inv, serve_all-Inv, new_process-Inv,
}
use unix_thread_ipc.Threads.{
  Parent, idle, waiting, started, joined, created, initialised, identified, marked, running,
  returned, ended, System, Spares, Step, create, create_fails, initialise, identify, mark, signal,
  return, end, wake, join, other, Reach, fresh, then_step,
}
use unix_thread_ipc.Threads.Facts.{
  IsEnded, ChildFacts, ParentFacts, early-ParentFacts, late-ParentFacts, wake-ChildFacts,
  queue-ChildFacts, absent-ChildFacts, begun-ChildFacts, last-ChildFacts,
}

module _ {D H : Type 0} where
  serve-has_queue :
      {i : ℕ} (child : ℕ) (p : Process D H) (r : Request D H)
      → Inv i p
      → Spares child r
      → has_queue p child ≡ true
      → has_queue (serve p r) child ≡ true
  unfolding serve register_handler
  serve-has_queue child p (init self) v spares has = ground (arith, has_queue-init v self child)
  serve-has_queue child p (post thread message_type d) v spares has =
      ground (arith, send_lem p thread message_type d child)
  serve-has_queue child p (register message_type h) v spares has = has
  serve-has_queue child p (exit self) v spares has = ground (arith, lookup-exit_thread v self child)

module _ {D H : Type 0} where
  abbrev Good : ℕ → ℕ → System D H → Type 0
  Good i child s =
      Inv i s.process
      × ChildFacts child s.child_at s.thread_id s.is_running s.event s.handle
          (has_queue s.process child)
      × ParentFacts child s.parent s.child_at s.thread_id s.handle

  step-Good : (i child : ℕ) (s s' : System D H) → Step child s s' → Good i child s → Good i child s'
  step-Good i child s s' create (v, (id, r, e, h), q) =
      (v, (id, r, e, refl), (omega arith, λ wrong. absurd (omega arith)))
  step-Good i child s s' create_fails (v, facts, q) = (v, facts, inl (refl, refl))
  step-Good i child s s' (initialise {p = p} {id = id} {h = h} {q = q})
        (v, (i0, r, e, h0), parent) =
      (
        init-Inv v child,
        (i0, r, e, h0, ground (arith, has_queue-init v child child)),
        early-ParentFacts child q created initialised id h id h (omega arith, omega arith)
            (omega arith, omega arith) parent,
      )
  step-Good i child s s' (identify {id = id} {h = h} {q = q}) (v, (i0, r, e, h0, has), parent) = (
    v,
    (refl, r, e, h0, has),
    early-ParentFacts child q initialised identified id h child h (omega arith, omega arith)
        (omega arith, omega arith) parent,
  )
  step-Good i child s s' (mark {id = id} {h = h} {q = q}) (v, (i0, r, e, h0, has), parent) = (
    v,
    (i0, refl, e, h0, has),
    early-ParentFacts child q identified marked id h id h (omega arith, omega arith)
        (omega arith, omega arith) parent,
  )
  step-Good i child s s' (signal {id = id} {h = h} {q = q}) (v, (i0, r, e, h0, has), parent) = (
    v,
    (i0, r, h0, has),
    early-ParentFacts child q marked running id h id h (omega arith, omega arith)
        (omega arith, omega arith) parent,
  )
  step-Good i child s s' (return {id = id} {h = h} {q = q}) (v, (i0, r, h0, has), parent) = (
    v,
    (i0, refl, h0, has),
    late-ParentFacts child q running returned id h (omega arith, omega arith) (omega arith) (i0, h0)
        parent,
  )
  step-Good i child s s' (end {id = id} {h = h} {q = q}) (v, (i0, r, h0, has), parent) = (
    exit_thread-Inv v child,
    r,
    late-ParentFacts child q returned ended id h (omega arith, omega arith) (omega arith) (i0, h0)
        parent,
  )
  step-Good i child s s' (wake {p = p} {id = id} {h = h} {r = r} {c = c}) (v, facts, parent) =
      let (facts', parent') = wake-ChildFacts child c id h r (has_queue p child) facts parent in
      (v, facts', parent')
  step-Good i child s s' (join ne) (v, facts, parent) = (v, facts, (refl, refl, refl))
  step-Good i child s s' (other {p = p} {id = id} {h = h} {r = r} {e = e} {c = c} request spares)
        (v, facts, parent) =
      (
        serve-Inv p request v,
        queue-ChildFacts child c id h r e (has_queue p child) (has_queue (serve p request) child)
            (serve-has_queue child p request v spares) facts,
        parent,
      )

  reach-Good :
      (i child : ℕ) (p : Process D H) (s : System D H) → Inv i p → Reach child p s → Good i child s
  reach-Good i child p s v fresh = (v, (refl, refl, refl, refl), refl)
  reach-Good i child p s v (then_step {s = t} reach step) =
      step-Good i child t s step (reach-Good i child p t v reach)

  -- What `Start` and `Join` have done: `started n` is behind a `Start` that returned `n`.
  abbrev pub Outcome : ℕ → System D H → Parent → Type 0
  Outcome child s idle = Unit
  Outcome child s waiting = Unit
  Outcome child s (started n) =
      ((n ≡ 0) × (s.thread_id ≡ 0) × (s.handle ≡ 0))
      ⊎ ((n ≡ child)
          × (s.thread_id ≡ child)
          × (IsEnded s.child_at
              ⊎ ((message_type : ℕ)
                  → (d : Option D) → (send s.process child message_type d).0 ≡ true)))
  Outcome child s joined =
      IsEnded s.child_at × (s.is_running ≡ false) × (s.thread_id ≡ 0) × (s.handle ≡ 0)

  outcome_lem :
      (i child : ℕ) (s : System D H) (q : Parent)
      → s.parent ≡ q
      → Good i child s
      → Outcome child s q
  outcome_lem i child s idle e good = tt
  outcome_lem i child s waiting e good = tt
  outcome_lem i child s (started n) e (v, facts, parent) =
      elim (subst (λ q. ParentFacts child q s.child_at s.thread_id s.handle) e parent) [
        | inl (zero_n, first) ↦
            let (i0, h0) =
              absent-ChildFacts child s.child_at s.thread_id s.handle s.is_running s.event _ first
                facts in
            inl (zero_n, i0, h0)
        | inr (n_is, begun, i0, h0) ↦ inr (
          n_is,
          i0,
          elim (begun-ChildFacts child s.child_at s.thread_id s.handle s.is_running s.event _ begun
              facts) [
                | inl over ↦ inl over
                | inr has ↦
                    inr (λ message_type d. (send_lem s.process child message_type d child).0 ∙ has)
              ],
        )
      ]
  outcome_lem i child s joined e (v, facts, parent) =
      let (last, i0, h0) =
        subst (λ q. ParentFacts child q s.child_at s.thread_id s.handle) e parent in
      let (over, stopped) =
        last-ChildFacts child s.child_at s.thread_id s.handle s.is_running s.event _ last facts in
      (over, stopped, i0, h0)

  -- However the two threads and all others interleave, on a process with any history `rs`: a `Start`
  -- that has returned gave 0, with no thread created, or the id of the child, whose queue then accepts
  -- every message until the child has ended. Behind `Join` the child has ended and the assertions of
  -- the destructors hold.
  pub start-join :
      (main i : ℕ) (rs : List (Request D H)) (child : ℕ) (s : System D H)
      → i < max_slots
      → Reach child (serve_all (new_process main (pos i)) rs) s
      → Outcome child s s.parent
  start-join main i rs child s h reach = outcome_lem i child s s.parent refl (
      reach-Good i child (serve_all (new_process main (pos i)) rs) s
        (serve_all-Inv (new_process main (pos i)) rs (new_process-Inv main i h)) reach)

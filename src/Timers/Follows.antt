-- ===== src/Timers/Follows.antt =====
-- What the callback of a timer leaves as it is when it only creates timers.
use unix_thread_ipc.Prelude.{
  ℕ, ◌≡◌, ◌≢◌, refl, ap, ◌∙◌, Bool, true, false, List, [], ◌∷◌, ◌++◌, All, if◌then◌else◌,
}
use unix_thread_ipc.Prelude.Int.{ℤ}
use unix_thread_ipc.Prelude.Map.{Map}
use unix_thread_ipc.Timers.{
  Timer, Op, create, destroy, Timers, rearm_for, construct, perform, reschedule, call,
}
use unix_thread_ipc.Timers.Kept.{IsLive, Agree, Agree-IsLive, insert-elsewhere}
use unix_thread_ipc.Timers.Upkeep.{IsAllocator, live-other}

Agree-trans : (l : List ℕ) (a b c : Map Timer) → Agree l a b → Agree l b c → Agree l a c
Agree-trans [] a b c first second = tt
Agree-trans (x ∷ l) a b c (e, first) (f, second) = (e ∙ f, Agree-trans l a b c first second)

Agree-refl : (l : List ℕ) (a : Map Timer) → Agree l a a
Agree-refl [] a = tt
Agree-refl (x ∷ l) a = (refl, Agree-refl l a)

abbrev pub IsCreate : Op → Type 0
IsCreate (create delay repeat) = Unit
IsCreate (destroy p) = ⊥

-- `s'` has the timers of `s` at the addresses of `l`, and no more of them have fired.
abbrev pub Follows : List ℕ → Timers → Timers → Type 0
Follows l s s' = Agree l s.heap s'.heap × (s'.fired ≡ s.fired)

module _ (clock : ℕ → ℕ) (allocate : Map Timer → ℕ) (callback : ℕ → Timers → List Op) where
  pub rearm_for-Follows :
      (l q : List ℕ) (s s' : Timers)
      → Follows l s s'
      → Follows l s (rearm_for clock allocate callback q s')
  rearm_for-Follows l [] s s' follows = follows
  rearm_for-Follows l (p ∷ q) s s' follows = follows

  either-Follows :
      (l : List ℕ) (c : Bool) (s r t : Timers)
      → Follows l s r
      → Follows l s t
      → Follows l s (if c then r else t)
  either-Follows l true s r t first second = first
  either-Follows l false s r t first second = second

  -- Only the timer at `p` is rescheduled.
  reschedule-Follows :
      (p : ℕ) (t : Timer) (l : List ℕ) (s : Timers)
      → All (λ y. y ≢ p) l
      → Follows l s (reschedule clock allocate callback p t s)
  unfolding reschedule
  reschedule-Follows p t l s other =
      either-Follows l t.repeat s _ s
        (rearm_for-Follows l _ s _ (insert-elsewhere p _ s.heap l other, refl))
        (Agree-refl l s.heap, refl)

  module _ (fresh : IsAllocator allocate) where
    construct-Follows :
        (delay : ℤ) (repeat : Bool) (l : List ℕ) (s : Timers)
        → All (IsLive s.heap) l
        → Follows l s (construct clock allocate callback delay repeat s)
    unfolding construct
    construct-Follows delay repeat l s live = rearm_for-Follows l _ s _ (
      insert-elsewhere (allocate s.heap) _ s.heap l
          (live-other s.heap (allocate s.heap) l (fresh s.heap) live),
      refl,
    )

    perform-Follows :
        (ops : List Op) (l : List ℕ) (s : Timers)
        → All IsCreate ops
        → All (IsLive s.heap) l
        → Follows l s (perform clock allocate callback ops s)
    perform-Follows [] l s creates live = (Agree-refl l s.heap, refl)
    perform-Follows (create delay repeat ∷ ops) l s (_, creates) live =
        let s' = construct clock allocate callback delay repeat s in
        let (same, none_fired) = construct-Follows delay repeat l s live in
        let (later, none_later) =
          perform-Follows ops l s' creates (Agree-IsLive l s.heap s'.heap same live) in
        (Agree-trans l s.heap s'.heap _ same later, none_later ∙ none_fired)
    perform-Follows (destroy p ∷ ops) l s (none_such, creates) live = absurd none_such

    module _ (creating : (p : ℕ) (s : Timers) → All IsCreate (callback p s)) where
      -- One timer has fired.
      pub fire-Follows :
          (p : ℕ) (t : Timer) (l : List ℕ) (s : Timers)
          → All (λ y. y ≢ p) l
          → All (IsLive s.heap) l
          → let s' = call clock allocate callback p (reschedule clock allocate callback p t s) in
            Agree l s.heap s'.heap × (s'.fired ≡ s.fired ++ (p ∷ []))
      fire-Follows p t l s other live =
          let r = reschedule clock allocate callback p t s in
          let (same, none_fired) = reschedule-Follows p t l s other in
          let started = record r { fired = r.fired ++ (p ∷ []) } in
          let (later, none_later) =
            perform-Follows (callback p started) l started (creating p started)
              (Agree-IsLive l s.heap r.heap same live) in
          (
            Agree-trans l s.heap r.heap _ same later,
            none_later ∙ ap (λ f. f ++ (p ∷ [])) none_fired,
          )

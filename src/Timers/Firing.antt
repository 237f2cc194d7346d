-- ===== src/Timers/Firing.antt =====
-- One pass of `Callback` when the callbacks create timers and destroy none.
use mathlib.Core.Path.{subst}
use unix_thread_ipc.Prelude.{
  ℕ, suc, ◌≡◌, ◌≢◌, refl, sym, ap, ◌∙◌, Bool, true, false, Option, none, some, List, [], ◌∷◌, ◌++◌,
  append_assoc, append-nil, All, arith, leb, if◌then◌else◌,
}
use unix_thread_ipc.Prelude.Map
use unix_thread_ipc.Prelude.Map.{Map, lookup-erase}
use unix_thread_ipc.Timers.{
  Timer, Op, Timers, deadline_or, deadline_of, less, set_erase, rearm_timer, reschedule, call,
  run_due, rearmed, run_callbacks,
}
use unix_thread_ipc.Timers.Order.{below-ne}
use unix_thread_ipc.Timers.Kept.{Agree, IsKept, IsValid, other-IsKept}
use unix_thread_ipc.Timers.Upkeep.{IsAllocator}
use unix_thread_ipc.Timers.Follows.{IsCreate, rearm_for-Follows, fire-Follows}

-- The timers of `l` whose deadline has come.
abbrev pub due : ℕ → (ℕ → ℕ) → List ℕ → List ℕ
due now key [] = []
due now key (p ∷ rest) = if leb (key p) now then p ∷ due now key rest else due now key rest

due-later :
    (now : ℕ) (key : ℕ → ℕ) (a : ℕ) (l : List ℕ)
    → leb (key a) now ≡ false
    → All (λ y. less key a y ≡ true) l
    → due now key l ≡ []
due-later now key a [] early below = refl
due-later now key a (x ∷ l) early (h, below) =
    let later : leb (key x) now ≡ false = ground arith in
    rw (later) (due-later now key a l early below)

Agree-due :
    (now : ℕ) (l : List ℕ) (a b : Map Timer)
    → Agree l a b
    → due now (deadline_of a) l ≡ due now (deadline_of b) l
Agree-due now [] a b same = refl
Agree-due now (x ∷ l) a b (e, same) =
    ap (λ d. if leb d now then x ∷ due now (deadline_of a) l else due now (deadline_of a) l)
      (ap deadline_or e)
    ∙ ap (λ r. if leb (deadline_of b x) now then x ∷ r else r) (Agree-due now l a b same)

module _ (clock : ℕ → ℕ) (allocate : Map Timer → ℕ) (callback : ℕ → Timers → List Op) where
  module _ (fresh : IsAllocator allocate) where
    module _ (creating : (p : ℕ) (s : Timers) → All IsCreate (callback p s)) where
      -- A pass that ends, with `fired` the timers that have fired.
      abbrev Ends : List ℕ → Option Timers → Type 0
      Ends fired none = ⊥
      Ends fired (some s) = s.fired ≡ fired

      found-Ends :
          (fired : List ℕ) (now : ℕ) (o : Option Timer) (f : Timer → Option Timers)
          → o ≢ none
          → ((t : Timer) → o ≡ some t → Ends fired (f t))
          → Ends fired (elim o [ none ↦ none | some t ↦ f t ])
      found-Ends fired now none f live each = absurd (live refl)
      found-Ends fired now (some t) f live each = each t refl

      either-Ends :
          (fired : List ℕ) (c : Bool) (r s : Option Timers)
          → (c ≡ true → Ends fired r)
          → (c ≡ false → Ends fired s)
          → Ends fired (if c then r else s)
      either-Ends fired true r s first second = first refl
      either-Ends fired false r s first second = second refl

      run_due-Ends :
          (now : ℕ) (l : List ℕ) (s : Timers)
          → IsKept s.heap l
          → Ends
              (s.fired ++ due now (deadline_of s.heap) l)
              (run_due clock allocate callback now l s)
      unfolding run_due
      run_due-Ends now [] s kept = sym (append-nil s.fired)
      run_due-Ends now (p ∷ rest) s ((below, sorted), (alive, live)) =
          found-Ends (s.fired ++ due now (deadline_of s.heap) (p ∷ rest)) now (Map.lookup p s.heap)
            _ alive
            (λ t found.
              let key = deadline_of s.heap in
              let taken = record s { queue = set_erase key p s.queue } in
              let next =
                call clock allocate callback p (reschedule clock allocate callback p t taken) in
              let its = sym (ap (λ o. leb (deadline_or o) now) found) in
              let (same, one_fired) =
                fire-Follows clock allocate callback fresh creating p t rest taken
                  (below-ne key p rest below) live in
              either-Ends (s.fired ++ due now key (p ∷ rest)) (leb t.deadline now) _ (some s)
                (λ h.
                  let listed : due now key (p ∷ rest) ≡ p ∷ due now key rest =
                    ap (λ b. if b then p ∷ due now key rest else due now key rest) (sym its ∙ h) in
                  let fired : next.fired ++ due now (deadline_of next.heap) rest
                      ≡ s.fired ++ due now key (p ∷ rest) =
                    ap (λ f. f ++ due now (deadline_of next.heap) rest) one_fired
                    ∙ ap (λ d. (s.fired ++ (p ∷ [])) ++ d)
                        (sym (Agree-due now rest s.heap next.heap same))
                    ∙ append_assoc s.fired (p ∷ []) (due now key rest)
                    ∙ ap (λ d. s.fired ++ d) (sym listed) in
                  subst (λ f. Ends f (run_due clock allocate callback now rest next)) fired
                    (run_due-Ends now rest next
                      (other-IsKept s.heap next.heap rest same (sorted, live))))
                (λ h.
                  let early : leb (key p) now ≡ false = sym its ∙ h in
                  let listed : due now key (p ∷ rest) ≡ [] =
                    ap (λ b. if b then p ∷ due now key rest else due now key rest) early
                    ∙ due-later now key p rest early below in
                  sym (ap (λ d. s.fired ++ d) listed ∙ append-nil s.fired)))

      rearmed-Ends :
          (fired : List ℕ) (o : Option Timers)
          → Ends fired o
          → (s : Timers) × ((rearmed clock allocate callback o ≡ some s) × (s.fired ≡ fired))
      rearmed-Ends fired none ends = absurd ends
      rearmed-Ends fired (some s) ends =
          let (_, same) = rearm_for-Follows clock allocate callback [] s.queue s s (tt, refl) in
          (rearm_timer clock allocate callback s, (refl, same ∙ ends))

-- A pass of the callback ends, and has fired exactly the timers whose deadline had come by its
-- reading of the clock, each once and in the order of the deadlines, when the callbacks of the timers
-- create timers as they like and destroy none.
pub run_callbacks-due :
    (clock : ℕ → ℕ) (allocate : Map Timer → ℕ) (callback : ℕ → Timers → List Op) (s : Timers)
    → IsAllocator allocate
    → ((p : ℕ) (t : Timers) → All IsCreate (callback p t))
    → IsValid s
    → (s' : Timers) × ((run_callbacks clock allocate callback s ≡ some s')
        × (s'.fired ≡ s.fired ++ due (clock s.reads) (deadline_of s.heap) s.queue))
unfolding run_callbacks
run_callbacks-due clock allocate callback s fresh creating valid =
    let begun = record s { reads = suc s.reads } in
    rearmed-Ends clock allocate callback fresh creating _
      (run_due clock allocate callback (clock s.reads) s.queue begun)
      (run_due-Ends clock allocate callback fresh creating (clock s.reads) s.queue begun valid)

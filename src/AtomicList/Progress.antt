-- ===== src/AtomicList/Progress.antt =====
-- `put` returns without waiting for any other thread.
use unix_thread_ipc.Prelude.{
  ℕ, zero, suc, ◌+◌, ◌*◌, ◌≤◌, ◌≡◌, refl, ap, ◌∙◌, Option, none, some, List, ◌∷◌, arith, ◌==◌,
  length, Bool-cases, inl, inr, ==_of_eq,
}
use unix_thread_ipc.AtomicList.{
  Pc, idle, reading, trying, pushing, dismissing, AtomicList, new_list, value_of, next_of, move_to,
  step_at, advance, Move, run,
}
use unix_thread_ipc.AtomicList.Invariant.{
  Knows, IsSound, step_at-IsSound, run-IsSound, new_list-IsSound,
}

-- The steps of a thread alone.
abbrev pub alone : AtomicList → ℕ → ℕ → AtomicList
alone s t zero = s
alone s t (suc n) = alone (advance s t) t n

-- The thread has returned from `put v`, or is in it and has `n` steps left.
data IsComing (stored : List ℕ) (t v n : ℕ) (s : AtomicList) : Type 0 where
  returned : s.pc t ≡ idle → s.stored ≡ v ∷ stored → IsComing stored t v n s
  at_reading :
      (k : ℕ) → s.pc t ≡ reading v k → 2 * k + 2 ≤ n → s.stored ≡ stored → IsComing stored t v n s
  at_trying :
      (k : ℕ) → s.pc t ≡ trying v k → 2 * k + 3 ≤ n → s.stored ≡ stored → IsComing stored t v n s
  at_retrying :
      (old : ℕ) → s.pc t ≡ pushing v old → 2 ≤ n → s.stored ≡ stored → IsComing stored t v n s
  at_pushing : s.pc t ≡ pushing v s.head → 1 ≤ n → s.stored ≡ stored → IsComing stored t v n s

here : (s : AtomicList) (t : ℕ) (p : Pc) → (move_to s t p).pc t ≡ p
here s t p = rw (==_of_eq t t refl) refl

advance-IsComing :
    (stored : List ℕ) (t v n : ℕ) (s : AtomicList)
    → ((k : ℕ) → next_of s k ≤ k)
    → IsComing stored t v (suc n) s
    → IsComing stored t v n (advance s t)
unfolding advance step_at
advance-IsComing stored t v n s c (returned e f) = rw (advance, e) (returned e f)
advance-IsComing stored t v n s c (at_reading zero e le f) =
    rw (advance, e) (at_pushing (here s t (pushing v s.head)) (omega (arith, le)) f)
advance-IsComing stored t v n s c (at_reading (suc k) e le f) =
    elim (Bool-cases (value_of s k == 0)) [
      | inl g ↦ rw (advance, e, g) (at_trying k (here s t (trying v k)) (omega (arith, le)) f)
      | inr g ↦
          rw (advance, e, g)
            (at_reading (next_of s k) (here s t (reading v (next_of s k))) (omega (arith, le, c k))
              f)
    ]
advance-IsComing stored t v n s c (at_trying k e le f) = elim (Bool-cases (value_of s k == 0)) [
  | inl g ↦ rw (advance, e, g) (returned (here s t idle) (ap (λ l. v ∷ l) f))
  | inr g ↦
      rw (advance, e, g)
        (at_reading (next_of s k) (here s t (reading v (next_of s k))) (omega (arith, le, c k)) f)
]
advance-IsComing stored t v n s c (at_pushing e le f) =
    rw (advance, e, ==_of_eq s.head s.head refl) (returned (here s t idle) (ap (λ l. v ∷ l) f))
advance-IsComing stored t v n s c (at_retrying old e le f) = elim (Bool-cases (s.head == old)) [
  | inl g ↦ rw (advance, e, g) (returned (here s t idle) (ap (λ l. v ∷ l) f))
  | inr g ↦ rw (advance, e, g) (at_pushing (here s t (pushing v s.head)) (omega (arith, le)) f)
]

advance-IsSound : (s : AtomicList) (t : ℕ) → IsSound s → IsSound (advance s t)
unfolding advance
advance-IsSound s t i = step_at-IsSound s t (s.pc t) i (i.known t)

alone-IsComing :
    (stored : List ℕ) (t v n : ℕ) (s : AtomicList)
    → IsSound s
    → IsComing stored t v n s
    → IsComing stored t v 0 (alone s t n)
alone-IsComing stored t v zero s i h = h
alone-IsComing stored t v (suc n) s i h =
    alone-IsComing stored t v n (advance s t) (advance-IsSound s t i)
      (advance-IsComing stored t v n s i.chained h)

came :
    (stored : List ℕ) (t v : ℕ) (s : AtomicList)
    → IsComing stored t v 0 s
    → (s.pc t ≡ idle) × (s.stored ≡ v ∷ stored)
came stored t v s (returned e f) = (e, f)
came stored t v s (at_reading k e le f) = absurd (omega (arith, le))
came stored t v s (at_trying k e le f) = absurd (omega (arith, le))
came stored t v s (at_retrying old e le f) = absurd (omega (arith, le))
came stored t v s (at_pushing e le f) = absurd (omega (arith, le))

-- The value that the thread puts.
abbrev pub putting : Pc → Option ℕ
putting (reading v k) = some v
putting (trying v k) = some v
putting (pushing v old) = some v
putting _ = none

abbrev value_or : Option ℕ → ℕ
value_or none = 0
value_or (some v) = v

put-IsComing :
    (t v : ℕ) (s : AtomicList) (p : Pc)
    → s.pc t ≡ p
    → Knows s.values p
    → putting p ≡ some v
    → IsComing s.stored t v (2 * length s.values + 3) s
put-IsComing t v s idle e k h = absurd (ground (arith, h))
put-IsComing t v s (dismissing j w) e k h = absurd (ground (arith, h))
put-IsComing t v s (reading w j) e k h =
    at_reading j (e ∙ ap (λ x. reading x j) (ap value_or h)) (omega (arith, k)) refl
put-IsComing t v s (trying w j) e k h =
    at_trying j (e ∙ ap (λ x. trying x j) (ap value_or h)) (omega (arith, k)) refl
put-IsComing t v s (pushing w old) e k h =
    at_retrying old (e ∙ ap (λ x. pushing x old) (ap value_or h)) (omega arith) refl

-- Whatever has happened and wherever the other threads have stopped, a thread in `put` returns by
-- its own steps, at most two for each node and three more, and has then stored its value.
pub put_returns :
    (l : List Move) (t v : ℕ)
    → putting ((run new_list l).pc t) ≡ some v
    → let s = run new_list l in
      let s' = alone s t (2 * length s.values + 3) in (s'.pc t ≡ idle) × (s'.stored ≡ v ∷ s.stored)
put_returns l t v h =
    let s = run new_list l in
    let i = run-IsSound new_list l new_list-IsSound in
    let n = 2 * length s.values + 3 in
    came s.stored t v (alone s t n)
      (alone-IsComing s.stored t v n s i (put-IsComing t v s (s.pc t) refl (i.known t) h))

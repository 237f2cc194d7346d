-- ===== src/Threads/Facts.antt =====
-- What parent and child know of each other, by where they stand.
use mathlib.Core.Bool.{true≢false}
use unix_thread_ipc.Prelude.{ℕ, ◌<◌, ◌≡◌, ◌⊎◌, inl, inr, refl, Bool, true, false, arith}
use unix_thread_ipc.Threads.{
  Parent, idle, waiting, started, joined, Child, absent, created, initialised, identified, marked,
  running, returned, ended,
}

-- The thread has ended.
abbrev pub IsEnded : Child → Type 0
IsEnded ended = Unit
IsEnded c = ⊥

-- How far the child has come.
abbrev pub rank : Child → ℕ
rank absent = 0
rank created = 1
rank initialised = 2
rank identified = 3
rank marked = 4
rank running = 5
rank returned = 6
rank ended = 7

module _ (child : ℕ) where
  -- The fields of the `Thread` and of its `ThreadInternal`, and whether the child has a queue, by
  -- where the child stands.
  abbrev pub ChildFacts :
      Child → (id : ℕ) (is_running event : Bool) (handle : ℕ) (has : Bool) → Type 0
  ChildFacts absent id r e h has = (id ≡ 0) × (r ≡ false) × (e ≡ false) × (h ≡ 0)
  ChildFacts created id r e h has = (id ≡ 0) × (r ≡ false) × (e ≡ false) × (h ≡ child)
  ChildFacts initialised id r e h has =
      (id ≡ 0) × (r ≡ false) × (e ≡ false) × (h ≡ child) × (has ≡ true)
  ChildFacts identified id r e h has =
      (id ≡ child) × (r ≡ false) × (e ≡ false) × (h ≡ child) × (has ≡ true)
  ChildFacts marked id r e h has =
      (id ≡ child) × (r ≡ true) × (e ≡ false) × (h ≡ child) × (has ≡ true)
  ChildFacts running id r e h has = (id ≡ child) × (r ≡ true) × (h ≡ child) × (has ≡ true)
  ChildFacts returned id r e h has = (id ≡ child) × (r ≡ false) × (h ≡ child) × (has ≡ true)
  ChildFacts ended id r e h has = r ≡ false

  -- What the parent can rely on. It is woken behind the `Signal` of `ThreadMain`.
  abbrev pub ParentFacts : Parent → Child → (id handle : ℕ) → Type 0
  ParentFacts idle c id h = rank c ≡ 0
  ParentFacts waiting c id h = (0 < rank c) × (rank c ≡ 7 → (id ≡ child) × (h ≡ child))
  ParentFacts (started n) c id h =
      ((n ≡ 0) × (rank c ≡ 0)) ⊎ ((n ≡ child) × (4 < rank c) × (id ≡ child) × (h ≡ child))
  ParentFacts joined c id h = (rank c ≡ 7) × (id ≡ 0) × (h ≡ 0)

  -- Until the child has signalled, the parent waits.
  pub early-ParentFacts :
      (q : Parent) (c c' : Child) (id h id' h' : ℕ)
      → (0 < rank c) × (rank c < 5)
      → (0 < rank c') × (rank c' < 7)
      → ParentFacts q c id h
      → ParentFacts q c' id' h'
  early-ParentFacts idle c c' id h id' h' early next facts = absurd (omega arith)
  early-ParentFacts waiting c c' id h id' h' early next facts = (next.0, λ e. absurd (omega arith))
  early-ParentFacts (started n) c c' id h id' h' early next (inl facts) = absurd (omega arith)
  early-ParentFacts (started n) c c' id h id' h' early next (inr facts) = absurd (omega arith)
  early-ParentFacts joined c c' id h id' h' early next facts = absurd (omega arith)

  pub late-ParentFacts :
      (q : Parent) (c c' : Child) (id h : ℕ)
      → (4 < rank c) × (rank c < 7)
      → 4 < rank c'
      → (id ≡ child) × (h ≡ child)
      → ParentFacts q c id h
      → ParentFacts q c' id h
  late-ParentFacts idle c c' id h late next here facts = absurd (omega arith)
  late-ParentFacts waiting c c' id h late next here facts = (omega arith, λ e. here)
  late-ParentFacts (started n) c c' id h late next here (inl facts) = absurd (omega arith)
  late-ParentFacts (started n) c c' id h late next here (inr (n_is, began, i, handle)) =
      inr (n_is, next, i, handle)
  late-ParentFacts joined c c' id h late next here facts = absurd (omega arith)

  pub wake-ChildFacts :
      (c : Child) (id h : ℕ) (r : Bool) (has : Bool)
      → ChildFacts c id r true h has
      → ParentFacts waiting c id h
      → ChildFacts c id r false h has × ParentFacts (started id) c id h
  wake-ChildFacts absent id h r has facts wait = absurd (omega arith)
  wake-ChildFacts created id h r has (_, _, e, _) wait = absurd (true≢false e)
  wake-ChildFacts initialised id h r has (_, _, e, _, _) wait = absurd (true≢false e)
  wake-ChildFacts identified id h r has (_, _, e, _, _) wait = absurd (true≢false e)
  wake-ChildFacts marked id h r has (_, _, e, _, _) wait = absurd (true≢false e)
  wake-ChildFacts running id h r has (i, run, handle, queue) wait =
      ((i, run, handle, queue), inr (i, omega arith, i, handle))
  wake-ChildFacts returned id h r has (i, run, handle, queue) wait =
      ((i, run, handle, queue), inr (i, omega arith, i, handle))
  wake-ChildFacts ended id h r has facts wait =
      let (i, handle) = wait.1 refl in (facts, inr (i, omega arith, i, handle))

  pub queue-ChildFacts :
      (c : Child) (id h : ℕ) (r e : Bool) (has has' : Bool)
      → (has ≡ true → has' ≡ true)
      → ChildFacts c id r e h has
      → ChildFacts c id r e h has'
  queue-ChildFacts absent id h r e has has' keep facts = facts
  queue-ChildFacts created id h r e has has' keep facts = facts
  queue-ChildFacts initialised id h r e has has' keep (a, b, c, d, q) = (a, b, c, d, keep q)
  queue-ChildFacts identified id h r e has has' keep (a, b, c, d, q) = (a, b, c, d, keep q)
  queue-ChildFacts marked id h r e has has' keep (a, b, c, d, q) = (a, b, c, d, keep q)
  queue-ChildFacts running id h r e has has' keep (a, b, c, q) = (a, b, c, keep q)
  queue-ChildFacts returned id h r e has has' keep (a, b, c, q) = (a, b, c, keep q)
  queue-ChildFacts ended id h r e has has' keep facts = facts

  pub absent-ChildFacts :
      (c : Child) (id h : ℕ) (r e has : Bool)
      → rank c ≡ 0
      → ChildFacts c id r e h has
      → (id ≡ 0) × (h ≡ 0)
  absent-ChildFacts absent id h r e has first facts = (facts.0, facts.3)
  absent-ChildFacts created id h r e has first facts = absurd (omega arith)
  absent-ChildFacts initialised id h r e has first facts = absurd (omega arith)
  absent-ChildFacts identified id h r e has first facts = absurd (omega arith)
  absent-ChildFacts marked id h r e has first facts = absurd (omega arith)
  absent-ChildFacts running id h r e has first facts = absurd (omega arith)
  absent-ChildFacts returned id h r e has first facts = absurd (omega arith)
  absent-ChildFacts ended id h r e has first facts = absurd (omega arith)

  pub begun-ChildFacts :
      (c : Child) (id h : ℕ) (r e has : Bool)
      → 4 < rank c
      → ChildFacts c id r e h has
      → IsEnded c ⊎ (has ≡ true)
  begun-ChildFacts absent id h r e has begun facts = absurd (omega arith)
  begun-ChildFacts created id h r e has begun facts = absurd (omega arith)
  begun-ChildFacts initialised id h r e has begun facts = absurd (omega arith)
  begun-ChildFacts identified id h r e has begun facts = absurd (omega arith)
  begun-ChildFacts marked id h r e has begun facts = absurd (omega arith)
  begun-ChildFacts running id h r e has begun facts = inr facts.3
  begun-ChildFacts returned id h r e has begun facts = inr facts.3
  begun-ChildFacts ended id h r e has begun facts = inl tt

  pub last-ChildFacts :
      (c : Child) (id h : ℕ) (r e has : Bool)
      → rank c ≡ 7
      → ChildFacts c id r e h has
      → IsEnded c × (r ≡ false)
  last-ChildFacts absent id h r e has last facts = absurd (omega arith)
  last-ChildFacts created id h r e has last facts = absurd (omega arith)
  last-ChildFacts initialised id h r e has last facts = absurd (omega arith)
  last-ChildFacts identified id h r e has last facts = absurd (omega arith)
  last-ChildFacts marked id h r e has last facts = absurd (omega arith)
  last-ChildFacts running id h r e has last facts = absurd (omega arith)
  last-ChildFacts returned id h r e has last facts = absurd (omega arith)
  last-ChildFacts ended id h r e has last facts = (tt, facts)

-- ===== src/AtomicList.antt =====
-- AtomicList of common/atomic_list.h: a list that threads add to without a lock.
--
-- Nodes are numbered in the order in which they are put into the list, and are never freed; node `k`
-- has `values[k]` and `nexts[k]`. A pointer is 0 for NULL and k + 1 for node `k`. Values are numbers,
-- 0 for `default_value()`. Each read and each CompareAndSwap of shared memory is one step of a
-- thread, and the steps of the threads may interleave in any order. `stored` collects the values
-- whose `put` has returned.
pub mod Invariant
pub mod Progress
mod Tests
use unix_thread_ipc.Prelude.{
  ℕ, zero, suc, Bool, true, false, List, [], ◌∷◌, ◌++◌, ltb, ◌==◌, if◌then◌else◌, length, get_or,
  set,
}

-- Where a thread is.
pub data Pc : Type 0 where
  idle : Pc
  reading : (value head : ℕ) → Pc  -- `put`, at the test of its loop
  trying : (value node : ℕ) → Pc  -- `put`, at the CompareAndSwap of a node that was empty
  pushing : (value old : ℕ) → Pc  -- `push_front`, at the CompareAndSwap of `head_`
  dismissing : (node value : ℕ) → Pc  -- `dismiss`, at its CompareAndSwap

pub record AtomicList : Type 0 where
  pub values : List ℕ
  pub nexts : List ℕ
  pub head : ℕ
  pub pc : ℕ → Pc
  pub stored : List ℕ

abbrev pub new_list : AtomicList
new_list = record { values = []; nexts = []; head = 0; pc = λ t. idle; stored = [] }

abbrev pub value_of : AtomicList → ℕ → ℕ
value_of s k = get_or s.values k 0

abbrev pub next_of : AtomicList → ℕ → ℕ
next_of s k = get_or s.nexts k 0

abbrev pub move_to : AtomicList → ℕ → Pc → AtomicList
move_to s t p = record s { pc = λ i. if i == t then p else s.pc i }

-- `put` has stored its value and returns.
abbrev pub finish : AtomicList → ℕ → ℕ → AtomicList
finish s t v = record (move_to s t idle) { stored = v ∷ s.stored }

-- One step of thread `t`, which is at `p`.
unfoldable pub step_at : AtomicList → ℕ → Pc → AtomicList
step_at s t idle = s
step_at s t (reading v zero) = move_to s t (pushing v s.head)
step_at s t (reading v (suc k)) =
    move_to s t (if value_of s k == 0 then trying v k else reading v (next_of s k))
step_at s t (trying v k) =
    if value_of s k == 0
    then finish (record s { values = set s.values k v }) t v
    else move_to s t (reading v (next_of s k))
step_at s t (pushing v old) =
    if s.head == old
    then finish
        (record s {
          values = s.values ++ (v ∷ []);
          nexts = s.nexts ++ (old ∷ []);
          head = suc (length s.values);
        })
        t v
    else move_to s t (pushing v s.head)
step_at s t (dismissing k v) =
    if value_of s k == 0
    then move_to (record s { values = set s.values k v }) t idle
    else move_to s t idle

unfoldable pub advance : AtomicList → ℕ → AtomicList
unfolding step_at
advance s t = step_at s t (s.pc t)

-- What a thread does next: it calls `put`, or `dismiss` on an iterator, or takes a step.
pub data Move : Type 0 where
  put : (thread value : ℕ) → Move
  dismiss : (thread node : ℕ) → Move
  go_on : (thread : ℕ) → Move

abbrev pub is_idle : Pc → Bool
is_idle idle = true
is_idle _ = false

-- A call, if the thread is in none; `dismiss` reads the value of a node that there is.
unfoldable pub make : AtomicList → Move → AtomicList
unfolding advance
make s (put t v) = if is_idle (s.pc t) then move_to s t (reading v s.head) else s
make s (dismiss t k) =
    if is_idle (s.pc t)
    then (if ltb k (length s.values) then move_to s t (dismissing k (value_of s k)) else s)
    else s
make s (go_on t) = advance s t

unfoldable pub run : AtomicList → List Move → AtomicList
unfolding make
run s [] = s
run s (m ∷ rest) = run (make s m) rest

-- ===== src/AtomicList/Invariant.antt =====
-- What the threads keep true of the list.
use unix_thread_ipc.Prelude.{
  ℕ, zero, suc, ◌≤◌, ◌<◌, ◌≡◌, ◌≢◌, ◌⊎◌, refl, sym, ap, ◌∙◌, Bool, true, false, List, [], ◌∷◌, ◌++◌,
  arith, ltb, ◌==◌, if◌then◌else◌, length, get_or, set, length-append, length-set, Bool-cases, inl,
  inr, ==_iff, get_or-set,
}
use unix_thread_ipc.Registry.Cells.{count, count-append}
use unix_thread_ipc.AtomicList.{
  Pc, idle, reading, trying, pushing, dismissing, AtomicList, new_list, value_of, next_of, move_to,
  finish, step_at, advance, Move, put, dismiss, go_on, is_idle, make, run,
}

-- What a thread knows: its nodes exist, and the value that `dismiss` has read stays.
abbrev pub Knows : List ℕ → Pc → Type 0
Knows xs idle = Unit
Knows xs (reading v k) = k ≤ length xs
Knows xs (trying v k) = k < length xs
Knows xs (pushing v old) = Unit
Knows xs (dismissing k v) = (k < length xs) × ((v ≡ 0) ⊎ (get_or xs k 0 ≡ v))

pub record IsSound (s : AtomicList) : Type 0 where
  pub sizes : length s.nexts ≡ length s.values
  pub first : s.head ≡ length s.values
  pub chained : (k : ℕ) → next_of s k ≤ k
  pub known : (t : ℕ) → Knows s.values (s.pc t)
  pub kept : (v : ℕ) → v ≢ 0 → count v s.values ≡ count v s.stored

count-set :
    (v u k : ℕ) (xs : List ℕ)
    → v ≢ 0
    → k < length xs
    → get_or xs k 0 ≡ 0
    → count v (set xs k u) ≡ count v (u ∷ xs)
count-set v u k [] ne lt e = absurd (omega arith)
count-set v u zero (x ∷ xs) ne lt e = ground (arith, e)
count-set v u (suc k) (x ∷ xs) ne lt e = ground (arith, count-set v u k xs ne (omega arith) e)

get_or-append :
    (xs : List ℕ) (u k : ℕ) → k < length xs → get_or (xs ++ (u ∷ [])) k 0 ≡ get_or xs k 0
get_or-append [] u k lt = absurd (omega arith)
get_or-append (x ∷ xs) u zero lt = refl
get_or-append (x ∷ xs) u (suc k) lt = get_or-append xs u k (omega arith)

appended_le :
    (xs : List ℕ) (u k b : ℕ)
    → get_or xs k 0 ≤ b
    → (k ≡ length xs → u ≤ b)
    → get_or (xs ++ (u ∷ [])) k 0 ≤ b
appended_le [] u zero b h g = g refl
appended_le [] u (suc k) b h g = omega arith
appended_le (x ∷ xs) u zero b h g = h
appended_le (x ∷ xs) u (suc k) b h g = appended_le xs u k b h (λ e. g (ap suc e))

appended_next :
    (xs : List ℕ) (u k : ℕ)
    → ((j : ℕ) → get_or xs j 0 ≤ j)
    → u ≤ length xs
    → get_or (xs ++ (u ∷ [])) k 0 ≤ k
appended_next xs u k h le = appended_le xs u k k (h k) (λ e. omega (arith, e, le))

-- The nodes grow in number, and a value that is not the default stays.
abbrev Grows : List ℕ → List ℕ → Type 0
Grows xs ys =
    (length xs ≤ length ys)
    × ((k : ℕ) → k < length xs → (get_or xs k 0 ≡ 0) ⊎ (get_or ys k 0 ≡ get_or xs k 0))

Knows-Grows : (xs ys : List ℕ) (p : Pc) → Grows xs ys → Knows xs p → Knows ys p
Knows-Grows xs ys idle g h = tt
Knows-Grows xs ys (reading v k) g h = omega (arith, g.0, h)
Knows-Grows xs ys (trying v k) g h = omega (arith, g.0, h)
Knows-Grows xs ys (pushing v old) g h = tt
Knows-Grows xs ys (dismissing k v) g h = (omega (arith, g.0, h.0), ground (arith, h.1, g.1 k h.0))

set-Grows : (xs : List ℕ) (k u : ℕ) → k < length xs → get_or xs k 0 ≡ 0 → Grows xs (set xs k u)
set-Grows xs k u lt e =
    (omega (arith, length-set xs k u), λ j j_lt. ground (arith, get_or-set xs k j u 0 lt, e))

append-Grows : (xs : List ℕ) (u : ℕ) → Grows xs (xs ++ (u ∷ []))
append-Grows xs u =
    (omega (arith, length-append xs (u ∷ [])), λ j j_lt. inr (get_or-append xs u j j_lt))

Grows-self : (xs : List ℕ) → Grows xs xs
Grows-self xs = (omega arith, λ k lt. inr refl)

-- The knowledge of all threads, when `t` has moved to `p`.
all_know :
    (xs ys : List ℕ) (pc : ℕ → Pc) (t : ℕ) (p : Pc)
    → Grows xs ys
    → ((i : ℕ) → Knows xs (pc i))
    → Knows ys p
    → (i : ℕ) → Knows ys (if i == t then p else pc i)
all_know xs ys pc t p g known k i = elim (Bool-cases (i == t)) [
  | inl e ↦ rw (e) k
  | inr e ↦ rw (e) (Knows-Grows xs ys (pc i) g (known i))
]

-- A step that only moves its thread.
move_to-IsSound :
    (s : AtomicList) (t : ℕ) (p : Pc) → IsSound s → Knows s.values p → IsSound (move_to s t p)
move_to-IsSound s t p v k = record {
  sizes = v.sizes;
  first = v.first;
  chained = v.chained;
  known = all_know s.values s.values s.pc t p (Grows-self s.values) v.known k;
  kept = v.kept;
}

-- `put` has found an empty node.
filled-IsSound :
    (s : AtomicList) (t v k : ℕ)
    → IsSound s
    → k < length s.values
    → value_of s k ≡ 0
    → IsSound (finish (record s { values = set s.values k v }) t v)
filled-IsSound s t v k i lt e = record {
  sizes = i.sizes ∙ sym (length-set s.values k v);
  first = i.first ∙ sym (length-set s.values k v);
  chained = i.chained;
  known = all_know s.values (set s.values k v) s.pc t idle (set-Grows s.values k v lt e) i.known tt;
  kept = λ w ne. ground (arith, count-set w v k s.values ne lt e, i.kept w ne);
}

-- `push_front` has set the head.
pushed-IsSound :
    (s : AtomicList) (t v old : ℕ)
    → IsSound s
    → s.head ≡ old
    → IsSound (
        finish
          (record s {
            values = s.values ++ (v ∷ []);
            nexts = s.nexts ++ (old ∷ []);
            head = suc (length s.values);
          })
          t
          v)
pushed-IsSound s t v old i e = record {
  sizes = omega (arith, length-append s.nexts (old ∷ []), length-append s.values (v ∷ []), i.sizes);
  first = omega (arith, length-append s.values (v ∷ []));
  chained = λ k. appended_next s.nexts old k i.chained (omega (arith, i.sizes, i.first, e));
  known = all_know s.values (s.values ++ (v ∷ [])) s.pc t idle (append-Grows s.values v) i.known tt;
  kept = λ w ne. ground (arith, count-append w s.values (v ∷ []), i.kept w ne);
}

-- `dismiss` writes only what was there.
dismissed-IsSound :
    (s : AtomicList) (t k v : ℕ)
    → IsSound s
    → k < length s.values
    → (v ≡ 0) ⊎ (value_of s k ≡ v)
    → value_of s k ≡ 0
    → IsSound (move_to (record s { values = set s.values k v }) t idle)
dismissed-IsSound s t k v i lt h e = record {
  sizes = i.sizes ∙ sym (length-set s.values k v);
  first = i.first ∙ sym (length-set s.values k v);
  chained = i.chained;
  known = all_know s.values (set s.values k v) s.pc t idle (set-Grows s.values k v lt e) i.known tt;
  kept = λ w ne. ground (arith, count-set w v k s.values ne lt e, i.kept w ne, h, e);
}

pub step_at-IsSound :
    (s : AtomicList) (t : ℕ) (p : Pc) → IsSound s → Knows s.values p → IsSound (step_at s t p)
unfolding step_at
step_at-IsSound s t idle i k = i
step_at-IsSound s t (reading v zero) i k = move_to-IsSound s t (pushing v s.head) i tt
step_at-IsSound s t (reading v (suc j)) i k = elim (Bool-cases (value_of s j == 0)) [
  | inl e ↦ rw (step_at, e) (move_to-IsSound s t (trying v j) i (omega (arith, k)))
  | inr e ↦
      rw (step_at, e)
        (move_to-IsSound s t (reading v (next_of s j)) i (omega (arith, k, i.chained j)))
]
step_at-IsSound s t (trying v j) i k = elim (Bool-cases (value_of s j == 0)) [
  | inl e ↦ rw (step_at, e) (filled-IsSound s t v j i k ((==_iff (value_of s j) 0).0 e))
  | inr e ↦
      rw (step_at, e)
        (move_to-IsSound s t (reading v (next_of s j)) i (omega (arith, k, i.chained j)))
]
step_at-IsSound s t (pushing v old) i k = elim (Bool-cases (s.head == old)) [
  | inl e ↦ rw (step_at, e) (pushed-IsSound s t v old i ((==_iff s.head old).0 e))
  | inr e ↦ rw (step_at, e) (move_to-IsSound s t (pushing v s.head) i tt)
]
step_at-IsSound s t (dismissing j v) i k = elim (Bool-cases (value_of s j == 0)) [
  | inl e ↦ rw (step_at, e) (dismissed-IsSound s t j v i k.0 k.1 ((==_iff (value_of s j) 0).0 e))
  | inr e ↦ rw (step_at, e) (move_to-IsSound s t idle i tt)
]

either-IsSound :
    (b : Bool) (s s' : AtomicList)
    → IsSound s
    → (b ≡ true → IsSound s')
    → IsSound (if b then s' else s)
either-IsSound true s s' h k = k refl
either-IsSound false s s' h k = h

make-IsSound : (s : AtomicList) (m : Move) → IsSound s → IsSound (make s m)
unfolding make advance
make-IsSound s (put t v) i =
    either-IsSound (is_idle (s.pc t)) s (move_to s t (reading v s.head)) i
      (λ e. move_to-IsSound s t (reading v s.head) i (omega (arith, i.first)))
make-IsSound s (dismiss t k) i =
    let s' = move_to s t (dismissing k (value_of s k)) in
    let c = ltb k (length s.values) in
    either-IsSound (is_idle (s.pc t)) s (if c then s' else s) i (λ e.
      either-IsSound c s s' i
        (λ f. move_to-IsSound s t (dismissing k (value_of s k)) i (ground (arith, f), inr refl)))
make-IsSound s (go_on t) i = step_at-IsSound s t (s.pc t) i (i.known t)

pub run-IsSound : (s : AtomicList) (l : List Move) → IsSound s → IsSound (run s l)
unfolding run
run-IsSound s [] i = i
run-IsSound s (m ∷ l) i = run-IsSound (make s m) l (make-IsSound s m i)

pub new_list-IsSound : IsSound new_list
new_list-IsSound = record {
  sizes = refl;
  first = refl;
  chained = λ k. omega arith;
  known = λ t. tt;
  kept = λ v ne. refl;
}

-- In every interleaving of any number of threads, each value other than the default is in the list
-- as often as calls of `put` with it have returned: none is lost or doubled, and no `dismiss` takes
-- one out.
pub run-kept :
    (l : List Move) (v : ℕ)
    → v ≢ 0
    → count v (run new_list l).values ≡ count v (run new_list l).stored
run-kept l = (run-IsSound new_list l new_list-IsSound).kept

-- ===== src/Registry/Cells.antt =====
-- The array of the registry, read as a list of processes followed by zeros.
use unix_thread_ipc.Prelude.{
  ℕ, zero, suc, ◌+◌, ◌≤◌, ◌≡◌, ◌≢◌, ◌⊎◌, inl, inr, refl, ap, none, some, List, [], ◌∷◌, ◌++◌, arith,
  ==_iff, Bool-cases, ◌==◌, if◌then◌else◌, length, get_or, set, drop, replicate,
}
use unix_thread_ipc.Registry.{Registry, max_processes, find_id, last_valid, valid_prefix}

-- How often a number occurs.
abbrev pub count : ℕ → List ℕ → ℕ
count x [] = 0
count x (y ∷ ys) = let rest = count x ys in if y == x then suc rest else rest

-- The registry holds the processes `ids`, each once, and no other, in this order from index 0.
pub record Holds (r : Registry) (ids : List ℕ) : Type 0 where
  pub free : ℕ
  pub cells : r.processes ≡ ids ++ replicate free 0
  pub size : length ids + free ≡ max_processes
  pub nonzero : count 0 ids ≡ 0
  pub unique : (x : ℕ) → count x ids ≤ 1

pub count-append : (x : ℕ) (xs ys : List ℕ) → count x (xs ++ ys) ≡ count x xs + count x ys
count-append x [] ys = omega arith
count-append x (y ∷ xs) ys = ground (arith, count-append x xs ys)

pub set-append : (xs ys : List ℕ) (x y : ℕ) → set (xs ++ (x ∷ ys)) (length xs) y ≡ xs ++ (y ∷ ys)
set-append [] ys x y = refl
set-append (z ∷ xs) ys x y = ap (λ l. z ∷ l) (set-append xs ys x y)

pub get_or-append : (xs ys : List ℕ) (x d : ℕ) → get_or (xs ++ (x ∷ ys)) (length xs) d ≡ x
get_or-append [] ys x d = refl
get_or-append (z ∷ xs) ys x d = get_or-append xs ys x d

pub drop-suc_append : (xs ys : List ℕ) (x : ℕ) → drop (suc (length xs)) (xs ++ (x ∷ ys)) ≡ ys
drop-suc_append [] ys x = refl
drop-suc_append (z ∷ xs) ys x = drop-suc_append xs ys x

-- A search finds the first occurrence, if there is one.
pub find_id-first :
    (id : ℕ) (xs ys : List ℕ) → count id xs ≡ 0 → find_id id (xs ++ (id ∷ ys)) ≡ some (length xs)
unfolding find_id
find_id-first id [] ys h = ground arith
find_id-first id (x ∷ xs) ys h = ground (arith, find_id-first id xs ys)

pub find_id-none : (id : ℕ) (xs : List ℕ) → count id xs ≡ 0 → find_id id xs ≡ none
unfolding find_id
find_id-none id [] h = refl
find_id-none id (x ∷ xs) h = ground (arith, find_id-none id xs)

pub split_at_first :
    (id : ℕ) (xs : List ℕ)
    → (count id xs ≡ 0)
      ⊎ ((before : List ℕ) × (after : List ℕ) × (xs ≡ before ++ (id ∷ after))
          × (count id before ≡ 0))
split_at_first id [] = inl refl
split_at_first id (x ∷ xs) = elim (Bool-cases (x == id)) [
  | inl here ↦ inr ([], xs, ap (λ k. k ∷ xs) ((==_iff x id).0 here), refl)
  | inr other ↦ elim (split_at_first id xs) [
    | inl nowhere ↦ inl (ground arith)
    | inr (before, after, e, h) ↦ inr (x ∷ before, after, ap (λ l. x ∷ l) e, ground arith)
  ]
]

pub split_at_last :
    (xs : List ℕ) → (xs ≡ []) ⊎ ((before : List ℕ) × (x : ℕ) × (xs ≡ before ++ (x ∷ [])))
split_at_last [] = inl refl
split_at_last (x ∷ xs) = elim (split_at_last xs) [
  | inl e ↦ inr ([], x, ap (λ l. x ∷ l) e)
  | inr (before, y, e) ↦ inr (x ∷ before, y, ap (λ l. x ∷ l) e)
]

pub count-replicate : (x n : ℕ) → x ≢ 0 → count x (replicate n 0) ≡ 0
count-replicate x zero h = refl
count-replicate x (suc n) h = ground (arith, count-replicate x n h)

pub last_valid_lem :
    (i : ℕ) (xs : List ℕ) (n : ℕ)
    → count 0 xs ≡ 0
    → last_valid i (xs ++ replicate n 0) ≡ i + length xs
unfolding last_valid
last_valid_lem i [] zero h = omega arith
last_valid_lem i [] (suc n) h = ground arith
last_valid_lem i (x ∷ xs) n h = ground (arith, last_valid_lem (suc i) xs n)

pub valid_prefix_lem :
    (xs : List ℕ) (n : ℕ) → count 0 xs ≡ 0 → valid_prefix (xs ++ replicate n 0) ≡ xs
unfolding valid_prefix
valid_prefix_lem [] zero h = refl
valid_prefix_lem [] (suc n) h = refl
valid_prefix_lem (x ∷ xs) n h = ground (arith, valid_prefix_lem xs n)

-- ===== src/Registry/Changes.antt =====
-- How `Remove` changes the array, by where the process stands in it.
use unix_thread_ipc.Prelude.{
  ℕ, suc, ◌+◌, ◌≡◌, ◌≢◌, inl, inr, refl, sym, ap, ◌∙◌, true, false, none, some, List, [], ◌∷◌, ◌++◌,
  append_assoc, arith, ==_of_eq, ==_of_ne, length, length-append, get_or, set, replicate,
}
use unix_thread_ipc.Registry.{Registry, bump, last_valid, writes, removal, remove_states, remove}
use unix_thread_ipc.Registry.Cells.{
  count, Holds, count-append, set-append, get_or-append, drop-suc_append, find_id-first,
  find_id-none, split_at_first, split_at_last, count-replicate, last_valid_lem,
}

-- The entry `l` behind `before`, `x` and `between`.
far_get :
    (before between ys : List ℕ) (x l : ℕ)
    → get_or (before ++ (x ∷ (between ++ (l ∷ ys)))) (length before + suc (length between)) 0 ≡ l
far_get before between ys x l =
    rw (← append_assoc before (x ∷ between) (l ∷ ys), ← length-append before (x ∷ between))
      (get_or-append (before ++ (x ∷ between)) ys l 0)

far_set :
    (before between ys : List ℕ) (x l y : ℕ)
    → set (before ++ (x ∷ (between ++ (l ∷ ys)))) (length before + suc (length between)) y
      ≡ before ++ (x ∷ (between ++ (y ∷ ys)))
far_set before between ys x l y =
    rw (← append_assoc before (x ∷ between) (l ∷ ys), ← length-append before (x ∷ between))
      (set-append (before ++ (x ∷ between)) ys l y ∙ append_assoc before (x ∷ between) (y ∷ ys))

last_index :
    (i : ℕ) (between : List ℕ) (l n : ℕ)
    → count 0 (between ++ (l ∷ [])) ≡ 0
    → last_valid i (between ++ (l ∷ replicate n 0)) ≡ i + suc (length between)
last_index i between l n h =
    ap (last_valid i) (sym (append_assoc between (l ∷ []) (replicate n 0)))
    ∙ last_valid_lem i (between ++ (l ∷ [])) n h
    ∙ omega (arith, length-append between (l ∷ []))

writes-inner :
    (before between ys : List ℕ) (x l : ℕ)
    → writes
        (before ++ (x ∷ (between ++ (l ∷ ys))))
        (length before)
        (length before + suc (length between))
      ≡ (before ++ (l ∷ (between ++ (l ∷ ys)))) ∷ (before ++ (l ∷ (between ++ (0 ∷ ys)))) ∷ []
writes-inner before between ys x l =
    rw
      (
        ==_of_ne (length before + suc (length between)) (length before) (omega arith),
        far_get before between ys x l,
        set-append before (between ++ (l ∷ ys)) x l,
        far_set before between ys l l 0,
      )
      refl

-- The changes of the array when the process is the last one, and when `l` is.
module _ (id : ℕ) (before : List ℕ) (n : ℕ) (fresh : count id before ≡ 0) where
  pub removal-last :
      removal id (before ++ (id ∷ replicate n 0)) ≡ some ((before ++ (0 ∷ replicate n 0)) ∷ [])
  unfolding removal
  removal-last =
      rw
        (
          removal,
          find_id-first id before (replicate n 0) fresh,
          drop-suc_append before (replicate n 0) id,
          last_valid_lem (length before) [] n refl,
          ==_of_eq (length before + 0) (length before) (omega arith),
          set-append before (replicate n 0) id 0,
        )
        refl

  pub removal-inner :
      (between : List ℕ) (l : ℕ)
      → count 0 (between ++ (l ∷ [])) ≡ 0
      → removal id (before ++ (id ∷ (between ++ (l ∷ replicate n 0))))
        ≡ some (
            (before ++ (l ∷ (between ++ (l ∷ replicate n 0))))
            ∷ (before ++ (l ∷ (between ++ (0 ∷ replicate n 0))))
            ∷ [])
  unfolding removal
  removal-inner between l h =
      rw
        (
          removal,
          find_id-first id before (between ++ (l ∷ replicate n 0)) fresh,
          drop-suc_append before (between ++ (l ∷ replicate n 0)) id,
          last_index (length before) between l n h,
        )
        (ap some (writes-inner before between (replicate n 0) id l))

-- Where a process stands among the processes of the registry.
pub data Shape (id : ℕ) (ids : List ℕ) : Type 0 where
  absent : count id ids ≡ 0 → Shape id ids
  at_end : (before : List ℕ) → count id before ≡ 0 → ids ≡ before ++ (id ∷ []) → Shape id ids
  inside :
      (before between : List ℕ) (l : ℕ)
      → count id before ≡ 0
      → ids ≡ before ++ (id ∷ (between ++ (l ∷ [])))
      → Shape id ids

pub shape : (id : ℕ) (ids : List ℕ) → Shape id ids
shape id ids = elim (split_at_first id ids) [
  | inl nowhere ↦ absent nowhere
  | inr (before, after, e, fresh) ↦ elim (split_at_last after) [
    | inl nothing ↦ at_end before fresh (e ∙ ap (λ l. before ++ (id ∷ l)) nothing)
    | inr (between, l, e') ↦ inside before between l fresh (e ∙ ap (λ k. before ++ (id ∷ k)) e')
  ]
]

-- `remove` in terms of the changes of the array.
module _ (r : Registry) (id : ℕ) where
  pub remove-absent :
      removal id r.processes ≡ none → (remove r id ≡ (false, r)) × (remove_states r id ≡ [])
  unfolding remove remove_states removal
  remove-absent e = (ground arith, ground arith)

  pub remove-last :
      (xs : List ℕ)
      → removal id r.processes ≡ some (xs ∷ [])
      → (remove r id ≡ (true, record (bump r) { processes = xs }))
        × (remove_states r id ≡ bump r ∷ record (bump r) { processes = xs } ∷ [])
  unfolding remove remove_states removal
  remove-last xs e = (ground arith, ground arith)

  pub remove-inner :
      (xs ys : List ℕ)
      → removal id r.processes ≡ some (xs ∷ ys ∷ [])
      → (remove r id ≡ (true, record (bump r) { processes = ys }))
        × (remove_states r id
            ≡ bump r ∷ record (bump r) { processes = xs } ∷ record (bump r) { processes = ys } ∷ [])
  unfolding remove remove_states removal
  remove-inner xs ys e = (ground arith, ground arith)

pub removal-none :
    {r : Registry} {ids : List ℕ} (id : ℕ)
    → Holds r ids
    → id ≢ 0
    → count id ids ≡ 0
    → removal id r.processes ≡ none
unfolding removal
removal-none {ids} id v ne h =
    rw
      (
        v.cells,
        removal,
        find_id-none id (ids ++ replicate v.free 0)
            (omega (arith, count-append id ids (replicate v.free 0), count-replicate id v.free ne)),
      )
      refl

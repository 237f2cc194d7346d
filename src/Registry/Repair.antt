-- ===== src/Registry/Repair.antt =====
-- `Repair` after a process has died inside `Remove`.
use mathlib.Core.Path.{subst}
use unix_thread_ipc.Prelude.{
  ℕ, suc, ◌+◌, ◌-◌, ◌≡◌, ◌≢◌, ◌⊎◌, inl, inr, refl, sym, ap, ◌∙◌, Option, none, some, List, [], ◌∷◌,
  ◌++◌, append_assoc, arith, ◌==◌, ==_of_ne, Bool-cases, if◌then◌else◌, length, length-append,
  get_or, set, take, replicate, take-append, All,
}
use unix_thread_ipc.Registry.{Registry, bump, store, find_id, valid_prefix, remove_states, repair}
use unix_thread_ipc.Registry.Cells.{
  count, Holds, count-append, set-append, get_or-append, find_id-none, split_at_last,
  valid_prefix_lem,
}
use unix_thread_ipc.Registry.Changes.{
  absent, at_end, inside, shape, removal-none, remove-absent, remove-last, remove-inner,
}
use unix_thread_ipc.Registry.Remove.{IsWithout, count-inner, last-Holds, inner-Holds}

pick : Option ℕ → Registry → Registry → Registry
pick o r s = elim o [ none ↦ r | some i ↦ s ]

-- What `Repair` does with the entry at index `k`, the last one.
abbrev repaired : Registry → ℕ → Registry
repaired r k = pick (find_id (get_or r.processes k 0) (take k r.processes)) r (store (bump r) k 0)

repair-prefix :
    (r : Registry) (xs : List ℕ)
    → valid_prefix r.processes ≡ xs
    → repair r ≡ (if length xs == 0 then r else repaired r (length xs - 1))
unfolding repair pick
repair-prefix r xs e = ap (λ k. if length k == 0 then r else repaired r (length k - 1)) e

-- A duplicate of the last entry makes it go.
abbrev repaired_array : List ℕ → ℕ → List ℕ → Registry → Registry
repaired_array init l zeros r =
    pick (find_id l init) r (record (bump r) { processes = init ++ (0 ∷ zeros) })

add_sub_one : (k : ℕ) → (k + 1) - 1 ≡ k
add_sub_one k = omega arith

repaired-at :
    (r : Registry) (init : List ℕ) (l : ℕ) (zeros xs : List ℕ)
    → xs ≡ init ++ (l ∷ zeros)
    → pick
        (find_id (get_or xs (length init) 0) (take (length init) xs))
        r
        (record (bump r) { processes = set xs (length init) 0 })
      ≡ repaired_array init l zeros r
repaired-at r init l zeros xs e =
    rw (e, get_or-append init zeros l 0, take-append init (l ∷ zeros), set-append init zeros l 0)
      refl

repair-snoc :
    (r : Registry) (init : List ℕ) (l n : ℕ)
    → r.processes ≡ init ++ (l ∷ replicate n 0)
    → count 0 (init ++ (l ∷ [])) ≡ 0
    → repair r ≡ repaired_array init l (replicate n 0) r
repair-snoc r init l n e h =
    repair-prefix r (init ++ (l ∷ [])) (
      ap valid_prefix (e ∙ sym (append_assoc init (l ∷ []) (replicate n 0)))
      ∙ valid_prefix_lem (init ++ (l ∷ [])) n h)
    ∙ rw
        (
          length-append init (l ∷ []),
          ==_of_ne (length init + 1) 0 (omega arith),
          add_sub_one (length init),
        )
        (repaired-at r init l (replicate n 0) r.processes e)

-- `Repair` leaves a registry without duplicates as it is.
repair-Holds : {r : Registry} {ids : List ℕ} → Holds r ids → repair r ≡ r
unfolding pick
repair-Holds {r} {ids} v = elim (split_at_last ids) [
  | inl nothing ↦
      repair-prefix r [] (ap valid_prefix v.cells ∙ valid_prefix_lem ids v.free v.nonzero ∙ nothing)
  | inr (init, l, e) ↦
      repair-snoc r init l v.free
        (v.cells
          ∙ ap (λ k. k ++ replicate v.free 0) e
          ∙ append_assoc init (l ∷ []) (replicate v.free 0))
        (ap (count 0) (sym e) ∙ v.nonzero)
      ∙ ap (λ o. pick o r (record (bump r) { processes = init ++ (0 ∷ replicate v.free 0) }))
          (find_id-none l init
            (ground (arith, v.unique l, ap (count l) e ∙ count-append l init (l ∷ []))))
]

find_id-some :
    (l : ℕ) (before between : List ℕ) → (i : ℕ) × (find_id l (before ++ (l ∷ between)) ≡ some i)
unfolding find_id
find_id-some l [] between = (0, ground arith)
find_id-some l (x ∷ before) between = elim (Bool-cases (x == l)) [
  | inl here ↦ (0, rw here refl)
  | inr other ↦ let (i, found) = find_id-some l before between in (suc i, rw other (rw found refl))
]

-- A last entry that is also at the place of `x` goes.
repair-duplicate :
    (r : Registry) (before between : List ℕ) (l n : ℕ)
    → r.processes ≡ before ++ (l ∷ (between ++ (l ∷ replicate n 0)))
    → count 0 (before ++ (l ∷ (between ++ (l ∷ [])))) ≡ 0
    → repair r ≡ record (bump r) { processes = before ++ (l ∷ (between ++ (0 ∷ replicate n 0))) }
unfolding pick
repair-duplicate r before between l n e h =
    let (i, found) = find_id-some l before between in
    repair-snoc r (before ++ (l ∷ between)) l n
      (e ∙ sym (append_assoc before (l ∷ between) (l ∷ replicate n 0)))
      (ap (count 0) (append_assoc before (l ∷ between) (l ∷ [])) ∙ h)
    ∙ ap
        (λ o.
          pick o r
            (record (bump r) { processes = (before ++ (l ∷ between)) ++ (0 ∷ replicate n 0) }))
        found
    ∙ ap (λ xs. record (bump r) { processes = xs })
        (append_assoc before (l ∷ between) (0 ∷ replicate n 0))

-- A registry that needs no repair.
repaired-Holds : {r : Registry} {ids : List ℕ} → Holds r ids → Holds (repair r) ids
repaired-Holds {ids} v = subst (λ s. Holds s ids) (sym (repair-Holds v)) v

bump-Holds : {r : Registry} {ids : List ℕ} → Holds r ids → Holds (bump r) ids
bump-Holds v = record {
  free = v.free;
  cells = v.cells;
  size = v.size;
  nonzero = v.nonzero;
  unique = v.unique;
}

-- `Repair` of state `s` gives a registry either of the processes `ids` or of those without `id`.
abbrev pub IsRepaired : ℕ → List ℕ → Registry → Type 0
IsRepaired id ids s =
    (ids' : List ℕ) × Holds (repair s) ids' × ((ids' ≡ ids) ⊎ IsWithout id ids ids')

-- A process may die inside `Remove` after any of its writes. The next one to take the lock calls
-- `Repair`, and then the registry has no gaps and no duplicates, and holds the processes from
-- before the removal or those from after it.
pub repair-remove_states :
    {r : Registry} {ids : List ℕ} (id : ℕ)
    → Holds r ids
    → id ≢ 0
    → All (IsRepaired id ids) (remove_states r id)
repair-remove_states {r} {ids} id v ne = elim (shape id ids) [
  | absent nowhere ↦ rw ((remove-absent r id (removal-none id v ne nowhere)).1) tt
  | at_end before fresh e ↦
      let (run, holds, without) = last-Holds id v before fresh e in
      rw ((remove-last r id (before ++ replicate (suc v.free) 0) run).1) (
        (ids, repaired-Holds (bump-Holds v), inl refl),
        ((before, repaired-Holds (holds _ refl), inr without), tt),
      )
  | inside before between l fresh e ↦
      let (run, holds, without) = inner-Holds id v before fresh between l e in
      let torn : Registry = record (bump r) {
        processes = before ++ (l ∷ (between ++ (l ∷ replicate v.free 0)));
      } in
      let done : Registry = record (bump r) {
        processes = before ++ (l ∷ (between ++ (0 ∷ replicate v.free 0)));
      } in
      let nonzero : count 0 (before ++ (l ∷ (between ++ (l ∷ [])))) ≡ 0 = ground (
        arith,
        count-append 0 before (l ∷ (between ++ (l ∷ []))),
        count-append 0 between (l ∷ []),
        count-inner id v before fresh between l e 0,
        v.nonzero,
      ) in
      rw ((remove-inner r id torn.processes done.processes run).1) (
        (ids, repaired-Holds (bump-Holds v), inl refl),
        (
          (
            before ++ (l ∷ between),
            subst (λ s. Holds s (before ++ (l ∷ between)))
                (sym (repair-duplicate torn before between l v.free refl nonzero)) (holds _ refl),
            inr without,
          ),
          ((before ++ (l ∷ between), repaired-Holds (holds done refl), inr without), tt),
        ),
      )
]

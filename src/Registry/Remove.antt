-- ===== src/Registry/Remove.antt =====
-- What `Remove` does to the set of processes.
use unix_thread_ipc.Prelude.{
  ℕ, suc, ◌+◌, ◌≡◌, ◌≢◌, refl, sym, ap, ◌∙◌, some, List, [], ◌∷◌, ◌++◌, append_assoc, arith, ◌==◌,
  if◌then◌else◌, length, length-append, replicate, not,
}
use unix_thread_ipc.Registry.{Registry, removal, remove}
use unix_thread_ipc.Registry.Cells.{count, Holds, count-append}
use unix_thread_ipc.Registry.Changes.{
  absent, at_end, inside, shape, removal-none, removal-last, removal-inner, remove-absent,
  remove-last, remove-inner,
}

-- `ids'` are the processes `ids` without `id`.
abbrev pub IsWithout : ℕ → List ℕ → List ℕ → Type 0
IsWithout id ids ids' = (x : ℕ) → count x ids' ≡ (if x == id then 0 else count x ids)

module _ {r : Registry} {ids : List ℕ} (id : ℕ) (v : Holds r ids) (before : List ℕ)
    (fresh : count id before ≡ 0) where
  count-last :
      ids ≡ before ++ (id ∷ []) → (x : ℕ) → count x ids ≡ count x before + count x (id ∷ [])
  count-last e x = ap (count x) e ∙ count-append x before (id ∷ [])

  pub count-inner :
      (between : List ℕ) (l : ℕ)
      → ids ≡ before ++ (id ∷ (between ++ (l ∷ [])))
      → (x : ℕ)
      → count x ids ≡ count x before + (count x (id ∷ []) + (count x between + count x (l ∷ [])))
  count-inner between l e x =
      ap (count x) e
      ∙ ground (
        arith,
        count-append x before (id ∷ (between ++ (l ∷ []))),
        count-append x between (l ∷ []),
      )

  -- The array behind a removal at the end.
  pub last-Holds :
      ids ≡ before ++ (id ∷ [])
      → (removal id r.processes ≡ some ((before ++ replicate (suc v.free) 0) ∷ []))
        × ((s : Registry) → s.processes ≡ before ++ replicate (suc v.free) 0 → Holds s before)
        × IsWithout id ids before
  last-Holds e = (
    ap (removal id) (
          v.cells
          ∙ ap (λ l. l ++ replicate v.free 0) e
          ∙ append_assoc before (id ∷ []) (replicate v.free 0))
        ∙ removal-last id before v.free fresh,
    λ s c. record {
      free = suc v.free;
      cells = c;
      size = omega (arith, v.size, ap length e, length-append before (id ∷ []));
      nonzero = omega (arith, v.nonzero, count-last e 0);
      unique = λ x. omega (arith, v.unique x, count-last e x);
    },
    λ x. ground (arith, count-last e x, v.unique x, fresh),
  )

  pub inner-Holds :
      (between : List ℕ) (l : ℕ)
      → ids ≡ before ++ (id ∷ (between ++ (l ∷ [])))
      → let ids' = before ++ (l ∷ between) in
        (removal id r.processes
          ≡ some (
              (before ++ (l ∷ (between ++ (l ∷ replicate v.free 0))))
              ∷ (before ++ (l ∷ (between ++ (0 ∷ replicate v.free 0))))
              ∷ []))
        × ((s : Registry)
            → s.processes ≡ before ++ (l ∷ (between ++ (0 ∷ replicate v.free 0)))
            → Holds s ids')
        × IsWithout id ids ids'
  inner-Holds between l e = (
    ap (removal id) (
          v.cells
          ∙ ap (λ k. k ++ replicate v.free 0) e
          ∙ append_assoc before (id ∷ (between ++ (l ∷ []))) (replicate v.free 0)
          ∙ ap (λ k. before ++ (id ∷ k)) (append_assoc between (l ∷ []) (replicate v.free 0)))
        ∙ removal-inner id before v.free fresh between l
            (ground (arith, count-append 0 between (l ∷ []), count-inner between l e 0, v.nonzero)),
    λ s c. record {
      free = suc v.free;
      cells = c ∙ sym (append_assoc before (l ∷ between) (replicate (suc v.free) 0));
      size = omega (
        arith,
        v.size,
        ap length e,
        length-append before (id ∷ (between ++ (l ∷ []))),
        length-append between (l ∷ []),
        length-append before (l ∷ between),
      );
      nonzero =
          ground (arith, v.nonzero, count-inner between l e 0, count-append 0 before (l ∷ between));
      unique = λ x.
          ground
            (arith, v.unique x, count-inner between l e x, count-append x before (l ∷ between));
    },
    λ x.
        ground (
          arith,
          count-inner between l e x,
          count-append x before (l ∷ between),
          v.unique x,
          fresh,
        ),
  )

-- `Remove` takes out the process, if it is there, and says whether it was. The registry stays
-- without gaps and without duplicates.
pub remove_lem :
    {r : Registry} {ids : List ℕ} (id : ℕ)
    → Holds r ids
    → id ≢ 0
    → (ids' : List ℕ) × Holds (remove r id).1 ids'
      × IsWithout id ids ids'
      × ((remove r id).0 ≡ not (count id ids == 0))
remove_lem {r} {ids} id v ne = elim (shape id ids) [
  | absent nowhere ↦
      let same = (remove-absent r id (removal-none id v ne nowhere)).0 in
      (ids, rw same v, λ x. ground (arith, nowhere), rw same (ground (arith, nowhere)))
  | at_end before fresh e ↦
      let (run, holds, without) = last-Holds id v before fresh e in
      let same = (remove-last r id (before ++ replicate (suc v.free) 0) run).0 in
      (
        before,
        rw same (holds _ refl),
        without,
        rw same (ground (arith, count-last id v before fresh e id)),
      )
  | inside before between l fresh e ↦
      let (run, holds, without) = inner-Holds id v before fresh between l e in
      let same =
        (remove-inner r id (before ++ (l ∷ (between ++ (l ∷ replicate v.free 0))))
          (before ++ (l ∷ (between ++ (0 ∷ replicate v.free 0)))) run).0 in
      (
        before ++ (l ∷ between),
        rw same (holds _ refl),
        without,
        rw same (ground (arith, count-inner id v before fresh between l e id)),
      )
]

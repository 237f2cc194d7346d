-- ===== src/Registry/Add.antt =====
-- What `Add` does to the set of processes, and what `GetAll` returns.
use unix_thread_ipc.Prelude.{
  ℕ, zero, suc, ◌+◌, ◌≤◌, ◌≡◌, ◌≢◌, inl, inr, refl, sym, ap, ◌∙◌, Bool, true, false, none, some,
  List, [], ◌∷◌, ◌++◌, append_assoc, append-nil, arith, ◌==◌, ==_iff, Bool-cases, length,
  length-append, set, replicate,
}
use unix_thread_ipc.Registry.{
  Registry, max_processes, bump, store, find_id, find_dead, add, valid_prefix, get_all,
}
use unix_thread_ipc.Registry.Cells.{
  count, Holds, count-append, set-append, find_id-first, find_id-none, valid_prefix_lem,
}

-- A search for a dead process.
pub data Dead (alive : ℕ → Bool) (xs : List ℕ) : Type 0 where
  found :
      (before after : List ℕ) (d : ℕ)
      → xs ≡ before ++ (d ∷ after)
      → alive d ≡ false
      → find_dead alive xs ≡ some (length before)
      → Dead alive xs
  all_alive :
      ((x : ℕ) → alive x ≡ false → count x xs ≡ 0) → find_dead alive xs ≡ none → Dead alive xs

dead : (alive : ℕ → Bool) (xs : List ℕ) → Dead alive xs
unfolding find_dead
dead alive [] = all_alive (λ x h. refl) refl
dead alive (x ∷ xs) = elim (Bool-cases (alive x)) [
  | inr gone ↦ found [] xs x refl gone (rw gone refl)
  | inl here ↦ elim (dead alive xs) [
    | found before after d e h run ↦
        found (x ∷ before) after d (ap (λ l. x ∷ l) e) h (rw here (rw run refl))
    | all_alive h run ↦ all_alive (λ y off. ground (arith, h y off)) (rw here (rw run refl))
  ]
]

module _ (alive : ℕ → Bool) (r : Registry) (id : ℕ) where
  add-free : (i : ℕ) → find_id 0 r.processes ≡ some i → add alive r id ≡ (true, store (bump r) i id)
  unfolding add
  add-free i e = ground arith

  add-dead :
      (i : ℕ)
      → find_id 0 r.processes ≡ none
      → find_dead alive r.processes ≡ some i
      → add alive r id ≡ (true, store (bump r) i id)
  unfolding add
  add-dead i e h = ground arith

  add-full :
      find_id 0 r.processes ≡ none
      → find_dead alive r.processes ≡ none
      → add alive r id ≡ (false, r)
  unfolding add
  add-full e h = ground arith

array : {r : Registry} {ids : List ℕ} (v : Holds r ids) → v.free ≡ 0 → r.processes ≡ ids
array {ids} v e = v.cells ∙ ap (λ k. ids ++ replicate k 0) e ∙ append-nil ids

-- What a successful `Add` makes of the processes: `id` is among them, no other has come, and none
-- that is alive has gone.
pub record Added (alive : ℕ → Bool) (id : ℕ) (ids ids' : List ℕ) : Type 0 where
  pub present : count id ids' ≡ 1
  pub none_come : (x : ℕ) → x ≢ id → count x ids' ≤ count x ids
  pub alive_stay : (x : ℕ) → x ≢ id → alive x ≡ true → count x ids' ≡ count x ids

-- What `Add` does.
pub data IsAddition (alive : ℕ → Bool) (id : ℕ) (r : Registry) (ids : List ℕ)
    : Bool × Registry → Type 0 where
  done :
      (r' : Registry) (ids' : List ℕ)
      → Holds r' ids'
      → Added alive id ids ids'
      → IsAddition alive id r ids (true, r')
  full :
      length ids ≡ max_processes
      → ((x : ℕ) → alive x ≡ false → count x ids ≡ 0)
      → IsAddition alive id r ids (false, r)

module _ {alive : ℕ → Bool} {r : Registry} {ids : List ℕ} {id : ℕ} (v : Holds r ids) (ne : id ≢ 0)
    (fresh : count id ids ≡ 0) where
  appended :
      (n : ℕ) → v.free ≡ suc n → IsAddition alive id r ids (true, store (bump r) (length ids) id)
  appended n e =
      done _ (ids ++ (id ∷ []))
        (record {
          free = n;
          cells =
              ap (λ xs. set xs (length ids) id) (v.cells ∙ ap (λ k. ids ++ replicate k 0) e)
              ∙ set-append ids (replicate n 0) 0 id
              ∙ sym (append_assoc ids (id ∷ []) (replicate n 0));
          size = omega (arith, v.size, length-append ids (id ∷ []));
          nonzero = ground (arith, count-append 0 ids (id ∷ []), v.nonzero);
          unique = λ x. ground (arith, count-append x ids (id ∷ []), v.unique x);
        })
        (record {
          present = ground (arith, count-append id ids (id ∷ []));
          none_come = λ x h. ground (arith, count-append x ids (id ∷ []));
          alive_stay = λ x h on. ground (arith, count-append x ids (id ∷ []));
        })

  replaced :
      (before after : List ℕ) (d : ℕ)
      → v.free ≡ 0
      → ids ≡ before ++ (d ∷ after)
      → alive d ≡ false
      → IsAddition alive id r ids (true, store (bump r) (length before) id)
  replaced before after d none_free e gone =
      let counted : (x : ℕ) → count x ids ≡ count x before + count x (d ∷ after) =
        λ x. ap (count x) e ∙ count-append x before (d ∷ after) in
      done _ (before ++ (id ∷ after))
        (record {
          free = 0;
          cells =
              ap (λ xs. set xs (length before) id) (array v none_free ∙ e)
              ∙ set-append before after d id
              ∙ sym (append-nil (before ++ (id ∷ after)));
          size = omega (
            arith,
            v.size,
            length-append before (id ∷ after),
            length-append before (d ∷ after),
            ap length e,
          );
          nonzero = ground (arith, count-append 0 before (id ∷ after), counted 0, v.nonzero);
          unique = λ x. ground (arith, count-append x before (id ∷ after), counted x, v.unique x);
        })
        (record {
          present = ground (arith, count-append id before (id ∷ after), counted id, fresh);
          none_come = λ x h. ground (arith, count-append x before (id ∷ after), counted x);
          alive_stay = λ x h on. ground (arith, count-append x before (id ∷ after), counted x);
        })

  add-IsAddition : (n : ℕ) → v.free ≡ n → IsAddition alive id r ids (add alive r id)
  add-IsAddition (suc n) e =
      rw
        (add-free alive r id (length ids) (
          ap (find_id 0) (v.cells ∙ ap (λ k. ids ++ replicate k 0) e)
          ∙ find_id-first 0 ids (replicate n 0) v.nonzero))
        (appended n e)
  add-IsAddition zero e =
      let no_gap : find_id 0 r.processes ≡ none =
        ap (find_id 0) (array v e) ∙ find_id-none 0 ids v.nonzero in
      elim (dead alive ids) [
        | found before after d e' gone run ↦
            rw (add-dead alive r id (length before) no_gap (ap (find_dead alive) (array v e) ∙ run))
              (replaced before after d e e' gone)
        | all_alive h run ↦
            rw (add-full alive r id no_gap (ap (find_dead alive) (array v e) ∙ run))
              (full (omega (arith, v.size)) h)
      ]

-- `Add` of a process that is not in the registry succeeds, unless the registry is full of processes
-- that are all alive. It adds that process and no other, removes none that is alive, and leaves
-- neither gaps nor duplicates. When it fails nothing has changed.
pub add_lem :
    {alive : ℕ → Bool} {r : Registry} {ids : List ℕ} (id : ℕ)
    → Holds r ids
    → id ≢ 0
    → count id ids ≡ 0
    → IsAddition alive id r ids (add alive r id)
add_lem id v ne fresh = add-IsAddition v ne fresh v.free refl

-- `GetAll` returns exactly the processes of the registry, in order, and leaves an exact copy, if the
-- copy that the process kept is exact whenever its revision is the current one.
pub get_all_lem :
    {r : Registry} {ids : List ℕ} (cached : Registry)
    → Holds r ids
    → (cached.revision ≡ r.revision → cached ≡ r)
    → get_all cached r ≡ (ids, r)
unfolding get_all
get_all_lem {r} {ids} cached v exact =
    let valid : valid_prefix r.processes ≡ ids =
      ap valid_prefix v.cells ∙ valid_prefix_lem ids v.free v.nonzero in
    elim (Bool-cases (cached.revision == r.revision)) [
      | inl same ↦ rw same (
          ap (λ (c : Registry). (valid_prefix c.processes, c))
            (exact ((==_iff cached.revision r.revision).0 same))
          ∙ ap (λ l. (l, r)) valid)
      | inr stale ↦ rw stale (ap (λ l. (l, r)) valid)
    ]

-- ===== src/ThreadLocals/Destruction.antt =====
-- The destructor calls over the life of a thread, in common/thread_locals.cc.
use mathlib.Core.List.{Perm, perm_append_comm}
use mathlib.Core.List.Perm
use unix_thread_ipc.Prelude.{
  ℕ, zero, suc, ◌<◌, ◌≡◌, refl, sym, ap, Option, none, some, List, [], ◌∷◌, ◌++◌, append_assoc,
  append-nil, arith, false, dec_lt, Bool-cases, inl, inr, length, length-replicate, get_or, set,
  replicate,
}
use unix_thread_ipc.Prelude.Int.{ℤ, pos, negsuc}
use unix_thread_ipc.ThreadLocals.{
  max_slots, Entry, Table, Calls, index, empty_entry, due, destroy_loop, finalize_key,
  destroy_value, set_value,
}
use unix_thread_ipc.ThreadLocals.Values.{
  IsTable, entries_of, entry_at, assigned, destroyed, set_value_lem, destroy_value_lem,
  set_value-IsTable, destroy_value-IsTable,
}

perm_left_comm : {A : Type 0} (xs ys zs : List A) → Perm (xs ++ (ys ++ zs)) (ys ++ (xs ++ zs))
perm_left_comm xs ys zs =
    rw (← append_assoc xs ys zs, ← append_assoc ys xs zs)
      (Perm.append_right zs (perm_append_comm xs ys))

module _ {V D : Type 0} where
  -- The calls that the end of the thread makes for a list of entries.
  unfoldable pub pending : List (Entry V D) → Calls V D
  pending [] = []
  pending (e ∷ es) = due e ++ pending es

  destroy_loop-pending : (es : List (Entry V D)) → (destroy_loop es).0 ≡ pending es
  unfolding pending destroy_loop
  destroy_loop-pending [] = refl
  destroy_loop-pending (e ∷ es) = ap (λ l. due e ++ l) (destroy_loop-pending es)

  pending-replicate : (n : ℕ) → pending (replicate n empty_entry) ≡ []
  unfolding pending due
  pending-replicate zero = refl
  pending-replicate (suc n) = pending-replicate n

  pub finalize_key-pending : (t : Table V D) → finalize_key t ≡ pending (entries_of t)
  unfolding finalize_key
  finalize_key-pending none = sym (pending-replicate max_slots)
  finalize_key-pending (some es) = destroy_loop-pending es

  -- Replacing an entry replaces the call that is due for it.
  pending-set :
      (es : List (Entry V D)) (i : ℕ) (e : Entry V D)
      → i < length es
      → Perm (due e ++ pending es) (due (get_or es i empty_entry) ++ pending (set es i e))
  unfolding pending
  pending-set [] i e h = absurd (omega arith)
  pending-set (x ∷ es) zero e h = perm_left_comm (due e) (due x) (pending es)
  pending-set (x ∷ es) (suc i) e h = Perm.trans (perm_left_comm (due e) (due x) (pending es)) (
      Perm.trans (Perm.append_left (due x) (pending-set es i e (omega arith)))
        (perm_left_comm (due x) (due (get_or es i empty_entry)) (pending (set es i e))))

-- What a thread does with its slots. Reading a slot changes nothing.
pub data Request (V D : Type 0) : Type 0 where
  assign : ℤ → Option V → Option D → Request V D
  destroy : ℤ → Request V D

index_out : (i : ℕ) → ¬ (i < max_slots) → index (pos i) ≡ none
index_out i h = ground arith

module _ {V D : Type 0} where
  unfoldable pub step : Table V D → Request V D → Calls V D × Table V D
  step t (assign key v d) = set_value t key v d
  step t (destroy key) = destroy_value t key

  -- All destructor calls of a thread, in order: those of its requests, then those of its end.
  unfoldable pub lifetime : Table V D → List (Request V D) → Calls V D
  lifetime t [] = finalize_key t
  lifetime t (r ∷ rest) = let (calls, t') = step t r in calls ++ lifetime t' rest

  -- The call that a request owes: one for each value stored with a destructor.
  abbrev pub owed_by : Request V D → Calls V D
  owed_by (assign key v d) = elim (index key) [
    | none ↦ []
    | some i ↦ elim d [ none ↦ [] | some f ↦ (f, v) ∷ [] ]
  ]
  owed_by (destroy key) = []

  abbrev pub owed : List (Request V D) → Calls V D
  owed [] = []
  owed (r ∷ rest) = owed_by r ++ owed rest

  -- One request hands over what it owes, now or later, and nothing else.
  abbrev Balanced : Table V D → Request V D → Calls V D × Table V D → Type 0
  Balanced t r out =
      IsTable out.1
      × Perm (out.0 ++ pending (entries_of out.1)) (owed_by r ++ pending (entries_of t))

  owed_by-assign :
      (i : ℕ) (v : Option V) (d : Option D)
      → i < max_slots
      → owed_by (assign (pos i) v d) ≡ due (assigned v d)
  unfolding due
  owed_by-assign i v d h = ground arith

  set_value_out :
      (t : Table V D) (key : ℤ) (v : Option V) (d : Option D)
      → index key ≡ none
      → (set_value t key v d ≡ ([], t)) × (owed_by (assign key v d) ≡ [])
  unfolding set_value
  set_value_out t key v d h = (ground arith, ground arith)

  destroy_value_out : (t : Table V D) (key : ℤ) → index key ≡ none → destroy_value t key ≡ ([], t)
  unfolding destroy_value
  destroy_value_out t key h = ground arith

  assign_out :
      (t : Table V D) (key : ℤ) (v : Option V) (d : Option D)
      → index key ≡ none
      → IsTable t
      → Balanced t (assign key v d) (set_value t key v d)
  assign_out t key v d h w =
      let (same, nothing) = set_value_out t key v d h in
      rw (same, nothing) (w, Perm.refl (pending (entries_of t)))

  assign_in :
      (t : Table V D) (i : ℕ) (v : Option V) (d : Option D)
      → i < max_slots
      → IsTable t
      → Balanced t (assign (pos i) v d) (set_value t (pos i) v d)
  assign_in t i v d h w = (
    set_value-IsTable t i v d w h,
    rw (owed_by-assign i v d h, set_value_lem t i v d h)
        (Perm.symm (pending-set (entries_of t) i (assigned v d) (omega arith))),
  )

  destroyed_balance :
      (t : Table V D) (i : ℕ)
      → i < length (entries_of t)
      → Perm (due (entry_at t i) ++ pending (entries_of (destroyed t i))) (pending (entries_of t))
  unfolding due
  destroyed_balance t i h = elim (Bool-cases (entry_at t i).valid) [
    | inl valid ↦ rw valid (
        rw valid at
          (Perm.symm (pending-set (entries_of t) i (record (entry_at t i) { valid = false }) h)))
    | inr invalid ↦ rw invalid (Perm.refl (pending (entries_of t)))
  ]

  step-Balanced : (t : Table V D) (r : Request V D) → IsTable t → Balanced t r (step t r)
  unfolding step
  step-Balanced t (assign (negsuc n) v d) w = assign_out t (negsuc n) v d refl w
  step-Balanced t (assign (pos i) v d) w = elim (dec_lt i max_slots) [
    | yes h ↦ assign_in t i v d h w
    | no h ↦ assign_out t (pos i) v d (index_out i h) w
  ]
  step-Balanced t (destroy (negsuc n)) w =
      rw (destroy_value_out t (negsuc n) refl) (w, Perm.refl (pending (entries_of t)))
  step-Balanced t (destroy (pos i)) w = elim (dec_lt i max_slots) [
    | yes h ↦ (
      destroy_value-IsTable t i w h,
      rw (destroy_value_lem t i h) (destroyed_balance t i (omega arith)),
    )
    | no h ↦
        rw (destroy_value_out t (pos i) (index_out i h)) (w, Perm.refl (pending (entries_of t)))
  ]

  lifetime-perm-pending :
      (requests : List (Request V D)) (t : Table V D)
      → IsTable t
      → Perm (lifetime t requests) (owed requests ++ pending (entries_of t))
  unfolding lifetime
  lifetime-perm-pending [] t w = rw (finalize_key-pending t) (Perm.refl (pending (entries_of t)))
  lifetime-perm-pending (r ∷ rest) t w =
      let (w', p) = step-Balanced t r w in
      let (calls, t') = step t r in
      Perm.trans (Perm.append_left calls (lifetime-perm-pending rest t' w')) (
        Perm.trans (perm_left_comm calls (owed rest) (pending (entries_of t'))) (
          Perm.trans (Perm.append_left (owed rest) p)
            (rw append_assoc (perm_left_comm (owed rest) (owed_by r) (pending (entries_of t))))))

  -- Whatever slots a thread uses and however often, by the end of the thread each value that was
  -- stored under a valid slot with a destructor has been handed to that destructor exactly once,
  -- and no other call has been made.
  pub lifetime-perm-owed :
      (requests : List (Request V D)) → Perm (lifetime none requests) (owed requests)
  lifetime-perm-owed requests =
      Perm.trans
        (lifetime-perm-pending requests none
          (length-replicate max_slots (empty_entry {V = V} {D = D})))
        (rw (pending-replicate max_slots, append-nil) (Perm.refl (owed requests)))

-- ===== src/ByteStore/Refinement.antt =====
-- The calls of a ByteStore against a sequence of bytes that grows.
use unix_thread_ipc.Prelude.{
  ℕ, ◌≡◌, refl, sym, ap, ◌∙◌, Bool, true, false, not, ◌&&◌, Option, none, some, List, [], ◌∷◌, ◌++◌,
  append-nil, arith, ◌==◌, if◌then◌else◌, take, drop, length,
}
use unix_thread_ipc.ByteStore.{
  Disk, Store, new_store, add_unfinalized, add_data, read_store, reserve, finalize, pin_data,
}
use unix_thread_ipc.ByteStore.Contents.{content, IsValid}
use unix_thread_ipc.ByteStore.Operations.{
  add_unfinalized-Adds, read_by_lem, reserve_by-Keeps, finalize-Keeps, pin_data-Keeps,
}
use unix_thread_ipc.ByteStore.Finalized.{
  add_unfinalized-finalized, read_by-finalized, reserve_by-finalized, pin_data-finalized,
}

-- The operations, each with the disk as it finds it.
pub data Call : Type 0 where
  adding : Disk → List ℕ → Call
  reading_at : (offset max_length : ℕ) → Call
  reserving : Disk → ℕ → Call
  finalizing pinning : Call

-- The outcome of an addition, which is refused by an assertion exactly if it is to be; what the result
-- and the store have to satisfy is `P`.
abbrev pub IsAdded : Bool → (Bool → Store → Type 0) → Option (Bool × Store) → Type 0
IsAdded refused P none = refused ≡ true
IsAdded refused P (some (ok, s)) = (refused ≡ false) × P ok s

-- The calls in turn behave as on the sequence of bytes `c`, which may be `closed`: an addition that
-- returns true appends, one that returns false changes nothing, one of some bytes to a closed sequence
-- is refused by the assertion, which ends the program, a read copies the bytes from its offset on, as
-- many as asked for or there, and Length is the length of the sequence.
abbrev pub BehavesAs : List ℕ → Bool → List Call → Store → Type 0
BehavesAs c closed [] s = s.stored ≡ length c
BehavesAs c closed (adding disk bytes ∷ rest) s =
    (s.stored ≡ length c)
    × IsAdded (not (length bytes == 0) && closed)
        (λ ok s'. BehavesAs (if ok then c ++ bytes else c) closed rest s') (add_data disk bytes s)
BehavesAs c closed (reading_at offset max_length ∷ rest) s =
    let (bytes, s') = read_store offset max_length s in
    (s.stored ≡ length c) × (bytes ≡ take max_length (drop offset c)) × BehavesAs c closed rest s'
BehavesAs c closed (reserving disk n ∷ rest) s =
    (s.stored ≡ length c) × BehavesAs c closed rest (reserve disk n s)
BehavesAs c closed (finalizing ∷ rest) s =
    (s.stored ≡ length c) × BehavesAs c true rest (finalize s)
BehavesAs c closed (pinning ∷ rest) s = (s.stored ≡ length c) × BehavesAs c closed rest (pin_data s)

-- A valid store with the bytes `c`, finalized if `closed`.
abbrev Stores : List ℕ → Bool → Store → Type 0
Stores c closed s = (content s ≡ c) × (s.is_finalized ≡ closed) × IsValid s

-- The two early ways out of AddData.
guarded-IsAdded :
    (no_bytes finalized closed : Bool) (r : Bool × Store) (s : Store) (P : Bool → Store → Type 0)
    → finalized ≡ closed
    → (no_bytes ≡ true → P true s)
    → (no_bytes ≡ false → P r.0 r.1)
    → IsAdded
        (not no_bytes && closed)
        P
        (if no_bytes then some (true, s) else if finalized then none else some r)
guarded-IsAdded true finalized closed r s P e nothing something = (refl, nothing refl)
guarded-IsAdded false true closed r s P e nothing something = sym e
guarded-IsAdded false false closed r s P e nothing something = (sym e, something refl)

append_nothing : (c bytes : List ℕ) → (length bytes == 0) ≡ true → c ++ bytes ≡ c
append_nothing c [] h = append-nil c
append_nothing c (b ∷ bytes) h = absurd (ground (arith, h))

add_data-IsAdded :
    (disk : Disk) (bytes c : List ℕ) (closed : Bool) (s : Store) (P : Bool → Store → Type 0)
    → Stores c closed s
    → ((ok : Bool) (s' : Store) → Stores (if ok then c ++ bytes else c) closed s' → P ok s')
    → IsAdded (not (length bytes == 0) && closed) P (add_data disk bytes s)
unfolding add_data
add_data-IsAdded disk bytes c closed s P (e, f, valid) k =
    let (ok, s') = add_unfinalized disk bytes s in
    guarded-IsAdded (length bytes == 0) s.is_finalized closed (ok, s') s P f
      (λ z. k true s (e ∙ sym (append_nothing c bytes z), f, valid))
      (λ z.
        let (added, valid') = add_unfinalized-Adds disk bytes s z valid in
        k ok s' (
          added ∙ ap (λ l. if ok then l ++ bytes else l) e,
          add_unfinalized-finalized disk bytes s ∙ f,
          valid',
        ))

behaves :
    (calls : List Call) (c : List ℕ) (closed : Bool) (s : Store)
    → Stores c closed s
    → BehavesAs c closed calls s
unfolding read_store reserve finalize
behaves [] c closed s (e, f, valid) = valid.0 ∙ ap length e
behaves (adding disk bytes ∷ rest) c closed s (e, f, valid) = (
  valid.0 ∙ ap length e,
  add_data-IsAdded disk bytes c closed s
      (λ ok s'. BehavesAs (if ok then c ++ bytes else c) closed rest s') (e, f, valid)
      (λ ok s' v. behaves rest (if ok then c ++ bytes else c) closed s' v),
)
behaves (reading_at offset max_length ∷ rest) c closed s (e, f, valid) =
    let (bytes, (same, valid')) = read_by_lem offset max_length s.file s refl valid in
    (
      valid.0 ∙ ap length e,
      bytes ∙ ap (λ l. take max_length (drop offset l)) e,
      behaves rest c closed _ (same ∙ e, read_by-finalized offset max_length s.file s ∙ f, valid'),
    )
behaves (reserving disk n ∷ rest) c closed s (e, f, valid) =
    let (same, valid') = reserve_by-Keeps disk n s.file s refl valid in
    (
      valid.0 ∙ ap length e,
      behaves rest c closed _ (same ∙ e, reserve_by-finalized disk n s.file s ∙ f, valid'),
    )
behaves (finalizing ∷ rest) c closed s (e, f, valid) =
    let (same, valid') = finalize-Keeps s.file s refl valid in
    (valid.0 ∙ ap length e, behaves rest c true (finalize s) (same ∙ e, refl, valid'))
behaves (pinning ∷ rest) c closed s (e, f, valid) =
    let (same, valid') = pin_data-Keeps s valid in
    (valid.0 ∙ ap length e, behaves rest c closed _ (same ∙ e, pin_data-finalized s ∙ f, valid'))

-- Any calls on a new store behave as on a sequence of bytes that starts empty, whether the bytes are
-- in memory or in a file, and whatever the disk refuses. From Finalize on the sequence is closed: an
-- addition of some bytes is refused by the assertion of AddData.
pub store-BehavesAs : (calls : List Call) → BehavesAs [] false calls new_store
store-BehavesAs calls = behaves calls [] false new_store (refl, refl, (refl, tt))

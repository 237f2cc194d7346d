-- ===== src/ByteStore/Operations.antt =====
-- What each operation of a ByteStore does to its bytes.
use mathlib.Core.Path.{subst}
use mathlib.Core.Bool.{true≢false}
use unix_thread_ipc.Prelude.{
  ℕ, ◌+◌, ◌≡◌, refl, sym, ap, ◌∙◌, Bool, true, false, not, ◌&&◌, Option, none, some, List, [], ◌∷◌,
  ◌++◌, append-nil, arith, ltb, leb, ◌==◌, if◌then◌else◌, take, drop, length, length-append,
  length-drop, take_of_le, Bool-cases, inl, inr,
}
use unix_thread_ipc.ByteStore.{
  max_buffer_size, reserve_buffer, append, File, Disk, Store, open_file, is_using_data,
  add_unfinalized, read_by, reserve_by, finalize, pin_data,
}
use unix_thread_ipc.ByteStore.Contents.{
  content, content_by, FileValid, IsValid, Adds, drop_of_le, open_file-Adds, add_data_to_file-Adds,
  reserve_buffer-bytes, append-bytes,
}

and-left : (a b : Bool) → (a && b) ≡ true → a ≡ true
and-left true b h = refl
and-left false b h = h

using_data-none :
    (o : Option File) (s : Store) → s.file ≡ o → is_using_data s ≡ true → s.file ≡ none
using_data-none none s e h = e
using_data-none (some f) s e h =
    let clash : true ≡ false = sym h ∙ ap (λ o. elim o [ none ↦ true | some g ↦ false ]) e in
    absurd (true≢false clash)

append-Adds :
    (bytes : List ℕ) (s : Store)
    → s.file ≡ none
    → IsValid s
    → Adds
        (content s)
        bytes
        (true, record s { buffer = append bytes s.buffer; stored = s.stored + length bytes })
append-Adds bytes s no_file (size, valid) =
    let here : content s ≡ s.buffer.bytes = ap (λ o. content_by o s) no_file in
    let s' = record s { buffer = append bytes s.buffer; stored = s.stored + length bytes } in
    let there : content s' ≡ s.buffer.bytes ++ bytes =
      ap (λ o. content_by o s') no_file ∙ append-bytes bytes s.buffer in
    (
      there ∙ ap (λ l. l ++ bytes) (sym here),
      (
        omega (arith, ap length there, ap length here, length-append s.buffer.bytes bytes),
        subst (λ o. FileValid o s') (sym no_file) tt,
      ),
    )

pub add_unfinalized-Adds :
    (disk : Disk) (bytes : List ℕ) (s : Store)
    → (length bytes == 0) ≡ false
    → IsValid s
    → Adds (content s) bytes (add_unfinalized disk bytes s)
unfolding add_unfinalized
add_unfinalized-Adds disk [] s some_bytes valid = absurd (true≢false some_bytes)
add_unfinalized-Adds disk (b ∷ bytes) s some_bytes valid =
    elim (Bool-cases
      (is_using_data s && leb (length (b ∷ bytes) + length s.buffer.bytes) max_buffer_size)) [
        | inl h ↦ rw (h) (
            append-Adds (b ∷ bytes) s
              (using_data-none s.file s refl (and-left (is_using_data s) _ h)) valid)
        | inr h ↦ rw (h) (add_data_to_file-Adds disk (b ∷ bytes) s.file s refl valid)
      ]

take_min : (n : ℕ) (xs : List ℕ) → take (if ltb (length xs) n then length xs else n) xs ≡ take n xs
take_min n xs = elim (Bool-cases (ltb (length xs) n)) [
  | inl h ↦ rw (h, take_of_le (length xs) xs (omega arith), take_of_le n xs (ground arith)) refl
  | inr h ↦ rw (h) refl
]

-- An operation that leaves the content as it is.
abbrev pub Keeps : Store → Store → Type 0
Keeps s s' = (content s' ≡ content s) × IsValid s'

pub read_by_lem :
    (offset max_length : ℕ) (o : Option File) (s : Store)
    → s.file ≡ o
    → IsValid s
    → let (bytes, s') = read_by offset max_length o s in
      (bytes ≡ take max_length (drop offset (content s))) × Keeps s s'
read_by_lem offset max_length none s e (size, valid) =
    let here : content s ≡ s.buffer.bytes = ap (λ o. content_by o s) e in
    let left = length-drop offset s.buffer.bytes in
    (
      elim (Bool-cases (leb (length s.buffer.bytes) offset)) [
        | inl h ↦ rw (h) (
            sym (
              ap (λ l. take max_length (drop offset l)) here
              ∙ ap (take max_length) (drop_of_le offset s.buffer.bytes (ground arith))
              ∙ take_of_le max_length [] (omega arith)))
        | inr h ↦ rw (h) (
            ap (λ i. take (if ltb i max_length then i else max_length) (drop offset s.buffer.bytes))
              (sym left)
            ∙ take_min max_length (drop offset s.buffer.bytes)
            ∙ sym (ap (λ l. take max_length (drop offset l)) here))
      ],
      (refl, (size, valid)),
    )
read_by_lem offset max_length (some f) s e (size, valid) =
    let here : content s ≡ f.contents = ap (λ o. content_by o s) e in
    let (at_end, cleared) = subst (λ o. FileValid o s) e valid in
    (
      ap (λ l. take max_length (drop offset l)) (sym here),
      (sym here, (size ∙ ap length here, (tt, cleared))),
    )

nothing-Adds :
    (c : List ℕ) (ok : Bool) (s : Store) → Adds c [] (ok, s) → (content s ≡ c) × IsValid s
nothing-Adds c true s (added, valid) = (added ∙ append-nil c, valid)
nothing-Adds c false s (same, valid) = (same, valid)

reserved-Keeps :
    (n : ℕ) (preserve : Bool) (s : Store)
    → s.file ≡ none
    → IsValid s
    → Keeps s (record s { buffer = reserve_buffer n s.buffer; preserve_data = preserve })
reserved-Keeps n preserve s no_file (size, valid) =
    let s' = record s { buffer = reserve_buffer n s.buffer; preserve_data = preserve } in
    let same : content s' ≡ content s =
      ap (λ o. content_by o s') no_file
      ∙ reserve_buffer-bytes n s.buffer
      ∙ sym (ap (λ o. content_by o s) no_file) in
    (same, (size ∙ sym (ap length same), subst (λ o. FileValid o s') (sym no_file) tt))

pub reserve_by-Keeps :
    (disk : Disk) (n : ℕ) (o : Option File) (s : Store)
    → s.file ≡ o
    → IsValid s
    → Keeps s (reserve_by disk n o s)
reserve_by-Keeps disk n (some f) s e valid = (refl, valid)
reserve_by-Keeps disk n none s e (size, valid) =
    let here : content s ≡ s.buffer.bytes = ap (λ o. content_by o s) e in
    elim (Bool-cases (ltb max_buffer_size n)) [
      | inl h ↦
          let opened = open_file disk [] s in
          let (same, valid') =
            nothing-Adds s.buffer.bytes opened.0 opened.1
              (open_file-Adds disk [] s e (size ∙ ap length here)) in
          rw (h) (same ∙ sym here, valid')
      | inr h ↦ rw (h) (reserved-Keeps n s.preserve_data s e (size, valid))
    ]

and-right : (a b : Bool) → (a && b) ≡ true → b ≡ true
and-right true b h = h
and-right false b h = absurd (true≢false (sym h))

either-Keeps :
    (c : Bool) (s r t : Store) → (c ≡ true → Keeps s r) → Keeps s t → Keeps s (if c then r else t)
either-Keeps true s r t first second = first refl
either-Keeps false s r t first second = second

pub pin_data-Keeps : (s : Store) → IsValid s → Keeps s (pin_data s)
unfolding pin_data
pin_data-Keeps s valid =
    either-Keeps (not s.is_finalized && (is_using_data s && not s.preserve_data)) s _ s
      (λ h.
        let using_data =
          and-left (is_using_data s) (not s.preserve_data) (and-right (not s.is_finalized) _ h) in
        reserved-Keeps max_buffer_size true s (using_data-none s.file s refl using_data) valid)
      (refl, valid)

pub finalize-Keeps : (o : Option File) (s : Store) → s.file ≡ o → IsValid s → Keeps s (finalize s)
unfolding finalize
finalize-Keeps none s e (size, valid) =
    let same : content (finalize s) ≡ content s =
      ap (λ o. content_by o (finalize s)) e ∙ sym (ap (λ o. content_by o s) e) in
    (same, (size ∙ sym (ap length same), subst (λ o. FileValid o (finalize s)) (sym e) tt))
finalize-Keeps (some f) s e (size, valid) =
    let same : content (finalize s) ≡ content s =
      ap (λ o. content_by o (finalize s)) e ∙ sym (ap (λ o. content_by o s) e) in
    (
      same,
      (
        size ∙ sym (ap length same),
        subst (λ o. FileValid o (finalize s)) (sym e) (subst (λ o. FileValid o s) e valid),
      ),
    )

-- ===== src/ByteStore/Contents.antt =====
-- A ByteStore as the sequence of the bytes added to it.
use mathlib.Core.Path.{subst}
use native.Mathlib.Decide.{dec_le}
use unix_thread_ipc.Prelude.{
  ℕ, zero, suc, ◌+◌, ◌-◌, ◌≤◌, ◌≡◌, refl, sym, ap, ◌∙◌, Bool, true, false, Option, none, some, List,
  [], ◌∷◌, ◌++◌, append-nil, arith, leb, ==_of_ne, if◌then◌else◌, take, drop, length, length-append,
  take-append, take_of_le, Bool-cases, inl, inr,
}
use unix_thread_ipc.ByteStore.{
  MemoryBuffer, clear, reserve_buffer, append, File, Disk, new_file, write_file, seek_end, Store,
  add_to_open, open_file, add_data_to_file,
}

abbrev pub content_by : Option File → Store → List ℕ
content_by none s = s.buffer.bytes
content_by (some f) s = f.contents

-- The bytes in the store.
abbrev pub content : Store → List ℕ
content s = content_by s.file s

-- While it writes, a file is at its end.
abbrev pub AtEnd : Bool → File → Type 0
AtEnd true f = Unit
AtEnd false f = f.position ≡ length f.contents

-- A buffer that is not kept for GetDataElement is empty.
abbrev pub Cleared : Bool → List ℕ → Type 0
Cleared true bytes = Unit
Cleared false bytes = bytes ≡ []

abbrev pub FileValid : Option File → Store → Type 0
FileValid none s = Unit
FileValid (some f) s = AtEnd s.reading f × Cleared s.preserve_data s.buffer.bytes

abbrev pub IsValid : Store → Type 0
IsValid s = (s.stored ≡ length (content s)) × FileValid s.file s

-- The result of an operation that is to add `bytes` to the content `c`.
abbrev pub Adds : List ℕ → List ℕ → Bool × Store → Type 0
Adds c bytes (ok, s) = (content s ≡ (if ok then c ++ bytes else c)) × IsValid s

pub drop_of_le : (n : ℕ) (xs : List ℕ) → length xs ≤ n → drop n xs ≡ []
drop_of_le zero [] h = refl
drop_of_le zero (x ∷ xs) h = absurd (omega arith)
drop_of_le (suc n) [] h = refl
drop_of_le (suc n) (x ∷ xs) h = drop_of_le n xs (omega arith)

write_file-contents :
    (n : ℕ) (bytes : List ℕ) (f : File)
    → f.position ≡ length f.contents
    → (write_file n bytes f).contents ≡ f.contents ++ take n bytes
write_file-contents n bytes f at_end =
    rw
      (
        take_of_le f.position f.contents (omega arith),
        drop_of_le (f.position + length (take n bytes)) f.contents (omega arith),
        append-nil (take n bytes),
      )
      refl

write_file-position :
    (n : ℕ) (bytes : List ℕ) (f : File)
    → f.position ≡ length f.contents
    → (write_file n bytes f).position ≡ length (f.contents ++ take n bytes)
write_file-position n bytes f at_end = omega (arith, length-append f.contents (take n bytes))

-- A write that fits, and one that is cut short and undone.
write_file-whole :
    (n : ℕ) (bytes : List ℕ) (f : File)
    → f.position ≡ length f.contents
    → length bytes ≤ n
    → let g = write_file n bytes f in
      (g.contents ≡ f.contents ++ bytes) × (g.position ≡ length g.contents)
write_file-whole n bytes f at_end fits =
    let all = take_of_le n bytes fits in
    (
      write_file-contents n bytes f at_end ∙ ap (λ l. f.contents ++ l) all,
      write_file-position n bytes f at_end ∙ ap length (sym (write_file-contents n bytes f at_end)),
    )

write_file-undone :
    (n : ℕ) (bytes : List ℕ) (f : File)
    → f.position ≡ length f.contents
    → take f.position (write_file n bytes f).contents ≡ f.contents
write_file-undone n bytes f at_end =
    ap (λ l. take f.position l) (write_file-contents n bytes f at_end)
    ∙ ap (λ p. take p (f.contents ++ take n bytes)) at_end
    ∙ take-append f.contents (take n bytes)

ready_lem :
    (reading : Bool) (f : File)
    → AtEnd reading f
    → let ready = if reading then seek_end f else f in
      (ready.contents ≡ f.contents) × (ready.position ≡ length ready.contents)
ready_lem true f at_end = (refl, refl)
ready_lem false f at_end = (refl, at_end)

add_to_open-Adds :
    (room : ℕ) (bytes : List ℕ) (f : File) (s : Store)
    → s.stored ≡ length f.contents
    → AtEnd s.reading f
    → Cleared s.preserve_data s.buffer.bytes
    → Adds f.contents bytes (add_to_open room bytes f s)
unfolding add_to_open
add_to_open-Adds room [] f s size at_end cleared =
    (sym (append-nil f.contents), (size, (at_end, cleared)))
add_to_open-Adds room (b ∷ bytes) f s size at_end cleared =
    let ready = if s.reading then seek_end f else f in
    let (same, ends) = ready_lem s.reading f at_end in
    elim (dec_le (length (b ∷ bytes)) room) [
      | yes p ↦
          let fits : leb (length (b ∷ bytes)) room ≡ true = ground arith in
          let (grown, there) = write_file-whole room (b ∷ bytes) ready ends p in
          let all = grown ∙ ap (λ l. l ++ (b ∷ bytes)) same in
          rw (==_of_ne (length (b ∷ bytes)) 0 (λ e. omega arith), fits)
            (
              all,
              (
                omega (arith, ap length all, length-append f.contents (b ∷ bytes)),
                (there, cleared),
              ),
            )
      | no p ↦
          let short : leb (length (b ∷ bytes)) room ≡ false = ground arith in
          let undone = write_file-undone room (b ∷ bytes) ready ends ∙ same in
          rw (==_of_ne (length (b ∷ bytes)) 0 (λ e. omega arith), short)
            (undone, (size ∙ sym (ap length undone), (refl, cleared)))
    ]

pinned_lem :
    (preserve : Bool) (b : MemoryBuffer) → Cleared preserve (if preserve then b else clear b).bytes
pinned_lem true b = tt
pinned_lem false b = refl

end-AtEnd : (reading : Bool) (f : File) → f.position ≡ length f.contents → AtEnd reading f
end-AtEnd true f ends = tt
end-AtEnd false f ends = ends

-- A store without a file.
pub no_file-IsValid :
    (s : Store)
    → s.file ≡ none
    → s.stored ≡ length s.buffer.bytes
    → (content s ≡ s.buffer.bytes) × IsValid s
no_file-IsValid s no_file size =
    let same : content s ≡ s.buffer.bytes = ap (λ f. content_by f s) no_file in
    (same, (size ∙ sym (ap length same), subst (λ f. FileValid f s) (sym no_file) tt))

pub open_file-Adds :
    (disk : Disk) (bytes : List ℕ) (s : Store)
    → s.file ≡ none
    → s.stored ≡ length s.buffer.bytes
    → Adds s.buffer.bytes bytes (open_file disk bytes s)
unfolding open_file
open_file-Adds disk bytes s no_file size = elim (Bool-cases disk.creates) [
  | inr h ↦ rw (h) (no_file-IsValid s no_file size)
  | inl h ↦ elim (dec_le (length s.buffer.bytes) disk.room) [
    | no p ↦
        let short : leb (length s.buffer.bytes) disk.room ≡ false = ground arith in
        rw (h, short) (no_file-IsValid s no_file size)
    | yes p ↦
        let fits : leb (length s.buffer.bytes) disk.room ≡ true = ground arith in
        let f = write_file disk.room s.buffer.bytes new_file in
        let kept = if s.preserve_data then s.buffer else clear s.buffer in
        let (copied, ends) = write_file-whole disk.room s.buffer.bytes new_file refl p in
        rw (h, fits)
          (subst
            (λ c. Adds c bytes (
              add_to_open (disk.room - length s.buffer.bytes) bytes f (record s { buffer = kept })))
            copied
            (add_to_open-Adds (disk.room - length s.buffer.bytes) bytes f
              (record s { buffer = kept }) (size ∙ sym (ap length copied))
              (end-AtEnd s.reading f ends) (pinned_lem s.preserve_data s.buffer)))
  ]
]

pub add_data_to_file-Adds :
    (disk : Disk) (bytes : List ℕ) (o : Option File) (s : Store)
    → s.file ≡ o
    → IsValid s
    → Adds (content s) bytes (add_data_to_file disk bytes o s)
add_data_to_file-Adds disk bytes none s e (size, valid) =
    let same : content s ≡ s.buffer.bytes = ap (λ f. content_by f s) e in
    subst (λ c. Adds c bytes (open_file disk bytes s)) (sym same)
      (open_file-Adds disk bytes s e (size ∙ ap length same))
add_data_to_file-Adds disk bytes (some f) s e (size, valid) =
    let same : content s ≡ f.contents = ap (λ o. content_by o s) e in
    let (at_end, cleared) = subst (λ o. FileValid o s) e valid in
    subst (λ c. Adds c bytes (add_to_open disk.room bytes f s)) (sym same)
      (add_to_open-Adds disk.room bytes f s (size ∙ ap length same) at_end cleared)

pub reserve_buffer-bytes : (n : ℕ) (b : MemoryBuffer) → (reserve_buffer n b).bytes ≡ b.bytes
unfolding reserve_buffer
reserve_buffer-bytes n b = ground arith

pub append-bytes : (bytes : List ℕ) (b : MemoryBuffer) → (append bytes b).bytes ≡ b.bytes ++ bytes
unfolding append
append-bytes bytes b = ap (λ l. l ++ bytes) (reserve_buffer-bytes (length b.bytes + length bytes) b)

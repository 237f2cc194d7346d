-- ===== src/CircularBuffer/Window.antt =====
-- The bytes of a block read round its end, and what a copy into the block does to them.
use mathlib.Core.Path.{ap₂}
use native.Mathlib.Nat.{zero-add}
use unix_thread_ipc.Prelude.{
  ℕ, zero, suc, ◌+◌, ◌-◌, ◌≤◌, ◌<◌, ◌≡◌, refl, ap, ◌∙◌, ◌⊎◌, inl, inr, List, [], ◌∷◌, ◌++◌,
  append-nil, arith, length, get_or, take, drop, ltb, ◌==◌, if◌then◌else◌, length-append,
  length-take, length-drop, take-append,
}
use unix_thread_ipc.CircularBuffer.{copy_into}

-- The index that follows `h` in a block of `size` bytes.
abbrev pub next_index : ℕ → ℕ → ℕ
next_index size h = if (h + 1) == size then 0 else h + 1

-- The `n` bytes from index `h` on, going round at `size`.
abbrev pub window : List ℕ → ℕ → ℕ → ℕ → List ℕ
window m size h zero = []
window m size h (suc n) = get_or m h 0 ∷ window m size (next_index size h) n

-- The index `n` places behind `h`.
abbrev pub advance : ℕ → ℕ → ℕ → ℕ
advance size h n = if ltb (h + n) size then h + n else h + n - size

pub length-window : (m : List ℕ) (size h n : ℕ) → length (window m size h n) ≡ n
length-window m size h zero = refl
length-window m size h (suc n) = ap suc (length-window m size (next_index size h) n)

suc_add : (n k : ℕ) → suc n + k ≡ suc (n + k)
suc_add n k = omega arith

pub window-append :
    (m : List ℕ) (size h n k : ℕ)
    → h < size
    → n ≤ size
    → window m size h (n + k) ≡ window m size h n ++ window m size (advance size h n) k
window-append m size h zero k p q = ground arith
window-append m size h (suc n) k p q = rw (suc_add n k) (
    ap (λ l. get_or m h 0 ∷ l)
      (window-append m size (next_index size h) n k (ground arith) (omega arith)
        ∙ ap (λ j. window m size (next_index size h) n ++ window m size j k) (ground arith)))

get_or-append_left :
    (xs ys : List ℕ) (j : ℕ) → j < length xs → get_or (xs ++ ys) j 0 ≡ get_or xs j 0
get_or-append_left [] ys j h = absurd (omega arith)
get_or-append_left (x ∷ xs) ys zero h = refl
get_or-append_left (x ∷ xs) ys (suc j) h = get_or-append_left xs ys j (omega arith)

get_or_beyond : (xs : List ℕ) (j : ℕ) → length xs ≤ j → get_or xs j 0 ≡ 0
get_or_beyond [] j h = refl
get_or_beyond (x ∷ xs) zero h = absurd (omega arith)
get_or_beyond (x ∷ xs) (suc j) h = get_or_beyond xs j (omega arith)

get_or-append_drop :
    (xs m : List ℕ) (j : ℕ)
    → length xs ≤ j
    → get_or (xs ++ drop (0 + length xs) m) j 0 ≡ get_or m j 0
get_or-append_drop xs m j h = rw zero-add (go xs m j h)
  where
    go :
        (ys l : List ℕ) (i : ℕ)
        → length ys ≤ i
        → get_or (ys ++ drop (length ys) l) i 0 ≡ get_or l i 0
    go [] l i q = refl
    go (y ∷ ys) [] zero q = absurd (omega arith)
    go (y ∷ ys) (z ∷ l) zero q = absurd (omega arith)
    go (y ∷ ys) [] (suc i) q = rw append-nil (get_or_beyond ys i (omega arith))
    go (y ∷ ys) (z ∷ l) (suc i) q = go ys l i (omega arith)

drop-get_or : (m : List ℕ) (h : ℕ) → h < length m → drop h m ≡ get_or m h 0 ∷ drop (suc h) m
drop-get_or [] h p = absurd (omega arith)
drop-get_or (x ∷ m) zero p = refl
drop-get_or (x ∷ m) (suc h) p = drop-get_or m h (omega arith)

slice-copy_into :
    (m source : List ℕ) (i : ℕ)
    → i ≤ length m
    → take (length source) (drop i (copy_into m i source)) ≡ source
slice-copy_into m source zero p = take-append source (drop (0 + length source) m)
slice-copy_into [] source (suc i) p = absurd (omega arith)
slice-copy_into (x ∷ m) source (suc i) p =
    rw (suc_add i (length source)) (slice-copy_into m source i (omega arith))

-- The bytes that a copy leaves alone.
pub get_or-copy_into_outside :
    (m source : List ℕ) (i j : ℕ)
    → i + length source ≤ length m
    → (j < i) ⊎ (i + length source ≤ j)
    → get_or (copy_into m i source) j 0 ≡ get_or m j 0
get_or-copy_into_outside m source zero j p (inl h) = absurd (omega arith)
get_or-copy_into_outside m source zero j p (inr h) = get_or-append_drop source m j (omega arith)
get_or-copy_into_outside [] source (suc i) j p h = absurd (omega arith)
get_or-copy_into_outside (x ∷ m) source (suc i) zero p h = refl
get_or-copy_into_outside (x ∷ m) source (suc i) (suc j) p h =
    rw (suc_add i (length source))
      (get_or-copy_into_outside m source i j (omega arith) (ground arith))

-- The bytes that a copy writes.
pub get_or-copy_into_inside :
    (m source : List ℕ) (i j : ℕ)
    → i + length source ≤ length m
    → j < length source
    → get_or (copy_into m i source) (i + j) 0 ≡ get_or source j 0
get_or-copy_into_inside m source zero j p h =
    simp zero-add (get_or-append_left source (drop (length source) m) j h)
get_or-copy_into_inside [] source (suc i) j p h = absurd (omega arith)
get_or-copy_into_inside (x ∷ m) source (suc i) j p h =
    rw (suc_add i j, suc_add i (length source))
      (get_or-copy_into_inside m source i j (omega arith) h)

pub length-copy_into :
    (m source : List ℕ) (i : ℕ)
    → i + length source ≤ length m
    → length (copy_into m i source) ≡ length m
length-copy_into m source i p = omega (
  arith,
  length-append (take i m) (source ++ drop (i + length source) m),
  length-append source (drop (i + length source) m),
  length-take i m,
  length-drop (i + length source) m,
)

-- A window that does not meet the bytes from `t` to `t + a`, whether or not it goes round.
abbrev pub IsApart : ℕ → ℕ → ℕ → ℕ → ℕ → Type 0
IsApart size h n t a =
    ((h + n ≤ size) × ((h + n ≤ t) ⊎ (t + a ≤ h)))
    ⊎ ((size < h + n) × (h + n ≤ size + t) × (t + a ≤ h))

pub window-copy_into_outside :
    (m source : List ℕ) (size h n t : ℕ)
    → t + length source ≤ length m
    → h < size
    → IsApart size h n t (length source)
    → window (copy_into m t source) size h n ≡ window m size h n
window-copy_into_outside m source size h zero t p q apart = refl
window-copy_into_outside m source size h (suc n) t p q apart =
    ap₂ ◌∷◌ (get_or-copy_into_outside m source t h p (ground arith)) (
      window-copy_into_outside m source size (next_index size h) n t p (ground arith)
        (ground arith))

-- A window that does not go round is a slice.
pub window-eq-slice :
    (m : List ℕ) (size h n : ℕ)
    → h + n ≤ size
    → size ≤ length m
    → window m size h n ≡ take n (drop h m)
window-eq-slice m size h zero p q = refl
window-eq-slice m size h (suc zero) p q = rw (drop-get_or m h (omega arith))
window-eq-slice m size h (suc (suc n)) p q = rw (drop-get_or m h (omega arith)) (
    ap (λ l. get_or m h 0 ∷ l)
      (ap (λ j. window m size j (suc n)) (ground arith)
        ∙ window-eq-slice m size (suc h) (suc n) (omega arith) q))

-- Where the copy goes, the window is the source.
pub window-copy_into_inside :
    (m source : List ℕ) (size t : ℕ)
    → t + length source ≤ size
    → size ≤ length m
    → window (copy_into m t source) size t (length source) ≡ source
window-copy_into_inside m source size t p q =
    window-eq-slice (copy_into m t source) size t (length source) p
      (omega (arith, length-copy_into m source t))
    ∙ slice-copy_into m source t (omega arith)

-- ===== src/Origins/Hosts.antt =====
-- The comparison of two hosts from their ends.
use mathlib.Core.List.{reverse, reverse-cons, reverse-append, reverse-reverse}
use mathlib.Core.List.{cons≢nil}
use unix_thread_ipc.Prelude.{
  ℕ, ◌≤◌, ◌≡◌, ◌↔◌, ◌⊎◌, refl, sym, ap, ◌∙◌, Bool, true, false, not, Option, some, List, [], ◌∷◌,
  ◌++◌, append_assoc, arith, ◌==◌, ==_iff, if◌then◌else◌, Bool-cases, inl, inr, length,
}
use unix_thread_ipc.Origins.{is_empty, compare_hosts}

-- The longer string begins with the shorter one, and goes on with a dot if it goes on.
abbrev pub StartsAs : List ℕ → List ℕ → Type 0
StartsAs long short = (long ≡ short) ⊎ ((rest : List ℕ) × (long ≡ short ++ (46 ∷ rest)))

-- A test answers a question.
abbrev pub Answers : Type 0 → Option Bool → Type 0
Answers P r = (b : Bool) × (r ≡ some b) × ((b ≡ true) ↔ P)

abbrev pub head_of : List ℕ → ℕ
head_of [] = 0
head_of (x ∷ xs) = x

abbrev pub tail_of : List ℕ → List ℕ
tail_of [] = []
tail_of (x ∷ xs) = xs

first_same :
    (x y : ℕ) (long short : List ℕ)
    → StartsAs (x ∷ long) (y ∷ short)
    → (x ≡ y) × StartsAs long short
first_same x y long short (inl e) = (ap head_of e, inl (ap tail_of e))
first_same x y long short (inr (rest, e)) = (ap head_of e, inr (rest, ap tail_of e))

with_first :
    (x y : ℕ) (long short : List ℕ) → x ≡ y → StartsAs long short → StartsAs (x ∷ long) (y ∷ short)
with_first x y long short f (inl e) = inl (ap (λ z. z ∷ long) f ∙ ap (λ l. y ∷ l) e)
with_first x y long short f (inr (rest, e)) = inr (rest, ap (λ z. z ∷ long) f ∙ ap (λ l. y ∷ l) e)

step-Answers :
    (x y : ℕ) (long short : List ℕ) (r : Option Bool)
    → Answers (StartsAs long short) r
    → Answers (StartsAs (x ∷ long) (y ∷ short)) (if not (x == y) then some false else r)
step-Answers x y long short r (b, e, f) = elim (Bool-cases (x == y)) [
  | inl same ↦ rw (same) (
    b,
    e,
    (
      λ t. with_first x y long short ((==_iff x y).0 same) (f.0 t),
      λ s. f.1 (first_same x y long short s).1,
    ),
  )
  | inr other ↦ rw (other) (
    false,
    refl,
    (
      λ t. absurd (ground (arith, t)),
      λ s. absurd (ground (arith, other, (==_iff x y).1 (first_same x y long short s).0)),
    ),
  )
]

-- Behind the last character of the shorter one.
end-Answers :
    (long : List ℕ)
    → Answers (StartsAs long []) (elim long [ [] ↦ some true | c ∷ _ ↦ some (c == 46) ])
end-Answers [] = (true, refl, (λ t. inl refl, λ s. refl))
end-Answers (c ∷ long) = (
  c == 46,
  refl,
  (
    λ t. inr (long, ap (λ z. z ∷ long) ((==_iff c 46).0 t)),
    λ s. elim s [ inl e ↦ absurd (cons≢nil e) | inr (rest, e) ↦ (==_iff c 46).1 (ap head_of e) ],
  ),
)

pub compare_hosts-Answers :
    (long short : List ℕ)
    → is_empty short ≡ false
    → length short ≤ length long
    → Answers (StartsAs long short) (compare_hosts long short)
unfolding compare_hosts
compare_hosts-Answers [] [] e le = absurd (ground (arith, e))
compare_hosts-Answers [] (y ∷ short) e le = absurd (omega arith)
compare_hosts-Answers (x ∷ long) [] e le = absurd (ground (arith, e))
compare_hosts-Answers (x ∷ long) (y ∷ []) e le =
    step-Answers x y long [] (elim long [ [] ↦ some true | c ∷ _ ↦ some (c == 46) ])
      (end-Answers long)
compare_hosts-Answers (x ∷ long) (y ∷ z ∷ short) e le =
    step-Answers x y long (z ∷ short) (compare_hosts long (z ∷ short))
      (compare_hosts-Answers long (z ∷ short) refl (omega arith))

-- The host is that of the parent, or labels in front of it.
abbrev pub IsWithin : List ℕ → List ℕ → Type 0
IsWithin host parent = (host ≡ parent) ⊎ ((labels : List ℕ) × (host ≡ labels ++ (46 ∷ parent)))

pub reversed-IsWithin :
    (host parent : List ℕ) → StartsAs (reverse host) (reverse parent) → IsWithin host parent
reversed-IsWithin host parent (inl e) =
    inl (sym (reverse-reverse host) ∙ ap reverse e ∙ reverse-reverse parent)
reversed-IsWithin host parent (inr (rest, e)) = inr (
  reverse rest,
  sym (reverse-reverse host)
      ∙ ap reverse e
      ∙ reverse-append (reverse parent) (46 ∷ rest)
      ∙ ap (λ l. l ++ reverse (reverse parent)) (reverse-cons 46 rest)
      ∙ ap (λ l. (reverse rest ++ (46 ∷ [])) ++ l) (reverse-reverse parent)
      ∙ append_assoc (reverse rest) (46 ∷ []) parent,
)

pub within-StartsAs :
    (host parent : List ℕ) → IsWithin host parent → StartsAs (reverse host) (reverse parent)
within-StartsAs host parent (inl e) = inl (ap reverse e)
within-StartsAs host parent (inr (labels, e)) = inr (
  reverse labels,
  ap reverse e
      ∙ reverse-append labels (46 ∷ parent)
      ∙ ap (λ l. l ++ reverse labels) (reverse-cons 46 parent)
      ∙ append_assoc (reverse parent) (46 ∷ []) (reverse labels),
)

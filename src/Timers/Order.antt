-- ===== src/Timers/Order.antt =====
-- The order of timers, and the sets that are kept in it.
use mathlib.Core.Path.{subst}
use unix_thread_ipc.Prelude.{
  ℕ, ◌≡◌, ◌≢◌, refl, sym, ◌∙◌, Bool, true, false, List, [], ◌∷◌, All, arith, if◌then◌else◌,
  Bool-cases, inl, inr,
}
use unix_thread_ipc.Timers.{less, set_insert, set_erase}

-- In strictly ascending order.
abbrev pub IsSorted : (ℕ → ℕ) → List ℕ → Type 0
IsSorted key [] = Unit
IsSorted key (x ∷ rest) = All (λ y. less key x y ≡ true) rest × IsSorted key rest

module _ (key : ℕ → ℕ) where
  less_trans : (a b c : ℕ) → less key a b ≡ true → less key b c ≡ true → less key a c ≡ true
  less_trans a b c h k = ground arith

  less_total : (a b : ℕ) → less key a b ≡ false → less key b a ≡ false → a ≡ b
  less_total a b h k = ground arith

  pub less_ne : (a b : ℕ) → less key a b ≡ true → b ≢ a
  less_ne a b h e = ground arith

  less_asym : (a b : ℕ) → less key a b ≡ true → less key b a ≡ false
  less_asym a b h = ground arith

  below-below :
      (a b : ℕ) (l : List ℕ)
      → less key a b ≡ true
      → All (λ y. less key b y ≡ true) l
      → All (λ y. less key a y ≡ true) l
  below-below a b [] h all = tt
  below-below a b (x ∷ l) h (first, all) = (less_trans a b x h first, below-below a b l h all)

  pub below-ne : (a : ℕ) (l : List ℕ) → All (λ y. less key a y ≡ true) l → All (λ y. y ≢ a) l
  below-ne a [] all = tt
  below-ne a (x ∷ l) (first, all) = (less_ne a x first, below-ne a l all)

  pick-All :
      (P : ℕ → Type 0) (c : Bool) (l m : List ℕ) → All P l → All P m → All P (if c then l else m)
  pick-All P true l m first second = first
  pick-All P false l m first second = second

  -- `set_insert` and `set_erase` keep what holds of all elements.
  pub set_insert-All :
      (P : ℕ → Type 0) (p : ℕ) (l : List ℕ) → P p → All P l → All P (set_insert key p l)
  unfolding set_insert
  set_insert-All P p [] h all = (h, tt)
  set_insert-All P p (x ∷ l) h (first, all) =
      pick-All P (less key x p) _ _ (first, set_insert-All P p l h all)
        (pick-All P (less key p x) (p ∷ x ∷ l) (x ∷ l) (h, (first, all)) (first, all))

  pub set_erase-All : (P : ℕ → Type 0) (p : ℕ) (l : List ℕ) → All P l → All P (set_erase key p l)
  unfolding set_erase
  set_erase-All P p [] all = tt
  set_erase-All P p (x ∷ l) (first, all) =
      pick-All P (less key x p) _ _ (first, set_erase-All P p l all)
        (pick-All P (less key p x) (x ∷ l) l (first, all) all)

  pub set_insert-IsSorted :
      (p : ℕ) (l : List ℕ) → IsSorted key l → IsSorted key (set_insert key p l)
  unfolding set_insert
  set_insert-IsSorted p [] sorted = (tt, tt)
  set_insert-IsSorted p (x ∷ l) (below, sorted) = elim (Bool-cases (less key x p)) [
    | inl h ↦
        rw (h)
          (set_insert-All (λ y. less key x y ≡ true) p l h below, set_insert-IsSorted p l sorted)
    | inr h ↦ elim (Bool-cases (less key p x)) [
      | inl k ↦ rw (h, k) ((k, below-below p x l k below), (below, sorted))
      | inr k ↦ rw (h, k) (below, sorted)
    ]
  ]

  pub set_erase-IsSorted : (p : ℕ) (l : List ℕ) → IsSorted key l → IsSorted key (set_erase key p l)
  unfolding set_erase
  set_erase-IsSorted p [] sorted = tt
  set_erase-IsSorted p (x ∷ l) (below, sorted) = elim (Bool-cases (less key x p)) [
    | inl h ↦
        rw (h) (set_erase-All (λ y. less key x y ≡ true) p l below, set_erase-IsSorted p l sorted)
    | inr h ↦ elim (Bool-cases (less key p x)) [
      | inl k ↦ rw (h, k) (below, sorted)
      | inr k ↦ rw (h, k) sorted
    ]
  ]

  -- What is erased from a sorted set is not in it.
  pub set_erase-gone : (p : ℕ) (l : List ℕ) → IsSorted key l → All (λ y. y ≢ p) (set_erase key p l)
  unfolding set_erase
  set_erase-gone p [] sorted = tt
  set_erase-gone p (x ∷ l) (below, sorted) = elim (Bool-cases (less key x p)) [
    | inl h ↦ rw (h) ((λ e. less_ne x p h (sym e)), set_erase-gone p l sorted)
    | inr h ↦ elim (Bool-cases (less key p x)) [
      | inl k ↦ rw (h, k) (less_ne p x k, below-ne p l (below-below p x l k below))
      | inr k ↦
          rw (h, k) (subst (λ z. All (λ y. y ≢ z) l) (less_total x p h k) (below-ne x l below))
    ]
  ]

-- The order depends on the deadlines of the elements only.
module _ (key key' : ℕ → ℕ) where
  less-cong : (a b : ℕ) → key a ≡ key' a → key b ≡ key' b → less key a b ≡ less key' a b
  less-cong a b e f = rw (e, f) refl

  below-cong :
      (a : ℕ) (l : List ℕ)
      → key a ≡ key' a
      → All (λ y. key y ≡ key' y) l
      → All (λ y. less key a y ≡ true) l
      → All (λ y. less key' a y ≡ true) l
  below-cong a [] e same below = tt
  below-cong a (x ∷ l) e (f, same) (h, below) =
      (sym (less-cong a x e f) ∙ h, below-cong a l e same below)

  pub IsSorted-cong : (l : List ℕ) → All (λ y. key y ≡ key' y) l → IsSorted key l → IsSorted key' l
  IsSorted-cong [] same sorted = tt
  IsSorted-cong (x ∷ l) (e, same) (below, sorted) =
      (below-cong x l e same below, IsSorted-cong l same sorted)

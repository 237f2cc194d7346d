-- ===== src/Search/Positions.antt =====
-- The search that tries one position after the other, and the loop of `memmatch` against it.
use mathlib.Core.Path.{subst}
use unix_thread_ipc.Prelude.{
  ℕ, zero, suc, ◌+◌, ◌-◌, ◌≤◌, ◌<◌, ◌≡◌, refl, sym, ap, ◌∙◌, Bool, true, false, ◌&&◌, Option, none,
  some, arith, ltb, Bool-cases, inl, inr, ◌==◌, ==_of_eq, ℕ_discrete, dec_lt, if◌then◌else◌,
}
use unix_thread_ipc.Search.{enough, scan}

module _ (memory func : ℕ → ℕ) where
  -- Whether the `n` characters at `p` and at `q` are the same for `func`.
  unfoldable pub matches : ℕ → ℕ → ℕ → Bool
  matches p q zero = true
  matches p q (suc n) = matches p q n && (func (memory (p + n)) == func (memory (q + n)))

  -- The first of the `tries` positions from `p` on where the `n` characters at `q` are.
  unfoldable pub search_from : ℕ → ℕ → ℕ → ℕ → Option ℕ
  unfolding matches
  search_from q n zero p = none
  search_from q n (suc tries) p =
      let later = search_from q n tries (p + 1) in if matches p q n then some p else later

  pub matches-none : (p q : ℕ) → matches p q 0 ≡ true
  unfolding matches
  matches-none p q = refl

  pub search_from-none : (q n p : ℕ) → search_from q n 0 p ≡ none
  unfolding search_from
  search_from-none q n p = refl

  pub matches_self : (p n : ℕ) → matches p p n ≡ true
  unfolding matches
  matches_self p zero = refl
  matches_self p (suc n) = rw (matches_self p n) (==_of_eq _ _ refl)

  and-false : (b : Bool) → b && false ≡ false
  and-false true = refl
  and-false false = refl

  -- A difference at `k` is one of any `n` characters beyond it.
  matches-differ :
      (p q k n : ℕ)
      → k < n
      → (func (memory (p + k)) == func (memory (q + k))) ≡ false
      → matches p q n ≡ false
  unfolding matches
  matches-differ p q k zero h differ = absurd (omega arith)
  matches-differ p q k (suc n) h differ = elim (ℕ_discrete k n) [
    | yes e ↦
        ap (λ b. matches p q n && b)
          (subst (λ i. (func (memory (p + i)) == func (memory (q + i))) ≡ false) e differ)
        ∙ and-false (matches p q n)
    | no ne ↦
        ap (λ b. b && (func (memory (p + n)) == func (memory (q + n))))
          (matches-differ p q k n (omega arith) differ)
  ]

  search_from-miss :
      (q n tries p : ℕ)
      → matches p q n ≡ false
      → search_from q n tries p ≡ search_from q n (tries - 1) (p + 1)
  unfolding search_from
  search_from-miss q n zero p miss = refl
  search_from-miss q n (suc tries) p miss =
      rw (miss) (ap (λ i. search_from q n i (p + 1)) (omega arith))

  pub search_from-hit :
      (q n tries p : ℕ) → matches p q n ≡ true → 0 < tries → search_from q n tries p ≡ some p
  unfolding search_from
  search_from-hit q n zero p hit h = absurd (omega arith)
  search_from-hit q n (suc tries) p hit h = rw (hit) refl

  enough-positive : (t n : ℕ) → (t + 1 ≤ enough t n) × (0 < t → n + 1 < enough t n)
  enough-positive zero n = (omega arith, λ h. omega arith)
  enough-positive (suc t) n =
      (omega (arith, (enough-positive t n).0), λ h. omega (arith, (enough-positive t n).0))

  enough-pred : (t n : ℕ) → 0 < t → enough t n ≡ enough (t - 1) n + (n + 1)
  enough-pred zero n h = absurd (omega arith)
  enough-pred (suc t) n h = ap (λ i. enough i n + (n + 1)) (omega arith)

  module _ (hayend q n : ℕ) where
    -- The loop, with the first `k` characters at `base` the same, finds what the search from there on
    -- does.
    abbrev Finds : ℕ → ℕ → ℕ → ℕ → Type 0
    Finds fuel base k t =
        scan memory func hayend q n fuel (base + k) (q + k)
        ≡ some (search_from q n (t + 1 - n) base)

    end-Finds : (fuel base k t : ℕ) → base + t ≡ hayend → k ≡ t → k < n → Finds (suc fuel) base k t
    unfolding scan search_from
    end-Finds fuel base k t ends e short =
        let over : ltb (base + k) hayend ≡ false = ground arith in
        let none_left : t + 1 - n ≡ 0 = omega arith in rw (over, none_left) refl

    whole-Finds :
        (fuel base k t : ℕ)
        → base + t ≡ hayend
        → k < t
        → k + 1 ≡ n
        → matches base q n ≡ true
        → (func (memory (base + k)) == func (memory (q + k))) ≡ true
        → Finds (suc fuel) base k t
    unfolding scan
    whole-Finds fuel base k t ends inside whole matched same =
        let within : ltb (base + k) hayend ≡ true = ground arith in
        let last : (q + k + 1 == q + n) ≡ true = ground arith in
        rw (within, same, last, search_from-hit q n (t + 1 - n) base matched (omega arith))
          (ap (λ i. some (some i)) (omega arith))

    next-Finds :
        (fuel base k t : ℕ)
        → base + t ≡ hayend
        → k < t
        → k + 1 < n
        → (func (memory (base + k)) == func (memory (q + k))) ≡ true
        → Finds fuel base (k + 1) t
        → Finds (suc fuel) base k t
    unfolding scan
    next-Finds fuel base k t ends inside short same next =
        let within : ltb (base + k) hayend ≡ true = ground arith in
        let last : (q + k + 1 == q + n) ≡ false = ground arith in
        let hay : base + k + 1 ≡ base + (k + 1) = omega arith in
        let needle : q + k + 1 ≡ q + (k + 1) = omega arith in
        rw (within, same, last, hay, needle) next

    other-Finds :
        (fuel base k t : ℕ)
        → base + t ≡ hayend
        → k < t
        → k < n
        → (func (memory (base + k)) == func (memory (q + k))) ≡ false
        → Finds fuel (base + 1) 0 (t - 1)
        → Finds (suc fuel) base k t
    unfolding scan
    other-Finds fuel base k t ends inside short differ next =
        let within : ltb (base + k) hayend ≡ true = ground arith in
        let here : base + k - (q + k - q) + 1 ≡ base + 1 + 0 = omega arith in
        let needle : q ≡ q + 0 = omega arith in
        let counted : t - 1 + 1 - n ≡ t + 1 - n - 1 = omega arith in
        let miss = search_from-miss q n (t + 1 - n) base (matches-differ base q k n short differ) in
        let found : scan memory func hayend q n fuel (base + 1 + 0) (q + 0)
            ≡ some (search_from q n (t + 1 - n) base) =
          next ∙ ap (λ i. some (search_from q n i (base + 1))) counted ∙ ap some (sym miss) in
        elim (ℕ_discrete k 0) [
          | yes e ↦
              let start : (q + k == q) ≡ true = ground arith in
              rw (within, differ, start)
                (ap (λ i. scan memory func hayend q n fuel i (q + k)) (omega arith)
                  ∙ ap (λ i. scan memory func hayend q n fuel (base + 1 + 0) i) (omega arith)
                  ∙ found)
          | no ne ↦
              let start : (q + k == q) ≡ false = ground arith in
              rw (within, differ, start)
                (ap (λ i. scan memory func hayend q n fuel i q) here
                  ∙ ap (λ i. scan memory func hayend q n fuel (base + 1 + 0) i) needle
                  ∙ found)
        ]

  scan_lem :
      (hayend q n fuel base k t : ℕ)
      → base + t ≡ hayend
      → k ≤ t
      → k < n
      → enough t n ≤ fuel + k
      → matches base q k ≡ true
      → Finds hayend q n fuel base k t
  unfolding matches
  scan_lem hayend q n zero base k t ends inside short fueled matched =
      absurd (omega (arith, enough-positive t n))
  scan_lem hayend q n (suc fuel) base k t ends inside short fueled matched = elim (dec_lt k t) [
    | no p ↦ end-Finds hayend q n fuel base k t ends (omega arith) short
    | yes p ↦ elim (Bool-cases (func (memory (base + k)) == func (memory (q + k)))) [
      | inl same ↦
          let next : suc k ≡ k + 1 = omega arith in
          let longer : matches base q (k + 1) ≡ true =
            subst (λ i. matches base q i ≡ true) next (rw (matched) same) in
          elim (ℕ_discrete (k + 1) n) [
            | yes whole ↦
                whole-Finds hayend q n fuel base k t ends p whole
                  (subst (λ i. matches base q i ≡ true) whole longer) same
            | no more ↦ next-Finds hayend q n fuel base k t ends p (omega arith) same (
                scan_lem hayend q n fuel base (k + 1) t ends (omega arith) (omega arith)
                  (omega arith) longer)
          ]
      | inr differ ↦ other-Finds hayend q n fuel base k t ends p short differ (
          scan_lem hayend q n fuel (base + 1) 0 (t - 1) (omega arith) (omega arith) (omega arith)
            (omega (arith, enough-pred t n (omega arith))) refl)
    ]
  ]

  pub scan-start :
      (haystack haylen q n : ℕ)
      → 0 < n
      → scan memory func (haystack + haylen) q n (enough haylen n) haystack q
        ≡ some (search_from q n (haylen + 1 - n) haystack)
  scan-start haystack haylen q n h =
      let hay : haystack ≡ haystack + 0 = omega arith in
      let needle : q ≡ q + 0 = omega arith in
      ap (λ i. scan memory func (haystack + haylen) q n (enough haylen n) i q) hay
      ∙ ap (λ i. scan memory func (haystack + haylen) q n (enough haylen n) (haystack + 0) i) needle
      ∙ scan_lem (haystack + haylen) q n (enough haylen n) haystack 0 haylen refl (omega arith) h
          (omega arith) (matches-none haystack q)

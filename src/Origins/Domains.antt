-- ===== src/Origins/Domains.antt =====
-- Origins and their subdomains.
use mathlib.Core.List.{reverse, reverse-cons}
use mathlib.Core.Bool.{true≢false}
use mathlib.Core.List.{cons≢nil}
use unix_thread_ipc.Prelude.{
  ℕ, ◌≤◌, ◌≡◌, ◌↔◌, refl, sym, ap, ◌∙◌, Bool, true, false, List, [], ◌∷◌, arith, ltb, ==_iff,
  Bool-cases, inl, inr, length, length-append,
}
use unix_thread_ipc.Prelude.Int.{ℤ, pos, negsuc}
use unix_thread_ipc.Origins.{Origin, same_string, same_int, is_empty, is_sub_domain_of}
use unix_thread_ipc.Origins.Hosts.{
  head_of, tail_of, Answers, IsWithin, compare_hosts-Answers, reversed-IsWithin, within-StartsAs,
}

same_string_iff : (xs ys : List ℕ) → (same_string xs ys ≡ true) ↔ (xs ≡ ys)
same_string_iff [] [] = (λ t. refl, λ e. refl)
same_string_iff [] (y ∷ ys) = (λ t. absurd (ground (arith, t)), λ e. absurd (cons≢nil (sym e)))
same_string_iff (x ∷ xs) [] = (λ t. absurd (ground (arith, t)), λ e. absurd (cons≢nil e))
same_string_iff (x ∷ xs) (y ∷ ys) =
    let first = ==_iff x y in
    let rest = same_string_iff xs ys in
    (
      λ t.
          let e : x ≡ y = first.0 (ground (arith, t)) in
          let f : xs ≡ ys = rest.0 (ground (arith, t)) in ap (λ z. z ∷ xs) e ∙ ap (λ l. y ∷ l) f,
      λ e. let h = first.1 (ap head_of e) in let k = rest.1 (ap tail_of e) in ground (arith, h, k),
    )

size_of : ℤ → ℕ
size_of (pos a) = a
size_of (negsuc a) = a

is_pos : ℤ → Bool
is_pos (pos a) = true
is_pos (negsuc a) = false

same_int_iff : (a b : ℤ) → (same_int a b ≡ true) ↔ (a ≡ b)
unfolding size_of is_pos
same_int_iff (pos a) (pos b) = (λ t. ap pos ((==_iff a b).0 t), λ e. (==_iff a b).1 (ap size_of e))
same_int_iff (pos a) (negsuc b) =
    (λ t. absurd (ground (arith, t)), λ e. absurd (true≢false (ap is_pos e)))
same_int_iff (negsuc a) (pos b) =
    (λ t. absurd (ground (arith, t)), λ e. absurd (true≢false (sym (ap is_pos e))))
same_int_iff (negsuc a) (negsuc b) =
    (λ t. ap negsuc ((==_iff a b).0 t), λ e. (==_iff a b).1 (ap size_of e))

length-reverse : (xs : List ℕ) → length (reverse xs) ≡ length xs
length-reverse [] = refl
length-reverse (x ∷ xs) =
    ap length (reverse-cons x xs)
    ∙ length-append (reverse xs) (x ∷ [])
    ∙ omega (arith, length-reverse xs)

nonempty_length : (xs : List ℕ) → (is_empty xs ≡ false) ↔ (1 ≤ length xs)
nonempty_length [] = (λ e. absurd (ground (arith, e)), λ l. absurd (omega (arith, l)))
nonempty_length (x ∷ xs) = (λ e. omega arith, λ l. refl)

IsWithin-length : (host parent : List ℕ) → IsWithin host parent → length parent ≤ length host
IsWithin-length host parent (inl e) = omega (arith, ap length e)
IsWithin-length host parent (inr (labels, e)) =
    omega (arith, ap length e, length-append labels (46 ∷ parent))

-- The origin is that of the parent or of a subdomain of it.
abbrev pub IsSubDomain : Origin → Origin → Type 0
IsSubDomain o parent =
    (o.port ≡ parent.port) × (o.scheme ≡ parent.scheme) × IsWithin o.host parent.host

-- `IsSubDomainOf` a parent with a host reads nothing outside of the hosts, and answers whether port
-- and scheme are those of the parent and the host is the same or ends in a dot and the parent's.
pub is_sub_domain_of-Answers :
    (o parent : Origin)
    → is_empty parent.host ≡ false
    → Answers (IsSubDomain o parent) (is_sub_domain_of o parent)
unfolding is_sub_domain_of
is_sub_domain_of-Answers o parent e =
    let port = same_int_iff o.port parent.port in
    let scheme = same_string_iff o.scheme parent.scheme in
    let long = length-reverse o.host in
    let short = length-reverse parent.host in
    elim (Bool-cases (same_int o.port parent.port)) [
      | inr p ↦ rw (p) (
        false,
        refl,
        (λ t. absurd (ground (arith, t)), λ s. absurd (ground (arith, p, port.1 s.0))),
      )
      | inl p ↦ elim (Bool-cases (same_string o.scheme parent.scheme)) [
        | inr q ↦
            rw (p, q)
              (
                false,
                refl,
                (λ t. absurd (ground (arith, t)), λ s. absurd (ground (arith, q, scheme.1 s.1))),
              )
        | inl q ↦ elim (Bool-cases (ltb (length o.host) (length parent.host))) [
          | inl r ↦
              rw (p, q, r)
                (
                  false,
                  refl,
                  (
                    λ t. absurd (ground (arith, t)),
                    λ s. absurd (ground (arith, r, IsWithin-length o.host parent.host s.2)),
                  ),
                )
          | inr r ↦
              let some_left =
                (nonempty_length (reverse parent.host)).1
                  (omega (arith, short, (nonempty_length parent.host).0 e)) in
              let fits : length parent.host ≤ length o.host = ground (arith, r) in
              let (b, f, g) =
                compare_hosts-Answers (reverse o.host) (reverse parent.host) some_left
                  (omega (arith, long, short, fits)) in
              rw (p, q, r)
                (
                  b,
                  f,
                  (
                    λ t. (port.0 p, scheme.0 q, reversed-IsWithin o.host parent.host (g.0 t)),
                    λ s. g.1 (within-StartsAs o.host parent.host s.2),
                  ),
                )
        ]
      ]
    ]

-- ===== src/Origins/Authorized.antt =====
-- The authorised origins.
use mathlib.Core.Bool.{true≢false}
use unix_thread_ipc.Prelude.{
  ℕ, ◌≡◌, ◌⊎◌, refl, sym, ◌∙◌, Bool, true, false, ◌||◌, Option, none, some, List, [], ◌∷◌, map,
  arith, if◌then◌else◌, inl, inr, All,
}
use unix_thread_ipc.Prelude.Int.{ℤ, pos}
use unix_thread_ipc.Origins.{
  Origin, new_origin, Parsed, same_string, is_empty, http, https, file, res, init, init_from_host,
  unknown_domain, init_from_scheme, init_from_url, authorized_domains, is_sub_domain_of,
  is_authorized_origin,
}
use unix_thread_ipc.Origins.Hosts.{Answers}
use unix_thread_ipc.Origins.Domains.{IsSubDomain, is_sub_domain_of-Answers}

-- The origin is that of one of the domains or of a subdomain of one.
abbrev pub IsWithinAny : Origin → List Origin → Type 0
IsWithinAny o [] = true ≡ false
IsWithinAny o (domain ∷ rest) = IsSubDomain o domain ⊎ IsWithinAny o rest

-- The answer about one domain and that about the others.
or_later :
    (P Q : Type 0) (first later : Option Bool)
    → Answers P first
    → Answers Q later
    → Answers (P ⊎ Q) (elim first [ none ↦ none | some found ↦ if found then some true else later ])
or_later P Q first later (true, e, f) (b, e', g) =
    rw (e) (true, refl, (λ t. inl (f.0 t), λ s. refl))
or_later P Q first later (false, e, f) (b, e', g) = rw (e) (
  b,
  e',
  (λ t. inr (g.0 t), λ s. elim s [ inl p ↦ absurd (ground (arith, f.1 p)) | inr q ↦ g.1 q ]),
)

-- An origin that a URL of the list may have.
abbrev HasHost : Bool × Origin → Type 0
HasHost r = (r.0 ≡ false) ⊎ (is_empty r.1.host ≡ false)

either-HasHost :
    (c : Bool) (r s : Bool × Origin) → HasHost r → HasHost s → HasHost (if c then r else s)
either-HasHost true r s h k = h
either-HasHost false r s h k = k

module _ (parse : List ℕ → Parsed) (lower : ℕ → ℕ) (to_string : ℤ → List ℕ)
    (is_default_port : List ℕ → ℤ → Bool) where
  init-HasHost :
      (o : Origin) (full_url scheme host : List ℕ) (port : ℤ)
      → HasHost (init parse lower to_string is_default_port o full_url scheme host port)
  unfolding init
  init-HasHost o full_url scheme [] port = inl (ground arith)
  init-HasHost o full_url scheme (c ∷ host) port =
      either-HasHost (is_empty full_url || (is_empty scheme || false)) (false, o) _ (inl refl)
        (inr refl)

  init_from_host-HasHost :
      (o : Origin) (full_url scheme port : List ℕ) (host : Option (List ℕ))
      → HasHost (init_from_host parse lower to_string is_default_port o full_url scheme port host)
  init_from_host-HasHost o full_url scheme port none = inl refl
  init_from_host-HasHost o full_url scheme port (some host) = init-HasHost o full_url scheme host _

  init_from_scheme-HasHost :
      (o : Origin) (full_url : List ℕ) (scheme : Option (List ℕ))
      → HasHost (init_from_scheme parse lower to_string is_default_port o full_url scheme)
  init_from_scheme-HasHost o full_url none = inl refl
  init_from_scheme-HasHost o full_url (some found) =
      let scheme = map lower found in
      either-HasHost (same_string scheme http || same_string scheme https) _ _
        (either-HasHost (parse full_url).has_credentials (false, o) _ (inl refl)
          (init_from_host-HasHost o full_url scheme (parse full_url).port (parse full_url).host))
        (either-HasHost (same_string scheme file) _ _
          (init-HasHost o full_url file unknown_domain (pos 0))
          (either-HasHost (same_string scheme res) _ (false, o)
            (init-HasHost o full_url res unknown_domain (pos 0)) (inl refl)))

  init_from_url-HasHost :
      (o : Origin) (full_url : List ℕ)
      → HasHost (init_from_url parse lower to_string is_default_port o full_url)
  unfolding init_from_url
  init_from_url-HasHost o full_url =
      init_from_scheme-HasHost (record o { initialized = false }) full_url (parse full_url).scheme

  host_found : (r : Bool × Origin) → r.0 ≡ true → HasHost r → is_empty r.1.host ≡ false
  host_found r e (inl f) = absurd (true≢false (sym e ∙ f))
  host_found r e (inr h) = h

  -- If each of the authorised URLs can be parsed, `IsAuthorizedOrigin` reads nothing outside of the
  -- hosts, and answers whether port and scheme of the origin are those of one of these URLs and its
  -- host is that of the URL or ends in a dot and that of the URL.
  pub is_authorized_origin-Answers :
      (o : Origin) (urls : List (List ℕ))
      → All (λ u. (init_from_url parse lower to_string is_default_port new_origin u).0 ≡ true) urls
      → let domains = authorized_domains parse lower to_string is_default_port urls in
        Answers (IsWithinAny o domains) (is_authorized_origin o domains)
  unfolding is_authorized_origin authorized_domains
  is_authorized_origin-Answers o [] h = (false, refl, (λ t. sym t, λ s. sym s))
  is_authorized_origin-Answers o (url ∷ urls) h =
      let r = init_from_url parse lower to_string is_default_port new_origin url in
      let domains = authorized_domains parse lower to_string is_default_port urls in
      or_later (IsSubDomain o r.1) (IsWithinAny o domains) (is_sub_domain_of o r.1)
        (is_authorized_origin o domains)
        (is_sub_domain_of-Answers o r.1 (host_found r h.0 (init_from_url-HasHost new_origin url)))
        (is_authorized_origin-Answers o urls h.1)

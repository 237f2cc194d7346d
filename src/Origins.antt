-- ===== src/Origins.antt =====
-- SecurityOrigin of common/security_model.cc and .h.
--
-- Strings are lists of characters. The parser of URLs is not part of the repository: `parse` stands
-- for what ExtractScheme and ParseStandardURL find in a URL. `lower` is the function that
-- LowerString applies to each character, `to_string` is IntegerToString16 and `is_default_port` is
-- IsDefaultPort. A read outside of a string is `none`.
pub mod Hosts
pub mod Domains
pub mod Authorized
mod Tests
use mathlib.Core.List.{reverse}
use unix_thread_ipc.Prelude.{
  ℕ, Bool, true, false, not, ◌&&◌, ◌||◌, Option, none, some, List, [], ◌∷◌, ◌++◌, map, ltb, ◌==◌,
  if◌then◌else◌, length,
}
use unix_thread_ipc.Prelude.Int.{ℤ, pos, negsuc}
use unix_thread_ipc.Numbers.{parse_leading_integer}

-- `==` of two strings and of two numbers.
abbrev pub same_string : List ℕ → List ℕ → Bool
same_string [] [] = true
same_string [] (y ∷ ys) = false
same_string (x ∷ xs) [] = false
same_string (x ∷ xs) (y ∷ ys) = (x == y) && same_string xs ys

abbrev pub same_int : ℤ → ℤ → Bool
same_int (pos a) (pos b) = a == b
same_int (pos a) (negsuc b) = false
same_int (negsuc a) (pos b) = false
same_int (negsuc a) (negsuc b) = a == b

abbrev pub is_empty : List ℕ → Bool
is_empty [] = true
is_empty (x ∷ xs) = false

pub record Origin : Type 0 where
  pub initialized : Bool
  pub url : List ℕ
  pub full_url : List ℕ
  pub scheme : List ℕ
  pub host : List ℕ
  pub port : ℤ
  pub port_string : List ℕ

abbrev pub new_origin : Origin
new_origin = record {
  initialized = false;
  url = [];
  full_url = [];
  scheme = [];
  host = [];
  port = pos 0;
  port_string = [];
}

-- What the parser finds, `none` for a component that is missing.
pub record Parsed : Type 0 where
  pub scheme : Option (List ℕ)
  pub has_credentials : Bool
  pub host : Option (List ℕ)
  pub port : List ℕ

abbrev pub http : List ℕ
http = 104 ∷ 116 ∷ 116 ∷ 112 ∷ []

abbrev pub https : List ℕ
https = http ++ (115 ∷ [])

abbrev pub file : List ℕ
file = 102 ∷ 105 ∷ 108 ∷ 101 ∷ []

abbrev pub res : List ℕ
res = 114 ∷ 101 ∷ 115 ∷ []

-- "_null_.localdomain"
abbrev pub unknown_domain : List ℕ
unknown_domain =
    95 ∷ 110 ∷ 117 ∷ 108 ∷ 108 ∷ 95 ∷ 46 ∷ 108 ∷ 111 ∷ 99 ∷ 97 ∷ 108 ∷ 100 ∷ 111 ∷ 109 ∷ 97 ∷ 105
    ∷ 110 ∷ []

module _ (parse : List ℕ → Parsed) (lower : ℕ → ℕ) (to_string : ℤ → List ℕ)
    (is_default_port : List ℕ → ℤ → Bool) where
  unfoldable pub init : Origin → List ℕ → List ℕ → List ℕ → ℤ → Bool × Origin
  init o full_url scheme host port =
      if is_empty full_url || (is_empty scheme || is_empty host) then (false, o) else (
        true,
        record {
          initialized = true;
          url =
              map lower scheme
              ++ (58 ∷ 47 ∷ 47 ∷ host)
              ++ (if is_default_port (map lower scheme) port then [] else 58 ∷ to_string port);
          full_url = full_url;
          scheme = map lower scheme;
          host = map lower host;
          port = port;
          port_string = to_string port;
        },
      )

  -- The port of an http or https URL.
  abbrev pub port_of : List ℕ → List ℕ → ℤ
  port_of scheme port =
      if not (is_empty port)
      then parse_leading_integer port
      else if same_string scheme https
      then pos 443
      else pos 80

  abbrev pub init_from_host : Origin → List ℕ → List ℕ → List ℕ → Option (List ℕ) → Bool × Origin
  init_from_host o full_url scheme port none = (false, o)
  init_from_host o full_url scheme port (some host) =
      init o full_url scheme host (port_of scheme port)

  abbrev pub init_from_scheme : Origin → List ℕ → Option (List ℕ) → Bool × Origin
  init_from_scheme o full_url none = (false, o)
  init_from_scheme o full_url (some found) =
      let scheme = map lower found in
      if same_string scheme http || same_string scheme https
      then (if (parse full_url).has_credentials
          then (false, o)
          else init_from_host o full_url scheme (parse full_url).port (parse full_url).host)
      else if same_string scheme file
      then init o full_url file unknown_domain (pos 0)
      else if same_string scheme res
      then init o full_url res unknown_domain (pos 0)
      else (false, o)

  unfoldable pub init_from_url : Origin → List ℕ → Bool × Origin
  unfolding init
  init_from_url o full_url =
      init_from_scheme (record o { initialized = false }) full_url (parse full_url).scheme

  -- The static list of `IsAuthorizedOrigin`; whether `InitFromUrl` succeeds is not tested.
  unfoldable pub authorized_domains : List (List ℕ) → List Origin
  unfolding init_from_url
  authorized_domains [] = []
  authorized_domains (url ∷ rest) = (init_from_url new_origin url).1 ∷ authorized_domains rest

unfoldable pub is_same_origin : Origin → Origin → Bool
is_same_origin o other =
    same_int o.port other.port
    && (same_string o.scheme other.scheme && same_string o.host other.host)

-- The loop of `IsSubDomainOf` over both hosts from their ends.
unfoldable pub compare_hosts : List ℕ → List ℕ → Option Bool
compare_hosts [] parent = none
compare_hosts (x ∷ host) [] = none
compare_hosts (x ∷ host) (y ∷ []) =
    if not (x == y) then some false else elim host [ [] ↦ some true | c ∷ _ ↦ some (c == 46) ]
compare_hosts (x ∷ host) (y ∷ z ∷ parent) =
    let rest = compare_hosts host (z ∷ parent) in if not (x == y) then some false else rest

unfoldable pub is_sub_domain_of : Origin → Origin → Option Bool
unfolding compare_hosts
is_sub_domain_of o parent =
    if not (same_int o.port parent.port)
      || (not (same_string o.scheme parent.scheme) || ltb (length o.host) (length parent.host))
    then some false
    else compare_hosts (reverse o.host) (reverse parent.host)

-- `IsAuthorizedOrigin`, where `domains` are the origins of the authorised URLs.
unfoldable pub is_authorized_origin : Origin → List Origin → Option Bool
unfolding is_sub_domain_of
is_authorized_origin o [] = some false
is_authorized_origin o (domain ∷ rest) =
    let later = is_authorized_origin o rest in
    elim (is_sub_domain_of o domain) [
      | none ↦ none
      | some found ↦ if found then some true else later
    ]

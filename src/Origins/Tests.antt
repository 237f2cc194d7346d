-- ===== src/Origins/Tests.antt =====
-- Examples for origins: a parser that takes every URL for the host of an http URL, and the domain
-- "b.c" in the list.
use unix_thread_ipc.Prelude.{ℕ, ◌≡◌, refl, Bool, true, false, some, List, [], ◌∷◌}
use unix_thread_ipc.Prelude.Int.{ℤ}
use unix_thread_ipc.Origins.{
  Origin, new_origin, Parsed, http, init_from_url, authorized_domains, is_same_origin,
  is_authorized_origin,
}
use unix_thread_ipc.Origins.Hosts.{Answers}
use unix_thread_ipc.Origins.Authorized.{IsWithinAny, is_authorized_origin-Answers}

abbrev parse : List ℕ → Parsed
parse url = record { scheme = some http; has_credentials = false; host = some url; port = [] }

abbrev lower : ℕ → ℕ
lower c = c

abbrev to_string : ℤ → List ℕ
to_string port = 56 ∷ 48 ∷ []

abbrev is_default_port : List ℕ → ℤ → Bool
is_default_port scheme port = true

abbrev urls : List (List ℕ)
urls = (98 ∷ 46 ∷ 99 ∷ []) ∷ []

abbrev domains : List Origin
domains = authorized_domains parse lower to_string is_default_port urls

-- "a.b.c" and "ab.c"
abbrev inside : Origin
inside =
    (init_from_url parse lower to_string is_default_port new_origin (97 ∷ 46 ∷ 98 ∷ 46 ∷ 99 ∷ [])).1

abbrev outside : Origin
outside =
    (init_from_url parse lower to_string is_default_port new_origin (97 ∷ 98 ∷ 46 ∷ 99 ∷ [])).1

inside_test : is_authorized_origin inside domains ≡ some true
unfolding is_authorized_origin authorized_domains init_from_url
inside_test = refl

outside_test : is_authorized_origin outside domains ≡ some false
unfolding is_authorized_origin authorized_domains init_from_url
outside_test = refl

is_authorized_origin-Answers_example :
    Answers (IsWithinAny inside domains) (is_authorized_origin inside domains)
unfolding init_from_url
is_authorized_origin-Answers_example =
    is_authorized_origin-Answers parse lower to_string is_default_port inside urls (refl, tt)

-- Two origins that do not exist are the same.
uninitialized_test : is_same_origin new_origin new_origin ≡ true
unfolding is_same_origin
uninitialized_test = refl

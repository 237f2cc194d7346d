-- ===== src/Escape/Tests.antt =====
-- A file name with a space, a percent sign and a letter outside ASCII.
use unix_thread_ipc.Prelude.{ℕ, ◌≡◌, refl, some, List, [], ◌∷◌, arith}
use unix_thread_ipc.Escape.{intersects, is_copied, escape_loop, escape_url, unescape_url}
use unix_thread_ipc.Escape.RoundTrip.{unescape_url-escape_url}

abbrev name : List ℕ
name = 97 ∷ 32 ∷ 37 ∷ 52 ∷ 195 ∷ 164 ∷ []

name-escape_url :
    escape_url name 1040
    ≡ some (97 ∷ 37 ∷ 50 ∷ 48 ∷ 37 ∷ 50 ∷ 53 ∷ 52 ∷ 37 ∷ 67 ∷ 51 ∷ 37 ∷ 65 ∷ 52 ∷ [])
unfolding escape_url escape_loop is_copied intersects
name-escape_url = refl

unescape_url-escape_url_example :
    (text : List ℕ) × ((escape_url name 1040 ≡ some text) × (unescape_url text ≡ name))
unfolding intersects
unescape_url-escape_url_example =
    unescape_url-escape_url name 1040
      (omega arith, (omega arith, (omega arith, (omega arith, (omega arith, (omega arith, tt))))))
      refl refl

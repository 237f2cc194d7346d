-- ===== src/Escape.antt =====
-- EscapeUrl and UnescapeURL of common/url_utils.cc, with the hexadecimal digits of
-- common/string_utils.h.
--
-- A string is the list of its bytes, and `flags` a number below 2^16. The part of the result that
-- waits in `temp_buffer` is a list; an index beyond its 100 places is `none`.
pub mod RoundTrip
mod Tests
use unix_thread_ipc.Prelude.{
  ℕ, zero, suc, ◌+◌, ◌-◌, ◌*◌, ◌/◌, ◌%◌, Bool, true, false, not, ◌&&◌, ◌||◌, Option, none, some,
  List, [], ◌∷◌, ◌++◌, ltb, leb, ◌==◌, if◌then◌else◌, length, get_or,
}
use unix_thread_ipc.Serialization.{c_string}

abbrev pub escape_chars : List ℕ
escape_chars =
    0 ∷ 0 ∷ 0 ∷ 0 ∷ 0 ∷ 0 ∷ 0 ∷ 0 ∷ 0 ∷ 0 ∷ 0 ∷ 0 ∷ 0 ∷ 0 ∷ 0 ∷ 0 ∷ 0 ∷ 0 ∷ 0 ∷ 0 ∷ 0 ∷ 0 ∷ 0 ∷ 0
    ∷ 0 ∷ 0 ∷ 0 ∷ 0 ∷ 0 ∷ 0 ∷ 0 ∷ 0 ∷ 0 ∷ 1023 ∷ 0 ∷ 512 ∷ 1023 ∷ 0 ∷ 1023 ∷ 1023 ∷ 1023 ∷ 1023
    ∷ 1023 ∷ 1023 ∷ 1023 ∷ 1023 ∷ 953 ∷ 784 ∷ 1023 ∷ 1023 ∷ 1023 ∷ 1023 ∷ 1023 ∷ 1023 ∷ 1023 ∷ 1023
    ∷ 1023 ∷ 1023 ∷ 1008 ∷ 912 ∷ 0 ∷ 1008 ∷ 0 ∷ 768 ∷ 1008 ∷ 1023 ∷ 1023 ∷ 1023 ∷ 1023 ∷ 1023 ∷ 1023
    ∷ 1023 ∷ 1023 ∷ 1023 ∷ 1023 ∷ 1023 ∷ 1023 ∷ 1023 ∷ 1023 ∷ 1023 ∷ 1023 ∷ 1023 ∷ 1023 ∷ 1023
    ∷ 1023 ∷ 1023 ∷ 1023 ∷ 1023 ∷ 1023 ∷ 1023 ∷ 1023 ∷ 896 ∷ 896 ∷ 896 ∷ 896 ∷ 1023 ∷ 0 ∷ 1023
    ∷ 1023 ∷ 1023 ∷ 1023 ∷ 1023 ∷ 1023 ∷ 1023 ∷ 1023 ∷ 1023 ∷ 1023 ∷ 1023 ∷ 1023 ∷ 1023 ∷ 1023
    ∷ 1023 ∷ 1023 ∷ 1023 ∷ 1023 ∷ 1023 ∷ 1023 ∷ 1023 ∷ 1023 ∷ 1023 ∷ 1023 ∷ 1023 ∷ 1023 ∷ 896 ∷ 1012
    ∷ 896 ∷ 1023 ∷ 0 ∷ 0 ∷ []

-- `EscapeFlags`
abbrev pub escape_forced : ℕ
escape_forced = 1024

abbrev pub escape_only_ascii : ℕ
escape_only_ascii = 2048

abbrev pub escape_only_non_ascii : ℕ
escape_only_non_ascii = 4096

abbrev pub escape_colon : ℕ
escape_colon = 16384

-- `(a & b) != 0` for the lowest `k` bits.
unfoldable pub intersects : ℕ → ℕ → ℕ → Bool
intersects zero a b = false
intersects (suc k) a b = ((a % 2 == 1) && (b % 2 == 1)) || intersects k (a / 2) (b / 2)

-- `hex_chars`
abbrev pub hex_char : ℕ → ℕ
hex_char d = if ltb d 10 then 48 + d else 55 + d

-- Whether the character is copied as it is.
unfoldable pub is_copied : ℕ → Bool → ℕ → Bool
unfolding intersects
is_copied flags previous_is_non_ascii c =
    (intersects 16 (get_or escape_chars c 0) flags
      || (((c == 37) && not (intersects 16 flags escape_forced))
          || ((ltb 127 c && intersects 16 flags escape_only_ascii)
              || (ltb 31 c && (ltb c 127 && intersects 16 flags escape_only_non_ascii)))))
    && (not ((c == 58) && intersects 16 flags escape_colon)
        && not
            (previous_is_non_ascii && ((c == 124) && not (intersects 16 flags escape_only_ascii))))

abbrev pub escape_char : ℕ → Bool → ℕ → List ℕ
escape_char flags previous_is_non_ascii c =
    if is_copied flags previous_is_non_ascii c
    then c ∷ []
    else 37 ∷ hex_char (c / 16) ∷ hex_char (c % 16) ∷ []

-- The loop of `EscapeUrl`, with `result`, `temp_buffer` and `previous_is_non_ascii`.
-- `result += temp_buffer` ends at the first zero.
unfoldable pub escape_loop : ℕ → List ℕ → List ℕ → List ℕ → Bool → Option (List ℕ)
unfolding is_copied
escape_loop flags [] result temp_buffer previous = some (result ++ c_string temp_buffer)
escape_loop flags (c ∷ rest) result temp_buffer previous =
    let filled = temp_buffer ++ escape_char flags previous c in
    let flushed = escape_loop flags rest (result ++ c_string filled) [] (ltb 127 c) in
    let kept = escape_loop flags rest result filled (ltb 127 c) in
    if ltb 99 (length filled) then none else if leb 96 (length filled) then flushed else kept

unfoldable pub escape_url : List ℕ → ℕ → Option (List ℕ)
unfolding escape_loop
escape_url source flags = escape_loop flags source [] [] false

-- `IsHex` and `HexToInt`
abbrev pub is_hex : ℕ → Bool
is_hex c = (leb 48 c && leb c 57) || ((leb 65 c && leb c 70) || (leb 97 c && leb c 102))

abbrev pub hex_to_int : ℕ → ℕ
hex_to_int c =
    if leb 48 c && leb c 57
    then c - 48
    else if leb 65 c && leb c 70
    then c - 65 + 10
    else if leb 97 c && leb c 102
    then c - 97 + 10
    else 0

-- The loop of `UnescapeURLImpl`, without `replace_plus`.
unfoldable pub unescape_url : List ℕ → List ℕ
unescape_url [] = []
unescape_url (c ∷ []) = c ∷ []
unescape_url (c ∷ d ∷ []) = c ∷ d ∷ []
unescape_url (c ∷ high ∷ low ∷ rest) =
    let decoded = unescape_url rest in
    let copied = unescape_url (high ∷ low ∷ rest) in
    if (c == 37) && (is_hex high && is_hex low)
    then (hex_to_int high * 16 + hex_to_int low) ∷ decoded
    else c ∷ copied

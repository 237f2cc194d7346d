-- ===== src/Escape/RoundTrip.antt =====
-- `UnescapeURL` behind `EscapeUrl`, and the bounds of `temp_buffer`.
use mathlib.Core.Bool.{true≢false}
use unix_thread_ipc.Prelude.{
  ℕ, zero, suc, ◌/◌, ◌%◌, ◌≤◌, ◌<◌, ◌≡◌, ◌≢◌, refl, sym, ap, ◌∙◌, Bool, true, false, some, List, [],
  ◌∷◌, ◌++◌, append-nil, append_assoc, arith, ltb, leb, ==_of_ne, length, length-append, All,
  dec_lt, Bool-cases, inl, inr,
}
use unix_thread_ipc.Escape.{
  escape_forced, escape_only_non_ascii, intersects, hex_char, is_copied, escape_char, escape_loop,
  escape_url, is_hex, hex_to_int, unescape_url,
}
use unix_thread_ipc.Serialization.{c_string}

intersects-zero : (k b : ℕ) → intersects k 0 b ≡ false
unfolding intersects
intersects-zero zero b = refl
intersects-zero (suc k) b = intersects-zero k (b / 2)

-- What the source becomes, without the buffer.
abbrev escaped : ℕ → Bool → List ℕ → List ℕ
escaped flags previous [] = []
escaped flags previous (c ∷ rest) = escape_char flags previous c ++ escaped flags (ltb 127 c) rest

hex_char-is_hex : (d : ℕ) → d < 16 → is_hex (hex_char d) ≡ true
hex_char-is_hex d h = ground arith

hex_to_int-hex_char : (d : ℕ) → d < 16 → hex_to_int (hex_char d) ≡ d
hex_to_int-hex_char d h = ground arith

hex_char-nonzero : (d : ℕ) → hex_char d ≢ 0
hex_char-nonzero d e = ground arith

-- With `flags` that force the escape of percent signs, no percent sign is copied.
abbrev IsForced : ℕ → Type 0
IsForced flags =
    (intersects 16 flags escape_forced ≡ true) × (intersects 16 flags escape_only_non_ascii ≡ false)

percent-is_copied :
    (flags : ℕ) (previous : Bool) → IsForced flags → is_copied flags previous 37 ≡ false
unfolding is_copied
percent-is_copied flags previous (forced, all) = rw (intersects-zero 16 flags, forced, all) refl

zero-is_copied : (flags : ℕ) (previous : Bool) → is_copied flags previous 0 ≡ false
unfolding is_copied
zero-is_copied flags previous = rw (intersects-zero 16 flags) refl

unescape_url-plain :
    (c : ℕ) (rest : List ℕ) → c ≢ 37 → unescape_url (c ∷ rest) ≡ c ∷ unescape_url rest
unfolding unescape_url
unescape_url-plain c [] ne = refl
unescape_url-plain c (d ∷ []) ne = refl
unescape_url-plain c (high ∷ low ∷ rest) ne = rw (==_of_ne c 37 ne) refl

unescape_url-hex :
    (c : ℕ) (rest : List ℕ)
    → c < 256
    → unescape_url (37 ∷ hex_char (c / 16) ∷ hex_char (c % 16) ∷ rest) ≡ c ∷ unescape_url rest
unfolding unescape_url
unescape_url-hex c rest h =
    let high : c / 16 < 16 = omega arith in
    let low : c % 16 < 16 = omega arith in
    rw
      (
        hex_char-is_hex (c / 16) high,
        hex_char-is_hex (c % 16) low,
        hex_to_int-hex_char (c / 16) high,
        hex_to_int-hex_char (c % 16) low,
      )
      (ap (λ x. x ∷ unescape_url rest) (omega arith))

unescape_url-escape_char :
    (flags : ℕ) (previous : Bool) (c : ℕ) (rest : List ℕ)
    → IsForced flags
    → c < 256
    → unescape_url (escape_char flags previous c ++ rest) ≡ c ∷ unescape_url rest
unescape_url-escape_char flags previous c rest forced h =
    elim (Bool-cases (is_copied flags previous c)) [
      | inl e ↦ rw (e) (
          unescape_url-plain c rest (λ percent. true≢false (
            sym e
            ∙ ap (is_copied flags previous) percent
            ∙ percent-is_copied flags previous forced)))
      | inr e ↦ rw (e) (unescape_url-hex c rest h)
    ]

escape_char-nonzero :
    (flags : ℕ) (previous : Bool) (c : ℕ)
    → c < 256
    → All (λ b. b ≢ 0) (escape_char flags previous c)
escape_char-nonzero flags previous c h = elim (Bool-cases (is_copied flags previous c)) [
  | inl e ↦ rw (e) (
    (λ is_zero.
        true≢false (sym e ∙ ap (is_copied flags previous) is_zero ∙ zero-is_copied flags previous)),
    tt,
  )
  | inr e ↦
      rw (e) ((λ z. omega arith), (hex_char-nonzero (c / 16), (hex_char-nonzero (c % 16), tt)))
]

escape_char-short :
    (flags : ℕ) (previous : Bool) (c : ℕ) → length (escape_char flags previous c) ≤ 3
escape_char-short flags previous c = elim (Bool-cases (is_copied flags previous c)) [
  | inl e ↦ rw (e) (omega arith)
  | inr e ↦ rw (e) (omega arith)
]

abbrev IsNonzero : List ℕ → Type 0
IsNonzero = All (λ b. b ≢ 0)

c_string_lem : (xs : List ℕ) → IsNonzero xs → c_string xs ≡ xs
c_string_lem [] h = refl
c_string_lem (x ∷ xs) (ne, h) = rw (==_of_ne x 0 ne) (ap (λ l. x ∷ l) (c_string_lem xs h))

append-IsNonzero : (xs ys : List ℕ) → IsNonzero xs → IsNonzero ys → IsNonzero (xs ++ ys)
append-IsNonzero [] ys h k = k
append-IsNonzero (x ∷ xs) ys (ne, h) k = (ne, append-IsNonzero xs ys h k)

abbrev pub AreBytes : List ℕ → Type 0
AreBytes = All (λ b. b < 256)

ltb_of_le : (a b : ℕ) → b ≤ a → ltb a b ≡ false
ltb_of_le a b h = ground arith

leb_of_lt : (a b : ℕ) → b < a → leb a b ≡ false
leb_of_lt a b h = ground arith

leb_of_le : (a b : ℕ) → a ≤ b → leb a b ≡ true
leb_of_le a b h = ground arith

-- The loop never fills more than 98 of the 100 places before it empties the buffer.
escape_loop_lem :
    (flags : ℕ) (source result temp : List ℕ) (previous : Bool)
    → AreBytes source
    → IsNonzero temp
    → length temp < 96
    → escape_loop flags source result temp previous
      ≡ some (result ++ (temp ++ escaped flags previous source))
unfolding escape_loop
escape_loop_lem flags [] result temp previous bytes nonzero small =
    ap (λ l. some (result ++ l)) (c_string_lem temp nonzero ∙ sym (append-nil temp))
escape_loop_lem flags (c ∷ rest) result temp previous (byte, bytes) nonzero small =
    let piece = escape_char flags previous c in
    let filled = temp ++ piece in
    let size = length-append temp piece in
    let short = escape_char-short flags previous c in
    let inside : ltb 99 (length filled) ≡ false =
      ltb_of_le 99 (length filled) (omega (arith, size, short)) in
    let filled_nonzero =
      append-IsNonzero temp piece nonzero (escape_char-nonzero flags previous c byte) in
    let later = escaped flags (ltb 127 c) rest in
    elim (dec_lt (length filled) 96) [
      | yes p ↦
          let room : leb 96 (length filled) ≡ false = leb_of_lt 96 (length filled) p in
          rw (inside, room)
            (escape_loop_lem flags rest result filled (ltb 127 c) bytes filled_nonzero p
              ∙ ap (λ l. some (result ++ l)) (append_assoc temp piece later))
      | no p ↦
          let full : leb 96 (length filled) ≡ true = leb_of_le 96 (length filled) (omega arith) in
          rw (inside, full)
            (escape_loop_lem flags rest (result ++ c_string filled) [] (ltb 127 c) bytes tt
                (omega arith)
              ∙ ap (λ l. some ((result ++ l) ++ later)) (c_string_lem filled filled_nonzero)
              ∙ ap some (append_assoc result filled later)
              ∙ ap (λ l. some (result ++ l)) (append_assoc temp piece later))
    ]

unescape_url-escaped :
    (flags : ℕ) (previous : Bool) (source : List ℕ)
    → IsForced flags
    → AreBytes source
    → unescape_url (escaped flags previous source) ≡ source
unfolding unescape_url
unescape_url-escaped flags previous [] forced bytes = refl
unescape_url-escaped flags previous (c ∷ rest) forced (byte, bytes) =
    unescape_url-escape_char flags previous c (escaped flags (ltb 127 c) rest) forced byte
    ∙ ap (λ l. c ∷ l) (unescape_url-escaped flags (ltb 127 c) rest forced bytes)

-- `EscapeUrl` never writes beyond its buffer of 100 characters, and `UnescapeURL` gives its source
-- back, for any bytes and flags with ESCAPE_FORCED and without ESCAPE_ONLYNONASCII.
pub unescape_url-escape_url :
    (source : List ℕ) (flags : ℕ)
    → AreBytes source
    → intersects 16 flags escape_forced ≡ true
    → intersects 16 flags escape_only_non_ascii ≡ false
    → (text : List ℕ) × ((escape_url source flags ≡ some text) × (unescape_url text ≡ source))
unfolding escape_url
unescape_url-escape_url source flags bytes forced all = (
  escaped flags false source,
  (
    escape_loop_lem flags source [] [] false bytes tt (omega arith),
    unescape_url-escaped flags false source (forced, all) bytes,
  ),
)

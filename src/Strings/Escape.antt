-- ===== src/Strings/Escape.antt =====
-- url.PathEscape and url.PathUnescape of Go's package net/url.
use obsidian_mcp_server.Prelude.{
  ℕ, zero, suc, ◌+◌, ◌-◌, ◌*◌, ◌/◌, ◌%◌, ◌<◌, ◌≤◌, ◌≡◌, refl, ap, ◌∙◌, Bool, true, false, ◌&&◌,
  ◌||◌, Option, none, some, [], ◌∷◌, ◌++◌, ◌==◌, if◌then◌else◌, ltb, leb, length, All, arith,
}
use obsidian_mcp_server.Strings.{Bytes}

abbrev between : ℕ → ℕ → ℕ → Bool
between low high c = leb low c && leb c high

-- The bytes that stand for themselves in a segment of a path: letters, digits, -_.~ and $&+:=@.
abbrev pub is_plain : ℕ → Bool
is_plain c =
    between b'a' b'z' c
    || between b'A' b'Z' c
    || between b'0' b'9' c
    || c == b'-'
    || c == b'_'
    || c == b'.'
    || c == b'~'
    || c == b'$'
    || c == b'&'
    || c == b'+'
    || c == b':'
    || c == b'='
    || c == b'@'

abbrev pub hex_digit : ℕ → ℕ
hex_digit d = if ltb d 10 then b'0' + d else (b'A' + d) - 10

abbrev pub escaped : ℕ → Bytes
escaped c = if is_plain c then c ∷ [] else b'%' ∷ hex_digit (c / 16) ∷ hex_digit (c % 16) ∷ []

-- url.PathEscape
unfoldable pub path_escape : Bytes → Bytes
path_escape [] = []
path_escape (c ∷ s) = escaped c ++ path_escape s

abbrev pub hex_value : ℕ → Option ℕ
hex_value c =
    if between b'0' b'9' c
    then some (c - b'0')
    else if between b'a' b'f' c
    then some ((c - b'a') + 10)
    else if between b'A' b'F' c
    then some ((c - b'A') + 10)
    else none

abbrev pub from_digits : Option ℕ → Option ℕ → Option ℕ
from_digits (some a) (some b) = some (a * 16 + b)
from_digits _ _ = none

abbrev pub with_rest : Bytes → Option ℕ → Option (ℕ × Bytes)
with_rest rest none = none
with_rest rest (some b) = some (b, rest)

abbrev pub digits_at : Bytes → Option (ℕ × Bytes)
digits_at (a ∷ b ∷ rest) = with_rest rest (from_digits (hex_value a) (hex_value b))
digits_at _ = none

-- One byte of what was escaped, and the text behind.
unfoldable pub unescape_one : ℕ → Bytes → Option (ℕ × Bytes)
unescape_one x xs = if x == b'%' then digits_at xs else some (x, xs)

abbrev pub put_first : ℕ → Option Bytes → Option Bytes
put_first b none = none
put_first b (some s) = some (b ∷ s)

-- On fuel; each round takes at least one byte.
unfoldable pub unescape : ℕ → Bytes → Option Bytes
unfolding unescape_one
unescape zero s = some []
unescape (suc fuel) [] = some []
unescape (suc fuel) (x ∷ xs) = elim (unescape_one x xs) [
  | some (b, rest) ↦ put_first b (unescape fuel rest)
  | none ↦ none
]

-- url.PathUnescape; `none` is an error.
unfoldable pub path_unescape : Bytes → Option Bytes
unfolding unescape
path_unescape s = unescape (length s) s

hex_value-hex_digit : (d : ℕ) → d < 16 → hex_value (hex_digit d) ≡ some d
hex_value-hex_digit d h = ground arith

digits_at-hex_digit :
    (c : ℕ) (rest : Bytes)
    → c < 256
    → digits_at (hex_digit (c / 16) ∷ hex_digit (c % 16) ∷ rest) ≡ some (c, rest)
digits_at-hex_digit c rest h =
    rw (hex_value-hex_digit (c / 16) (omega arith), hex_value-hex_digit (c % 16) (omega arith))
      (ap (λ n. some (n, rest)) (omega arith))

-- One round gives a byte back, whether it was escaped or not.
round :
    (c fuel : ℕ) (rest : Bytes)
    → c < 256
    → unescape (suc fuel) (escaped c ++ rest) ≡ put_first c (unescape fuel rest)
unfolding unescape unescape_one
round c fuel rest h = coded (is_plain c) refl
  where
    plain :
        (c == b'%') ≡ false
        → (elim (if c == b'%' then digits_at rest else some (c, rest)) as (λ _. Option Bytes) [
          | some (b, r) ↦ put_first b (unescape fuel r)
          | none ↦ none
        ])
          ≡ put_first c (unescape fuel rest)
    plain e = rw e refl

    coded :
        (b : Bool)
        → is_plain c ≡ b
        → unescape
            (suc fuel)
            ((if b then c ∷ [] else b'%' ∷ hex_digit (c / 16) ∷ hex_digit (c % 16) ∷ []) ++ rest)
          ≡ put_first c (unescape fuel rest)
    coded true e = plain (ground (arith, e))
    coded false e =
        ap
          (λ o. elim o as (λ _. Option Bytes) [
            | some (b, r) ↦ put_first b (unescape fuel r)
            | none ↦ none
          ])
          (digits_at-hex_digit c rest h)

length-escaped : (c : ℕ) (s : Bytes) → suc (length s) ≤ length (escaped c ++ s)
length-escaped c s = by_plain (is_plain c)
  where
    by_plain :
        (b : Bool)
        → suc (length s)
          ≤ length
              ((if b then c ∷ [] else b'%' ∷ hex_digit (c / 16) ∷ hex_digit (c % 16) ∷ []) ++ s)
    by_plain true = omega arith
    by_plain false = omega arith

unescape-path_escape :
    (s : Bytes) (fuel : ℕ)
    → All (λ c. c < 256) s
    → length (path_escape s) ≤ fuel
    → unescape fuel (path_escape s) ≡ some s
unfolding path_escape unescape
unescape-path_escape [] zero h l = refl
unescape-path_escape [] (suc fuel) h l = refl
unescape-path_escape (c ∷ s) zero h l = absurd (omega (arith, length-escaped c (path_escape s), l))
unescape-path_escape (c ∷ s) (suc fuel) h l =
    round c fuel (path_escape s) h.0
    ∙ ap (put_first c)
        (unescape-path_escape s fuel h.1 (omega (arith, length-escaped c (path_escape s), l)))

-- A text of bytes that is escaped is given back by unescaping.
pub path_unescape-path_escape :
    (s : Bytes) → All (λ c. c < 256) s → path_unescape (path_escape s) ≡ some s
unfolding path_unescape
path_unescape-path_escape s h = unescape-path_escape s (length (path_escape s)) h (omega arith)

-- ===== src/Strings/Runes.antt =====
-- How Go takes a string apart into characters in UTF-8: `utf8.DecodeRune`, which the package regexp
-- goes by. A byte that begins no valid character is one of width 1.
use obsidian_mcp_server.Prelude.{
  ℕ, ◌+◌, ◌/◌, ◌%◌, Bool, ◌&&◌, Option, none, some, [], ◌∷◌, ◌==◌, if◌then◌else◌, leb, ltb, take,
  drop, get_elem?,
}
use obsidian_mcp_server.Strings.{Bytes}

abbrev between : ℕ → ℕ → ℕ → Bool
between low high b = leb low b && leb b high

abbrev or_zero : Option ℕ → ℕ
or_zero none = 0
or_zero (some b) = b

abbrev byte_at : ℕ → Bytes → ℕ
byte_at i s = or_zero (get_elem? s i)

abbrev continues : ℕ → Bool
continues b = between 0x80 0xBF b

-- The first two bytes of a character of three bytes.
abbrev begins_three : ℕ → ℕ → Bool
begins_three a b =
    if a == 0xE0
    then between 0xA0 0xBF b
    else if a == 0xED
    then between 0x80 0x9F b
    else between 0xE1 0xEF a && continues b

-- The first two bytes of a character of four bytes.
abbrev begins_four : ℕ → ℕ → Bool
begins_four a b =
    if a == 0xF0
    then between 0x90 0xBF b
    else if a == 0xF4
    then between 0x80 0x8F b
    else between 0xF1 0xF3 a && continues b

unfoldable pub rune_width : Bytes → ℕ
rune_width s =
    if between 0xC2 0xDF (byte_at 0 s) && continues (byte_at 1 s)
    then 2
    else if begins_three (byte_at 0 s) (byte_at 1 s) && continues (byte_at 2 s)
    then 3
    else if begins_four (byte_at 0 s) (byte_at 1 s)
        && continues (byte_at 2 s)
        && continues (byte_at 3 s)
    then 4
    else 1

-- The first character of a string that is not empty, and the rest.
abbrev pub first_rune : Bytes → Bytes
first_rune s = take (rune_width s) s

abbrev pub after_rune : Bytes → Bytes
after_rune s = drop (rune_width s) s

-- `string(b)` of a byte: the character whose code point it is.
abbrev pub rune_of_byte : ℕ → Bytes
rune_of_byte b = if ltb b 0x80 then b ∷ [] else (0xC0 + b / 64) ∷ (0x80 + b % 64) ∷ []

-- ===== src/Strings/Space.antt =====
-- strings.TrimSpace on UTF-8 text: the white space of Unicode, by the bytes of its encodings.
use obsidian_mcp_server.Prelude.{
  ℕ, zero, suc, Option, none, some, List, [], ◌∷◌, if◌then◌else◌, length, drop,
}
use mathlib.Core.List.{reverse}
use obsidian_mcp_server.Strings.{Bytes, has_prefix}

-- Tab to carriage return and the space; U+0085 and U+00A0; U+1680; U+2000 to U+200A, U+2028,
-- U+2029, U+202F and U+205F; U+3000.
abbrev pub spaces : List Bytes
spaces =
    (9 ∷ [])
    ∷ (10 ∷ [])
    ∷ (11 ∷ [])
    ∷ (12 ∷ [])
    ∷ (13 ∷ [])
    ∷ (32 ∷ [])
    ∷ (0xC2 ∷ 0x85 ∷ [])
    ∷ (0xC2 ∷ 0xA0 ∷ [])
    ∷ (0xE1 ∷ 0x9A ∷ 0x80 ∷ [])
    ∷ (0xE2 ∷ 0x80 ∷ 0x80 ∷ [])
    ∷ (0xE2 ∷ 0x80 ∷ 0x81 ∷ [])
    ∷ (0xE2 ∷ 0x80 ∷ 0x82 ∷ [])
    ∷ (0xE2 ∷ 0x80 ∷ 0x83 ∷ [])
    ∷ (0xE2 ∷ 0x80 ∷ 0x84 ∷ [])
    ∷ (0xE2 ∷ 0x80 ∷ 0x85 ∷ [])
    ∷ (0xE2 ∷ 0x80 ∷ 0x86 ∷ [])
    ∷ (0xE2 ∷ 0x80 ∷ 0x87 ∷ [])
    ∷ (0xE2 ∷ 0x80 ∷ 0x88 ∷ [])
    ∷ (0xE2 ∷ 0x80 ∷ 0x89 ∷ [])
    ∷ (0xE2 ∷ 0x80 ∷ 0x8A ∷ [])
    ∷ (0xE2 ∷ 0x80 ∷ 0xA8 ∷ [])
    ∷ (0xE2 ∷ 0x80 ∷ 0xA9 ∷ [])
    ∷ (0xE2 ∷ 0x80 ∷ 0xAF ∷ [])
    ∷ (0xE2 ∷ 0x81 ∷ 0x9F ∷ [])
    ∷ (0xE3 ∷ 0x80 ∷ 0x80 ∷ [])
    ∷ []

-- The text behind the first of the given starts that it has.
unfoldable pub strip_first : List Bytes → Bytes → Option Bytes
unfolding has_prefix
strip_first [] s = none
strip_first (p ∷ ps) s = if has_prefix s p then some (drop (length p) s) else strip_first ps s

-- Each round takes at least one byte, so the length of the text is fuel enough.
unfoldable pub strip_all : ℕ → List Bytes → Bytes → Bytes
unfolding strip_first
strip_all zero starts s = s
strip_all (suc fuel) starts s = elim (strip_first starts s) [
  | none ↦ s
  | some rest ↦ strip_all fuel starts rest
]

abbrev pub reversed : List Bytes → List Bytes
reversed [] = []
reversed (p ∷ ps) = reverse p ∷ reversed ps

-- strings.TrimSpace
unfoldable pub trim_space : Bytes → Bytes
unfolding strip_all
trim_space s =
    let front = strip_all (length s) spaces s in
    reverse (strip_all (length front) (reversed spaces) (reverse front))

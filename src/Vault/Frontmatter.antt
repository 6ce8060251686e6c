-- ===== src/Vault/Frontmatter.antt =====
-- internal/vault/frontmatter.go: SplitFrontmatter. YAML itself is gopkg.in/yaml.v3, outside the
-- repository, and is not read here.
pub mod Scan
pub mod Spec
pub mod Tests
use obsidian_mcp_server.Prelude.{
  ℕ, zero, suc, Bool, true, false, Option, none, some, List, [], ◌∷◌, ◌++◌, ◌==◌, if◌then◌else◌,
  length, drop,
}
use obsidian_mcp_server.Strings.{Bytes, codes, eq_bytes, has_prefix}

abbrev pub opening : Bytes
opening = codes "---\n"

abbrev pub dashes : Bytes
dashes = codes "---"

-- The text before the first newline, and what stands behind it, if there is one.
abbrev line_cons : ℕ → Bytes × Option Bytes → Bytes × Option Bytes
line_cons x (line, rest) = (x ∷ line, rest)

pub next_line : Bytes → Bytes × Option Bytes
next_line [] = ([], none)
next_line (x ∷ xs) =
    let more = next_line xs in if x == b'\n' then ([], some xs) else line_cons x more

pub or_empty : Option Bytes → Bytes
or_empty none = []
or_empty (some rest) = rest

-- The loop over `i`, on fuel: `raw` is `rest[:i]`, and the result is the raw text and the body, or
-- `none` where the loop ends without a closing line.
pub scan_close : ℕ → Bytes → Bytes → Option (Bytes × Bytes)
unfolding next_line or_empty
scan_close zero raw rest = none
scan_close (suc fuel) raw [] = none
scan_close (suc fuel) raw (x ∷ xs) =
    let line = (next_line (x ∷ xs)).0 in
    let behind = (next_line (x ∷ xs)).1 in
    if eq_bytes line dashes then some (raw, or_empty behind) else elim behind [
      | none ↦ none
      | some rest ↦ scan_close fuel (raw ++ (line ++ b'\n' ∷ [])) rest
    ]

abbrev whole_or : Bytes → Option (Bytes × Bytes) → Bytes × Bytes × Bool
whole_or content none = ([], content, false)
whole_or content (some (raw, body)) = (raw, body, true)

-- SplitFrontmatter: the raw text, the body, and whether both delimiters were found.
unfoldable pub split_frontmatter : Bytes → Bytes × Bytes × Bool
unfolding scan_close has_prefix
split_frontmatter content =
    if has_prefix content opening
    then whole_or content (scan_close (length (drop 4 content)) [] (drop 4 content))
    else ([], content, false)

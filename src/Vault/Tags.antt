-- ===== src/Vault/Tags.antt =====
-- internal/vault/tags.go: the tags of a note. The two expressions for inline tags are read off the
-- source; `is_alnum` says of a character that it is a letter or a number of Unicode, \p{L} or \p{N}.
pub mod Merged
pub mod Inline
pub mod Edits
pub mod Edited
pub mod Plain
pub mod Rename
pub mod Counts
mod Tests
use obsidian_mcp_server.Prelude.{
  ℕ, zero, suc, Bool, true, false, not, ◌&&◌, ◌||◌, Option, none, some, List, [], ◌∷◌, ◌++◌, ◌==◌,
  if◌then◌else◌, length, map,
}
use obsidian_mcp_server.Prelude.Exec.{Exec, Result, ok, err}
use obsidian_mcp_server.Maps.{Map}
use obsidian_mcp_server.Strings.{Bytes, codes, eq_bytes, has_prefix, trim_right, split}
use obsidian_mcp_server.Strings.Runes.{rune_width, first_rune, after_rune}
use obsidian_mcp_server.Strings.Space.{trim_space}
use obsidian_mcp_server.Markdown.{strip_code_fences}
use obsidian_mcp_server.Vault.Errors.{Fault, PathError}
use obsidian_mcp_server.Vault.Frontmatter.{split_frontmatter}
use obsidian_mcp_server.Vault.Os.{Os}
use obsidian_mcp_server.Vault.Yaml.{Yaml}
use obsidian_mcp_server.Vault.Guards.{Service}
use obsidian_mcp_server.Vault.Read.{Note, read_note}
use obsidian_mcp_server.Vault.Properties.{FrontmatterError, unread, unparsed, parse_frontmatter}

-- A set of the tags that were seen.
unfoldable pub has_tag : Bytes → List Bytes → Bool
has_tag tag [] = false
has_tag tag (t ∷ ts) = eq_bytes t tag || has_tag tag ts

abbrev pub add_once : Bytes → List Bytes → List Bytes
add_once tag out = if has_tag tag out then out else out ++ tag ∷ []

-- One of the loops of mergeTags, over what was put out before.
unfoldable pub add_all : List Bytes → List Bytes → List Bytes
unfolding has_tag
add_all out [] = out
add_all out (t ∷ ts) = add_all (add_once t out) ts

-- mergeTags
unfoldable pub merge_tags : List Bytes → List Bytes → List Bytes
unfolding add_all
merge_tags fm_tags inline_tags = add_all (add_all [] fm_tags) inline_tags

module _ (is_alnum : Bytes → Bool) where
  -- [\p{L}\p{N}_/]
  abbrev pub is_word : Bytes → Bool
  is_word c = is_alnum c || eq_bytes c (b'_' ∷ []) || eq_bytes c (b'/' ∷ [])

  -- [\p{L}\p{N}_/\-]
  abbrev pub in_tag : Bytes → Bool
  in_tag c = is_word c || eq_bytes c (b'-' ∷ [])

  -- The longest run of tag characters, and what stands behind it.
  unfoldable pub tag_run : ℕ → Bytes → Bytes × Bytes
  unfolding rune_width eq_bytes
  tag_run zero s = ([], s)
  tag_run (suc fuel) [] = ([], [])
  tag_run (suc fuel) (x ∷ xs) =
      let more = tag_run fuel (after_rune (x ∷ xs)) in
      if in_tag (first_rune (x ∷ xs)) then (first_rune (x ∷ xs) ++ more.0, more.1) else ([], x ∷ xs)

  abbrev non_empty : Bytes × Bytes → Option (Bytes × Bytes)
  non_empty ([], rest) = none
  non_empty (x ∷ tag, rest) = some (x ∷ tag, rest)

  -- `#` and a run that is not empty.
  unfoldable pub hash_tag : Bytes → Option (Bytes × Bytes)
  unfolding tag_run
  hash_tag [] = none
  hash_tag (x ∷ xs) = if x == b'#' then non_empty (tag_run (length xs) xs) else none

  abbrev pub first_of : Option (Bytes × Bytes) → Option (Bytes × Bytes) → Option (Bytes × Bytes)
  first_of none o = o
  first_of (some m) o = some m

  -- The match of tagRegex at a place of the text, which may begin a line.
  unfoldable pub tag_here : Bool → Bytes → Option (Bytes × Bytes)
  unfolding hash_tag
  tag_here at_start s =
      first_of (if at_start then hash_tag s else none)
        (if is_word (first_rune s) then none else hash_tag (after_rune s))

  -- FindAllStringSubmatch, on fuel; each round takes at least one byte.
  unfoldable pub scan_tags : ℕ → Bool → Bytes → List Bytes
  unfolding tag_here
  scan_tags zero at_start s = []
  scan_tags (suc fuel) at_start [] = []
  scan_tags (suc fuel) at_start (x ∷ xs) = elim (tag_here at_start (x ∷ xs)) [
    | some (tag, rest) ↦ tag ∷ scan_tags fuel false rest
    | none ↦ scan_tags fuel (x == b'\n') (after_rune (x ∷ xs))
  ]

  abbrev pub is_tail : ℕ → Bool
  is_tail c = c == b'-' || c == b'/'

  abbrev pub unless_empty : Bytes → List Bytes → List Bytes
  unless_empty tag out = if eq_bytes tag [] then out else add_once tag out

  -- The loop over the matches.
  unfoldable pub add_matches : List Bytes → List Bytes → List Bytes
  unfolding has_tag trim_right eq_bytes
  add_matches out [] = out
  add_matches out (m ∷ ms) = add_matches (unless_empty (trim_right is_tail m) out) ms

  -- ExtractInlineTags
  unfoldable pub extract_inline_tags : Bytes → List Bytes
  unfolding scan_tags add_matches
  extract_inline_tags body =
      let stripped = strip_code_fences body in
      add_matches [] (scan_tags (length stripped) true stripped)

abbrev pub unless_blank : Bytes → List Bytes → List Bytes
unless_blank t out = if eq_bytes t [] then out else t ∷ out

-- The parts of a list that is written with commas, or the texts of a sequence.
unfoldable pub trimmed_parts : List Bytes → List Bytes
trimmed_parts [] = []
trimmed_parts (p ∷ ps) = unless_blank (trim_space p) (trimmed_parts ps)

module _ (y : Yaml) where
  open y use {Value, as_text, as_list, is_nil}

  abbrev texts_of : Option Bytes → List Bytes → List Bytes
  texts_of none out = out
  texts_of (some s) out = s ∷ out

  unfoldable pub texts : List Value → List Bytes
  texts [] = []
  texts (v ∷ vs) = texts_of (as_text v) (texts vs)

  abbrev tags_of_text : Option Bytes → List Bytes
  tags_of_text none = []
  tags_of_text (some s) = trimmed_parts (split b',' s)

  abbrev tags_of_value : Value → Option (List Value) → List Bytes
  tags_of_value v (some items) = trimmed_parts (texts items)
  tags_of_value v none = tags_of_text (as_text v)

  abbrev tags_of : Option Value → List Bytes
  tags_of none = []
  tags_of (some v) = if is_nil v then [] else tags_of_value v (as_list v)

  -- ExtractFrontmatterTags
  unfoldable pub extract_frontmatter_tags : Map Value → List Bytes
  unfolding trimmed_parts texts
  extract_frontmatter_tags fm = tags_of (fm (codes "tags"))

  abbrev tags_or_none : Result Fault (Map Value) → List Bytes
  tags_or_none (ok fm) = extract_frontmatter_tags fm
  tags_or_none (err e) = []

  -- The tags of the frontmatter, where it can be parsed.
  abbrev pub frontmatter_tags : Bool → Bytes → List Bytes
  frontmatter_tags true raw = tags_or_none (parse_frontmatter y raw)
  frontmatter_tags false raw = []

  module _ (is_alnum : Bytes → Bool) where
    -- MergeNoteTags
    unfoldable pub merge_note_tags : Bytes → List Bytes
    unfolding extract_frontmatter_tags extract_inline_tags merge_tags
    merge_note_tags content =
        let parts = split_frontmatter content in
        merge_tags (frontmatter_tags parts.2 parts.0) (extract_inline_tags is_alnum parts.1)

    abbrev merged : Bytes → Result Fault (Map Value) → Result FrontmatterError (List Bytes)
    merged body (err f) = err (unparsed f)
    merged body (ok fm) =
        ok (merge_tags (extract_frontmatter_tags fm) (extract_inline_tags is_alnum body))

    abbrev listed : Bytes × Bytes × Bool → Result FrontmatterError (List Bytes)
    listed (raw, body, false) = ok (merge_tags [] (extract_inline_tags is_alnum body))
    listed (raw, body, true) = merged body (parse_frontmatter y raw)

    abbrev of_note : Result PathError Note → Result FrontmatterError (List Bytes)
    of_note (err e) = err (unread e)
    of_note (ok note) = listed (split_frontmatter note.content)

    -- ListTags
    unfoldable pub list_tags :
        (Bytes → Bytes)
        → (os : Os) → Service
        → Bool
        → Bytes
        → Exec os.State FrontmatterError (List Bytes)
    unfolding extract_frontmatter_tags extract_inline_tags merge_tags
    list_tags to_lower os v is_cancelled path s =
        let out = read_note to_lower os v is_cancelled path s in (of_note out.0, out.1)

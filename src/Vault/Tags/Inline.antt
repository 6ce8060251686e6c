-- ===== src/Vault/Tags/Inline.antt =====
-- internal/vault/tags.go and renametag.go: the inline occurrences of a tag in the body of a note, for
-- RemoveTag and renameInlineTag, which have the same loop over the lines. The tag is valid UTF-8.
pub mod Fenced
use obsidian_mcp_server.Prelude.{
  ℕ, zero, suc, ◌+◌, Bool, true, false, Option, none, some, List, [], ◌∷◌, ◌++◌, ◌==◌,
  if◌then◌else◌, length, drop, is_some,
}
use obsidian_mcp_server.Strings.{Bytes, has_prefix, split, join}
use obsidian_mcp_server.Strings.Runes.{rune_width, first_rune, after_rune, rune_of_byte}
use obsidian_mcp_server.Markdown.{FenceState, next_fence}
use obsidian_mcp_server.Vault.Tags.{is_word, in_tag}

-- A match: the character before the tag, that behind it, and the text that is left.
pub record Match : Type 0 where
  pub lead : Bytes
  pub trail : Bytes
  pub rest : Bytes

abbrev pub match_text : Bytes → Match → Bytes
match_text tag m = m.lead ++ (b'#' ∷ tag) ++ m.trail

module _ (is_alnum : Bytes → Bool) (tag : Bytes) where
  -- What follows the tag: the end, or a character that is none of a tag.
  unfoldable pub follow : Bytes → Bytes → Option Match
  follow lead [] = some (record { lead = lead; trail = []; rest = [] })
  follow lead (x ∷ xs) =
      if in_tag is_alnum (first_rune (x ∷ xs))
      then none
      else some (record { lead = lead; trail = first_rune (x ∷ xs); rest = after_rune (x ∷ xs) })

  abbrev pub literal : Bytes → Bytes → Option Match
  literal lead s =
      if has_prefix s (b'#' ∷ tag) then follow lead (drop (length (b'#' ∷ tag)) s) else none

  abbrev pub either : Option Match → Option Match → Option Match
  either none o = o
  either (some m) o = some m

  -- The match at a place of a line, which may be its beginning.
  unfoldable pub match_here : Bool → Bytes → Option Match
  unfolding follow
  match_here at_start s =
      either (if at_start then literal [] s else none)
        (if is_word is_alnum (first_rune s) then none else literal (first_rune s) (after_rune s))

  abbrev pub put_before : Bytes → ℕ → Bytes × ℕ → Bytes × ℕ
  put_before text n r = (text ++ r.0, n + r.1)

  -- ReplaceAllStringFunc on a line, with the number of the matches; each round takes at least one byte.
  unfoldable pub replace_tag_matches : (Bytes → Bytes) → ℕ → Bool → Bytes → Bytes × ℕ
  unfolding match_here
  replace_tag_matches f zero at_start s = (s, 0)
  replace_tag_matches f (suc fuel) at_start [] = ([], 0)
  replace_tag_matches f (suc fuel) at_start (x ∷ xs) = elim (match_here at_start (x ∷ xs)) [
    | some m ↦ put_before (f (match_text tag m)) 1 (replace_tag_matches f fuel false m.rest)
    | none ↦
        put_before (first_rune (x ∷ xs)) 0 (replace_tag_matches f fuel false (after_rune (x ∷ xs)))
  ]

-- The loop over the lines: what stands in a fence, and the fences, are kept.
unfoldable pub outside_fences : (Bytes → Bytes × ℕ) → FenceState → List Bytes → List Bytes × ℕ
unfolding next_fence
outside_fences f st [] = ([], 0)
outside_fences f st (line ∷ lines) =
    let more = outside_fences f (next_fence st line) lines in
    if is_some st
    then (line ∷ more.0, more.1)
    else if is_some (next_fence st line)
    then (line ∷ more.0, more.1)
    else ((f line).0 ∷ more.0, (f line).1 + more.1)

-- What RemoveTag puts in the place of a match: its first byte, unless that is the `#`.
abbrev pub removal : Bytes → Bytes
removal [] = []
removal (b ∷ match) = if b == b'#' then [] else rune_of_byte b

abbrev pub renamed_match : Bytes → Option Match → Bytes
renamed_match new_tag none = []
renamed_match new_tag (some m) = m.lead ++ (b'#' ∷ new_tag) ++ m.trail

module _ (is_alnum : Bytes → Bool) where
  unfoldable pub remove_in_line : Bytes → Bytes → Bytes × ℕ
  unfolding replace_tag_matches
  remove_in_line tag line = replace_tag_matches is_alnum tag removal (length line) true line

  -- The part of RemoveTag on the body.
  unfoldable pub remove_inline : Bytes → Bytes → Bytes
  unfolding outside_fences remove_in_line
  remove_inline tag body =
      join b'\n' (outside_fences (remove_in_line tag) none (split b'\n' body)).0

  -- The match is taken apart by the expression once more.
  unfoldable pub rename_in_line : Bytes → Bytes → Bytes → Bytes × ℕ
  unfolding replace_tag_matches match_here
  rename_in_line old_tag new_tag line =
      replace_tag_matches is_alnum old_tag
        (λ match. renamed_match new_tag (match_here is_alnum old_tag true match)) (length line) true
        line

  -- renameInlineTag
  unfoldable pub rename_inline_tag : Bytes → Bytes → Bytes → Bytes × ℕ
  unfolding outside_fences rename_in_line
  rename_inline_tag body old_tag new_tag =
      let out = outside_fences (rename_in_line old_tag new_tag) none (split b'\n' body) in
      (join b'\n' out.0, out.1)

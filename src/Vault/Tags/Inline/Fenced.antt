-- ===== src/Vault/Tags/Inline/Fenced.antt =====
-- internal/vault/tags.go and renametag.go: what a change of the inline tags leaves as it was.
use obsidian_mcp_server.Prelude.{
  ℕ, zero, suc, ◌≡◌, refl, ap, ◌∙◌, Bool, true, false, Option, none, some, List, [], ◌∷◌, ◌++◌,
  if◌then◌else◌, length, is_some, arith, take-append-drop,
}
use obsidian_mcp_server.Strings.{Bytes, split, join}
use obsidian_mcp_server.Strings.Split.{join-split}
use obsidian_mcp_server.Strings.Runes.{rune_width, first_rune, after_rune}
use obsidian_mcp_server.Markdown.{FenceState, next_fence}
use obsidian_mcp_server.Vault.Tags.Inline.{
  Match, match_here, put_before, match_text, replace_tag_matches, outside_fences, renamed_match,
  rename_in_line, rename_inline_tag,
}

-- The lines of the fenced blocks of a text, the fences included: `lines` says where they are, and
-- `out` what stands there.
unfoldable pub fenced_lines : FenceState → List Bytes → List Bytes → List Bytes
fenced_lines st [] out = []
fenced_lines st (line ∷ lines) [] = []
fenced_lines st (line ∷ lines) (o ∷ out) =
    let more = fenced_lines (next_fence st line) lines out in
    if is_some st then o ∷ more else if is_some (next_fence st line) then o ∷ more else more

-- However lines are changed outside the fences, there are as many as before, and the fenced blocks
-- are the same.
pub outside_fences-fenced_lines :
    (f : Bytes → Bytes × ℕ) (st : FenceState) (lines : List Bytes)
    → (length (outside_fences f st lines).0 ≡ length lines)
      × (fenced_lines st lines (outside_fences f st lines).0 ≡ fenced_lines st lines lines)
unfolding outside_fences fenced_lines
outside_fences-fenced_lines f st [] = (refl, refl)
outside_fences-fenced_lines f st (line ∷ lines) =
    let more = outside_fences-fenced_lines f (next_fence st line) lines in
    (ground (arith, more.0), ground (arith, more.1))

-- A line of which nothing was replaced is the same.
replace_tag_matches_none :
    (is_alnum : Bytes → Bool) (tag : Bytes) (f : Bytes → Bytes) (fuel : ℕ) (at_start : Bool)
    (s : Bytes)
    → (replace_tag_matches is_alnum tag f fuel at_start s).1 ≡ 0
    → (replace_tag_matches is_alnum tag f fuel at_start s).0 ≡ s
unfolding replace_tag_matches
replace_tag_matches_none is_alnum tag f zero at_start s h = refl
replace_tag_matches_none is_alnum tag f (suc fuel) at_start [] h = refl
replace_tag_matches_none is_alnum tag f (suc fuel) at_start (x ∷ xs) h =
    by_match (replace_tag_matches_none is_alnum tag f fuel false)
      (match_here is_alnum tag at_start (x ∷ xs)) h
  where
    by_match :
        ((s : Bytes)
          → (replace_tag_matches is_alnum tag f fuel false s).1 ≡ 0
          → (replace_tag_matches is_alnum tag f fuel false s).0 ≡ s)
        → (o : Option Match)
        → (elim o as (λ _. Bytes × ℕ) [
          | some m ↦
              put_before is_alnum tag
                (f (match_text tag m))
                1
                (replace_tag_matches is_alnum tag f fuel false m.rest)
          | none ↦
              put_before is_alnum tag
                (first_rune (x ∷ xs))
                0
                (replace_tag_matches is_alnum tag f fuel false (after_rune (x ∷ xs)))
        ]).1
          ≡ 0
        → (elim o as (λ _. Bytes × ℕ) [
          | some m ↦
              put_before is_alnum tag
                (f (match_text tag m))
                1
                (replace_tag_matches is_alnum tag f fuel false m.rest)
          | none ↦
              put_before is_alnum tag
                (first_rune (x ∷ xs))
                0
                (replace_tag_matches is_alnum tag f fuel false (after_rune (x ∷ xs)))
        ]).0
          ≡ x ∷ xs
    by_match same (some m) e = absurd (omega (arith, e))
    by_match same none e =
        ap (λ rest. first_rune (x ∷ xs) ++ rest) (same (after_rune (x ∷ xs)) (omega (arith, e)))
        ∙ take-append-drop (rune_width (x ∷ xs)) (x ∷ xs)

outside_fences_none :
    (f : Bytes → Bytes × ℕ)
    → ((line : Bytes) → (f line).1 ≡ 0 → (f line).0 ≡ line)
    → (st : FenceState) (lines : List Bytes) → (outside_fences f st lines).1 ≡ 0
    → (outside_fences f st lines).0 ≡ lines
unfolding outside_fences
outside_fences_none f same st [] h = refl
outside_fences_none f same st (line ∷ lines) h =
    let more = outside_fences_none f same (next_fence st line) lines in
    ground (arith, more, same line, h)

-- A body in which no occurrence of the tag was renamed is the body that it was.
pub rename_inline_tag_none :
    (is_alnum : Bytes → Bool) (body old_tag new_tag : Bytes)
    → (rename_inline_tag is_alnum body old_tag new_tag).1 ≡ 0
    → (rename_inline_tag is_alnum body old_tag new_tag).0 ≡ body
unfolding rename_inline_tag rename_in_line
rename_inline_tag_none is_alnum body old_tag new_tag h =
    ap (join b'\n') (
      outside_fences_none (rename_in_line is_alnum old_tag new_tag)
        (λ line e.
          replace_tag_matches_none is_alnum old_tag
            (λ match. renamed_match new_tag (match_here is_alnum old_tag true match)) (length line)
            true line e)
        none (split b'\n' body) h)
    ∙ join-split b'\n' body

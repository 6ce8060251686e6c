-- ===== src/Vault/Tags/Tests.antt =====
-- Tags of small notes, and instances of the theorems on tags.
use obsidian_mcp_server.Prelude.{
  ℕ, ◌≡◌, ◌↔◌, ◌⊎◌, refl, Bool, true, false, none, List, [], ◌∷◌, ◌++◌, ◌||◌, In, length, take,
}
use obsidian_mcp_server.Prelude.Exec.{ok}
use obsidian_mcp_server.Prelude.Int.{pos}
use obsidian_mcp_server.Prelude.Sort.{insert_in_order, sort}
use obsidian_mcp_server.Maps.{Map}
use obsidian_mcp_server.Strings.{
  Bytes, codes, eq_bytes, split, join, contains_byte, has_prefix, trim_right,
}
use obsidian_mcp_server.Strings.Order.{less}
use obsidian_mcp_server.Strings.Runes.{rune_width}
use obsidian_mcp_server.Markdown.{
  next_fence, fence_opener, is_fence_closer, strip_code_fences, strip_lines, strip_inline_code,
}
use obsidian_mcp_server.Vault.Disk.{Files, memory, vault}
use obsidian_mcp_server.Vault.Yaml.Plain.{plain_yaml, sample_text}
use obsidian_mcp_server.Vault.Tags.{
  has_tag, merge_tags, tag_run, hash_tag, tag_here, scan_tags, add_matches, extract_inline_tags,
}
use obsidian_mcp_server.Vault.Tags.Merged.{IsDistinct, merge_tags-IsDistinct}
use obsidian_mcp_server.Vault.Tags.Inline.{
  follow, match_here, replace_tag_matches, outside_fences, rename_in_line, rename_inline_tag,
}
use obsidian_mcp_server.Vault.Tags.Inline.Fenced.{fenced_lines, outside_fences-fenced_lines}
use obsidian_mcp_server.Vault.Tags.Rename.{TagRename}
use obsidian_mcp_server.Vault.Tags.Counts.{
  max_aggregate_tags_notes, or_zero, aggregate_tags, TagCount, by_count, top_tags_by_count,
}
use obsidian_mcp_server.Vault.Tags.Counts.Totals.{
  handed_files, number_with, aggregate_tags-number_with,
}
use obsidian_mcp_server.Vault.Tags.Counts.Top.{IsTop, top_tags_by_count-IsTop}
use obsidian_mcp_server.Vault.Walk.{Nodes, file, end, node, visits, is_note}

abbrev is_letter : Bytes → Bool
is_letter c = eq_bytes c (codes "a") || eq_bytes c (codes "b") || eq_bytes c (codes "x")

-- A tag in a fence is none, one at the beginning of a line is, and the marks behind it are cut off.
extracts :
    extract_inline_tags is_letter (codes "#a/b- x #b\n```\n#x\n```\n a#x #b")
    ≡ codes "a/b" ∷ codes "b" ∷ []
unfolding extract_inline_tags scan_tags tag_here hash_tag tag_run add_matches has_tag trim_right
    eq_bytes rune_width has_prefix strip_code_fences strip_lines next_fence fence_opener
    is_fence_closer strip_inline_code split join contains_byte
extracts = refl

renames_line :
    rename_inline_tag is_letter (codes "#a (#a) #ab\n```\n#a\n```") (codes "a") (codes "x")
    ≡ (codes "#x (#x) #ab\n```\n#a\n```", 2)
unfolding rename_inline_tag outside_fences rename_in_line replace_tag_matches match_here follow
    rune_width next_fence fence_opener is_fence_closer split join has_prefix trim_right eq_bytes
    contains_byte
renames_line = refl

merge_tags-IsDistinct_example :
    IsDistinct (merge_tags (codes "a" ∷ codes "b" ∷ []) (codes "b" ∷ []))
    × ((tag : Bytes)
        → In tag (merge_tags (codes "a" ∷ codes "b" ∷ []) (codes "b" ∷ []))
          ↔ (In tag (codes "a" ∷ codes "b" ∷ []) ⊎ In tag (codes "b" ∷ [])))
    × ((more : List Bytes) × (merge_tags (codes "a" ∷ codes "b" ∷ []) (codes "b" ∷ [])
          ≡ merge_tags (codes "a" ∷ codes "b" ∷ []) [] ++ more))
merge_tags-IsDistinct_example = merge_tags-IsDistinct (codes "a" ∷ codes "b" ∷ []) (codes "b" ∷ [])

abbrev lines : List Bytes
lines = codes "#a" ∷ codes "```" ∷ codes "#a" ∷ codes "```" ∷ []

outside_fences-fenced_lines_example :
    (length (outside_fences (rename_in_line is_letter (codes "a") (codes "x")) none lines).0
      ≡ length lines)
    × (fenced_lines none lines
          (outside_fences (rename_in_line is_letter (codes "a") (codes "x")) none lines).0
        ≡ fenced_lines none lines lines)
outside_fences-fenced_lines_example =
    outside_fences-fenced_lines (rename_in_line is_letter (codes "a") (codes "x")) none lines

abbrev disk : Files
disk =
    (codes "/v/n.md", codes "---\n" ++ (sample_text ++ codes "---\n#a\n"))
    ∷ (codes "/v/m.md", codes "none")
    ∷ []

abbrev after : Files
after =
    (codes "/v/n.md", codes "---\ntags:[b,]\ntitle:t\n---\n#b\n")
    ∷ (codes "/v/m.md", codes "none")
    ∷ []

abbrev tree : Nodes
tree = node (file (codes "m.md")) (node (file (codes "n.md")) end)

abbrev made : List TagRename
made = record { path = codes "n.md"; frontmatter_hit = true; inline_count = 1 } ∷ []

aggregate_tags-number_with_example :
    (counts : Map ℕ) × ((aggregate_tags plain_yaml is_letter memory vault disk
          (λ s. s)
          (λ _. false)
          (ok tree)
        ≡ ok counts)
      × (or_zero (counts (codes "a"))
          ≡ number_with plain_yaml is_letter memory vault disk (codes "a") (
              take max_aggregate_tags_notes (
                handed_files plain_yaml is_letter memory vault disk
                  (is_note (λ s. s) vault.filter)
                  (visits vault.root vault.filter [] tree)))))
aggregate_tags-number_with_example =
    aggregate_tags-number_with plain_yaml is_letter memory vault disk (λ s. s) tree (codes "a")

abbrev entries : List TagCount
entries =
    record { name = codes "b"; count = 1 }
    ∷ record { name = codes "a"; count = 1 }
    ∷ record { name = codes "c"; count = 5 }
    ∷ []

top_two :
    top_tags_by_count entries (pos 2)
    ≡ record { name = codes "c"; count = 5 } ∷ record { name = codes "a"; count = 1 } ∷ []
unfolding top_tags_by_count sort insert_in_order by_count less
top_two = refl

top_tags_by_count-IsTop_example : IsTop entries (pos 2) (top_tags_by_count entries (pos 2))
top_tags_by_count-IsTop_example = top_tags_by_count-IsTop entries (pos 2)

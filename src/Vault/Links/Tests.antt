-- ===== src/Vault/Links/Tests.antt =====
-- Links of single lines, and instances of the theorems on links.
use obsidian_mcp_server.Prelude.{◌≡◌, ◌↔◌, refl, true, false, some, List, [], ◌∷◌, In}
use obsidian_mcp_server.Prelude.Exec.{ok}
use obsidian_mcp_server.Maps.{empty, insert}
use obsidian_mcp_server.Strings.{
  Bytes, codes, eq_bytes, split, join, contains_byte, has_prefix, has_suffix, trim_right,
}
use obsidian_mcp_server.Strings.Escape.{path_unescape, unescape, unescape_one}
use obsidian_mcp_server.Strings.Space.{trim_space, strip_all, strip_first}
use obsidian_mcp_server.Vault.FilePath.{base, ext}
use obsidian_mcp_server.Vault.PathFilter.{trim_suffix, stem}
use obsidian_mcp_server.Vault.Disk.{Files, memory, vault}
use obsidian_mcp_server.Vault.Links.{
  Wiki, span, wiki_body, wiki_at, md_path_at, link_at, link_targets, is_member, add_links,
  extract_links, build_match_targets, is_match, note_backlinks,
}
use obsidian_mcp_server.Vault.Links.Backlinks.{backlink, IsBacklink, note_backlinks_iff}
use obsidian_mcp_server.Vault.Links.Rewrite.{
  Index, Occurrence, md_at, rewrite_target, decode_markdown_path, encode_markdown_path,
  is_ambiguous, rewrite_wiki, rewrite_md, occurrences, matches, splice_match, splice_all,
  wiki_matches, md_matches, rewrite_line, rewrites_of,
}
use obsidian_mcp_server.Vault.Links.Rewrite.Replaced.{IsRewritten, rewrite_line-wikilinks}
use obsidian_mcp_server.Vault.Links.Rewrite.Spliced.{whole, own_text, wikilinks}
use obsidian_mcp_server.Vault.Links.Rewrite.Notes.{move_note_with_links}
use obsidian_mcp_server.Vault.Links.Rewrite.Preview.{move_note_with_links_dry_run}
use obsidian_mcp_server.Vault.Walk.{Nodes, file, end, node}

extracts :
    extract_links (codes "![[a#h|t]] [x](b.md) [[ c ]] [[a]] [[]]")
    ≡ codes "a" ∷ codes "b.md" ∷ codes "c" ∷ []
unfolding extract_links link_targets link_at wiki_at wiki_body md_path_at span add_links is_member
    eq_bytes has_prefix has_suffix trim_space strip_all strip_first
extracts = refl

abbrev targets : List Bytes
targets = codes "x" ∷ codes "x.md" ∷ codes "a/x" ∷ codes "a/x.md" ∷ []

targets_of : build_match_targets (codes "a/x.md") ≡ targets
unfolding build_match_targets stem base ext trim_suffix has_suffix has_prefix split join eq_bytes
    contains_byte trim_right
targets_of = refl

abbrev index : Index
index = insert (codes "x") (codes "c/y.md" ∷ []) empty

abbrev line : Bytes
line = codes "see [[x#h|t]], [[z]]"

-- The anchor and the alias are kept.
rewrites :
    rewrite_line targets index (codes "c/y.md") line
    ≡ some (
      codes "see [[y#h|t]], [[z]]",
      record { old_text = codes "[[x#h|t]]"; new_text = codes "[[y#h|t]]"; ambiguous = false } ∷ [],
    )
unfolding rewrite_line wiki_matches md_matches occurrences matches splice_match splice_all wiki_at
    wiki_body md_at span rewrite_wiki rewrite_md is_match is_member is_ambiguous rewrite_target stem
    base ext trim_suffix has_suffix has_prefix split join eq_bytes contains_byte trim_right
rewrites = refl

-- A Markdown link before a wikilink is replaced at an offset that is no longer its own.
misplaced :
    rewrite_line targets index (codes "c/yy.md") (codes "[t](x.md) [[x]]")
    ≡ some (
      codes "[t](yy.md)[[yy]]]",
      record { old_text = codes "[[x]]"; new_text = codes "[[yy]]"; ambiguous = false }
          ∷ record {
            old_text = codes "[t](x.md)";
            new_text = codes "[t](yy.md)";
            ambiguous = false;
          }
          ∷ [],
    )
unfolding rewrite_line wiki_matches md_matches occurrences matches splice_match splice_all wiki_at
    wiki_body md_at span rewrite_wiki rewrite_md is_match is_member is_ambiguous rewrite_target
    decode_markdown_path encode_markdown_path path_unescape unescape unescape_one stem base ext
    trim_suffix has_suffix has_prefix split join eq_bytes contains_byte trim_right
misplaced = refl

no_markdown : md_matches targets index (codes "c/y.md") line ≡ []
unfolding md_matches occurrences matches md_at span has_prefix
no_markdown = refl

rewrite_line-wikilinks_example :
    (text : Occurrence Wiki → Bytes) × (tail : Bytes) × ((o : Occurrence Wiki)
      → IsRewritten targets index (codes "c/y.md") o (text o))
    × (line ≡ whole own_text (wikilinks line) tail)
    × (rewrite_line targets index (codes "c/y.md") line
        ≡ some (
          whole text (wikilinks line) tail,
          rewrites_of (wiki_matches targets index (codes "c/y.md") line),
        ))
rewrite_line-wikilinks_example =
    rewrite_line-wikilinks targets index (codes "c/y.md") line no_markdown

note_backlinks_iff_example :
    In (backlink (codes "n.md") 1 line) (note_backlinks targets (codes "n.md") 0 (line ∷ []))
    ↔ IsBacklink targets (codes "n.md") 0 (line ∷ []) (backlink (codes "n.md") 1 line)
note_backlinks_iff_example =
    note_backlinks_iff targets (codes "n.md") (line ∷ []) (backlink (codes "n.md") 1 line)

abbrev disk : Files
disk = (codes "/v/a/x.md", []) ∷ (codes "/v/n.md", line) ∷ []

abbrev tree : Nodes
tree = node (file (codes "n.md")) end

move_note_with_links_dry_run_example :
    (move_note_with_links memory vault
      (λ s. s)
      false
      (λ i. false)
      (λ i. false)
      (ok tree)
      (codes "a/x.md")
      (codes "c/y.md")
      (codes "a/x.md")
      true
      true
      []
      disk).1
    ≡ disk
move_note_with_links_dry_run_example =
    move_note_with_links_dry_run memory vault disk (λ s. s) false (λ i. false) (λ i. false)
      (ok tree) (codes "a/x.md") (codes "c/y.md") (codes "a/x.md") true []

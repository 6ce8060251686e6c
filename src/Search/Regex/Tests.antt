-- ===== src/Search/Regex/Tests.antt =====
-- Globs as expressions, and an instance of the theorem on searches.
use obsidian_mcp_server.Prelude.{◌≡◌, refl, Bool, false, some, List, [], ◌∷◌}
use obsidian_mcp_server.Prelude.Exec.{ok}
use obsidian_mcp_server.Prelude.Int.{pos}
use obsidian_mcp_server.Strings.{
  Bytes, codes, eq_bytes, split, join, contains_byte, has_prefix, trim_right,
}
use obsidian_mcp_server.Strings.Space.{trim_space, strip_all, strip_first}
use obsidian_mcp_server.Vault.FilePath.{clean, join_path}
use obsidian_mcp_server.Vault.PathFilter.{is_internal_state, matches_any}
use obsidian_mcp_server.Vault.Disk.{Files, lookup, memory, vault}
use obsidian_mcp_server.Vault.Links.{drop_return}
use obsidian_mcp_server.Vault.List.{is_hidden}
use obsidian_mcp_server.Vault.Walk.{
  Nodes, file, end, node, visits, is_note, walk_visits, walk_notes,
}
use obsidian_mcp_server.Search.Regex.{
  next_piece, pieces, piece_text, pieces_text, glob_to_regex, no_scope, RegexOptions, RegexResult,
  result_limit, matches_per_file, scan_matches, scan_file_matches, search_note, search_regex,
}
use obsidian_mcp_server.Search.Regex.Bounded.{Within, search_regex-Within}

globs : glob_to_regex (codes "**/a?*.md") ≡ codes "^(.*/)?a[^/][^/]*\\.md$"
unfolding glob_to_regex pieces next_piece pieces_text piece_text contains_byte
globs = refl

-- The bytes of a character beyond ASCII become characters of their own.
globs_apart : glob_to_regex (0xC3 ∷ 0xA9 ∷ []) ≡ b'^' ∷ 0xC3 ∷ 0x83 ∷ 0xC2 ∷ 0xA9 ∷ b'$' ∷ []
unfolding glob_to_regex pieces next_piece pieces_text piece_text contains_byte
globs_apart = refl

abbrev disk : Files
disk = (codes "/v/n.md", codes " hit\nno\n hit\n") ∷ []

abbrev tree : Nodes
tree = node (file (codes "n.md")) end

abbrev is_hit : Bytes → Bool
is_hit line = eq_bytes line (codes " hit")

abbrev options : RegexOptions
options = record {
  pattern = codes "hit";
  is_glob = false;
  scope = no_scope;
  limit = pos 0;
  max_results = pos 0;
  max_matches_per_file = pos 1;
}

abbrev results : List RegexResult
results =
    record { path = codes "n.md"; matches = record { line = 1; snippet = codes "hit" } ∷ [] } ∷ []

searches :
    search_regex memory vault disk
      (λ rel i. false)
      (λ s. s)
      (λ i. false)
      (ok tree)
      (λ p. some is_hit)
      options
    ≡ ok results
unfolding search_regex result_limit matches_per_file walk_notes walk_visits visits is_note is_hidden
    is_internal_state matches_any search_note scan_file_matches scan_matches drop_return lookup
    clean join_path split join contains_byte has_prefix trim_right eq_bytes trim_space strip_all
    strip_first
searches = refl

search_regex-Within_example :
    Within memory vault disk
      (λ rel i. false)
      is_hit
      no_scope
      (result_limit options)
      (matches_per_file options)
      results
search_regex-Within_example =
    search_regex-Within memory vault disk (λ rel i. false) (λ s. s) (λ i. false) (ok tree)
      (λ p. some is_hit) options is_hit results refl searches

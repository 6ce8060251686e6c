-- ===== src/Vault/Walk/Tests.antt =====
-- A walk over a tree of four entries, and an instance of the theorem on walks.
use obsidian_mcp_server.Prelude.{◌≡◌, ◌↔◌, refl, false, some, [], ◌∷◌, In}
use obsidian_mcp_server.Prelude.Exec.{ok}
use obsidian_mcp_server.Strings.{
  codes, eq_bytes, split, join, contains_byte, has_prefix, has_suffix, trim_right,
}
use obsidian_mcp_server.Vault.FilePath.{clean, join_path, ext, base}
use obsidian_mcp_server.Vault.PathFilter.{
  is_internal_state, is_ignored, any_ignored, matches_any, is_allowed_extension,
}
use obsidian_mcp_server.Vault.Guards.{Service}
use obsidian_mcp_server.Vault.List.{is_hidden}
use obsidian_mcp_server.Vault.Walk.{
  Nodes, file, folder, unreadable, end, node, visits, is_note, walk_visits, walk_notes,
}
use obsidian_mcp_server.Vault.Walk.Notes.{HoldsIn, Passes, collect, walk_notes_iff}

abbrev filtered : Service
filtered = record {
  root = codes "/v";
  filter = some (record { ignore_patterns = codes ".git" ∷ []; allowed_exts = codes ".md" ∷ [] });
  sha256 = λ d. d;
}

abbrev tree : Nodes
tree = node (folder (codes ".git") (node (file (codes "c.md")) end)) (
    node (file (codes "a.md")) (
      node (folder (codes "n") (node (file (codes "b.md")) (node (file (codes "b.png")) end)))
        (node (unreadable (codes "z.md")) end)))

walks :
    walk_notes (λ s. s) filtered (λ i. false) (ok tree) collect []
    ≡ (ok tt, codes "n/b.md" ∷ codes "a.md" ∷ [])
unfolding walk_notes walk_visits visits is_note is_hidden is_internal_state is_ignored any_ignored
    matches_any is_allowed_extension ext base join_path clean split join contains_byte has_prefix
    has_suffix trim_right eq_bytes
walks = refl

walk_notes_iff_example :
    ((walk_notes (λ s. s) filtered (λ _. false) (ok tree) collect []).0 ≡ ok tt)
    × (In (codes "a.md") (walk_notes (λ s. s) filtered (λ _. false) (ok tree) collect []).1 ↔ (
        HoldsIn filtered.filter (codes "a.md") [] tree × Passes (λ s. s) filtered (codes "a.md")))
walk_notes_iff_example = walk_notes_iff (λ s. s) filtered tree (codes "a.md")

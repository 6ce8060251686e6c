-- ===== src/Vault/List/Tests.antt =====
-- A listing of files in memory, and an instance of the theorem on ListDirectory.
use obsidian_mcp_server.Prelude.{◌≡◌, refl, false, some, List, [], ◌∷◌}
use obsidian_mcp_server.Prelude.Exec.{ok}
use obsidian_mcp_server.Strings.{
  codes, eq_bytes, split, join, contains_byte, has_prefix, trim_right,
}
use obsidian_mcp_server.Vault.FilePath.{clean, join_path, dir, base}
use obsidian_mcp_server.Vault.PathFilter.{is_internal_state, is_ignored, any_ignored, matches_any}
use obsidian_mcp_server.Vault.Guards.{Service}
use obsidian_mcp_server.Vault.Disk.{Files, entries_in, lookup, memory}
use obsidian_mcp_server.Vault.List.{
  DirEntry, relative_path, is_hidden, list_entries, directory, list_directory,
}
use obsidian_mcp_server.Vault.List.Visible.{Listed, list_directory-Listed}

abbrev filtered : Service
filtered = record {
  root = codes "/v";
  filter = some (record { ignore_patterns = codes ".git" ∷ []; allowed_exts = [] });
  sha256 = λ d. d;
}

abbrev disk : Files
disk = (codes "/v/a.md", []) ∷ (codes "/v/.git", []) ∷ (codes "/v/n/b.md", []) ∷ []

abbrev shown : List DirEntry
shown = record { name = codes "a.md"; path = codes "a.md"; is_dir = false } ∷ []

lists : list_directory memory filtered (λ i. false) [] disk ≡ (ok shown, disk)
unfolding list_directory directory list_entries is_hidden relative_path entries_in lookup dir base
    clean join_path split join contains_byte has_prefix trim_right eq_bytes is_internal_state
    is_ignored any_ignored matches_any
lists = refl

list_directory-Listed_example : Listed memory filtered [] disk shown
list_directory-Listed_example =
    list_directory-Listed memory filtered [] (λ i. false) shown disk disk lists

-- ===== src/Vault/Sanitize/Tests.antt =====
-- Paths that sanitizePath accepts and refuses, and an instance of its theorem.
use obsidian_mcp_server.Prelude.{◌≡◌, refl, Option, some, [], ◌∷◌}
use obsidian_mcp_server.Prelude.Exec.{ok, err}
use obsidian_mcp_server.Strings.{
  Bytes, codes, eq_bytes, split, join, contains_byte, has_prefix, trim_right,
}
use obsidian_mcp_server.Vault.Errors.{path_traversal, path_restricted}
use obsidian_mcp_server.Vault.FilePath.{clean, join_path}
use obsidian_mcp_server.Vault.PathFilter.{PathFilter, is_ignored, is_internal_state, matches_any}
use obsidian_mcp_server.Vault.Sanitize.{is_under_root, check_windows_safe, sanitize_path}
use obsidian_mcp_server.Vault.Sanitize.Components.{IsVaultRoot}
use obsidian_mcp_server.Vault.Sanitize.Safe.{IsAllowed, sanitize_path-IsAllowed}

abbrev root : Bytes
root = codes "/home/v"

abbrev filter : Option PathFilter
filter = some (record { ignore_patterns = codes ".git" ∷ []; allowed_exts = [] })

root-IsVaultRoot : IsVaultRoot root (codes "home" ∷ codes "v" ∷ [])
unfolding join contains_byte
root-IsVaultRoot = record {
  renders = refl;
  below = λ e. cc;
  plain = ((λ e. cc, λ e. cc, λ e. cc), ((λ e. cc, λ e. cc, λ e. cc), tt));
  parts = (refl, (refl, tt));
}

accepted :
    sanitize_path root filter (codes "Notes/./x/../a.md")
    ≡ ok (codes "Notes/a.md", codes "/home/v/Notes/a.md")
unfolding sanitize_path clean join_path check_windows_safe is_under_root is_ignored
    is_internal_state split join contains_byte has_prefix trim_right eq_bytes matches_any
accepted = refl

refused :
    (sanitize_path root filter (codes "a/../../b") ≡ err path_traversal)
    × (sanitize_path root filter (codes "/etc/passwd") ≡ err path_traversal)
    × (sanitize_path root filter (codes "x/nul.md") ≡ err path_traversal)
    × (sanitize_path root filter (codes "C:x") ≡ err path_traversal)
    × (sanitize_path root filter (codes "x/.git/../a") ≡ err path_restricted)
    × (sanitize_path root filter (codes "x/../.obsidian-mcp/trash") ≡ err path_restricted)
unfolding sanitize_path clean join_path check_windows_safe is_under_root is_ignored
    is_internal_state split join contains_byte has_prefix trim_right eq_bytes matches_any
refused = (refl, refl, refl, refl, refl, refl)

sanitize_path-IsAllowed_example :
    IsAllowed
      (codes "home" ∷ codes "v" ∷ [])
      filter
      (codes "Notes/a.md")
      (codes "/home/v/Notes/a.md")
sanitize_path-IsAllowed_example =
    sanitize_path-IsAllowed root (codes "home" ∷ codes "v" ∷ []) filter (codes "Notes/./x/../a.md")
      (codes "Notes/a.md") (codes "/home/v/Notes/a.md") root-IsVaultRoot accepted

-- ===== src/Vault/Tags/Rename/Made.antt =====
-- internal/vault/renametag.go, RenameTag: the notes that are reported.
use obsidian_mcp_server.Prelude.{
  ℕ, ◌<◌, ◌≡◌, ◌≢◌, ◌↔◌, ◌⊎◌, Bool, true, false, some, List, [], In, All,
}
use obsidian_mcp_server.Prelude.Exec.{ok}
use obsidian_mcp_server.Strings.{Bytes}
use obsidian_mcp_server.Vault.FilePath.{join_path}
use obsidian_mcp_server.Vault.Frontmatter.{split_frontmatter}
use obsidian_mcp_server.Vault.Os.{Os}
use obsidian_mcp_server.Vault.Yaml.{Yaml, find_key}
use obsidian_mcp_server.Vault.Guards.{Service}
use obsidian_mcp_server.Vault.List.{is_hidden}
use obsidian_mcp_server.Vault.Edit.{read_mapping}
use obsidian_mcp_server.Vault.Tags.Edits.{tags_key}
use obsidian_mcp_server.Vault.Tags.Edited.{values_in}
use obsidian_mcp_server.Vault.Tags.Inline.{rename_inline_tag}
use obsidian_mcp_server.Vault.Tags.Rename.{TagRename, Renamed, Renames, read_file}

module _ (y : Yaml) (old_tag new_tag : Bytes) (is_alnum : Bytes → Bool) (os : Os)
    (v : Service) where
  -- The text has the tag among the values of its frontmatter.
  abbrev pub HasInFrontmatter : Bytes → Type 0
  HasInFrontmatter d =
      (m : y.Node) × (read_mapping y (split_frontmatter d).2 (split_frontmatter d).0 ≡ ok (some m))
      × In old_tag (values_in y (find_key y tags_key (y.content m)))

  -- The number of the inline occurrences of the tag in the body of the text.
  abbrev pub inline_in : Bytes → ℕ
  inline_in d = (rename_inline_tag is_alnum (split_frontmatter d).1 old_tag new_tag).1

  -- A report that is true of a text.
  abbrev pub IsTrueOf : Bytes → Bool → ℕ → Type 0
  IsTrueOf d hit count =
      ((hit ≡ true) ↔ HasInFrontmatter d)
      × (count ≡ inline_in d)
      × (HasInFrontmatter d ⊎ (0 < inline_in d))

  -- A rename that was made: the note is not hidden, and at some time of the run its file held a text of
  -- which the report is true.
  abbrev pub WasMade : TagRename → Type 0
  WasMade r =
      (is_hidden v.filter r.path ≡ false)
      × (t : os.State) × (d : Bytes) × (read_file y old_tag new_tag is_alnum os v
            (join_path v.root r.path) t
          ≡ ok d)
      × IsTrueOf d r.frontmatter_hit r.inline_count

  abbrev AllMade : Renames y old_tag new_tag is_alnum os v → Type 0
  AllMade s = All WasMade s.1

  module _ (given : old_tag ≢ []) where
    abbrev Says : Bool → ℕ → Renamed → Type 0
    Says hit count r = (r.hit ≡ hit) × (r.count ≡ count)

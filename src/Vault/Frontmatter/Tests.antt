-- ===== src/Vault/Frontmatter/Tests.antt =====
-- Notes with and without frontmatter, and instances of the theorems.
use obsidian_mcp_server.Prelude.{◌≡◌, ◌↔◌, refl, true, false, List, [], ◌++◌, All}
use obsidian_mcp_server.Strings.{Bytes, codes, eq_bytes}
use obsidian_mcp_server.Vault.Frontmatter.{opening, dashes, split_frontmatter}
use obsidian_mcp_server.Vault.Frontmatter.Scan.{IsInner, Closes, unlines}
use obsidian_mcp_server.Vault.Frontmatter.Spec.{split_frontmatter_iff}

abbrev note : Bytes
note = codes "---\ntags: a\n---\nbody"

splits : split_frontmatter note ≡ (codes "tags: a\n", codes "body", true)
unfolding split_frontmatter eq_bytes
splits = refl

unclosed : split_frontmatter (codes "---\na\n--- \n") ≡ ([], codes "---\na\n--- \n", false)
unfolding split_frontmatter eq_bytes
unclosed = refl

split_frontmatter_iff_example :
    (split_frontmatter note ≡ (codes "tags: a\n", codes "body", true)) ↔ (
      (ls : List Bytes) × (tail : Bytes) × All IsInner ls
      × (codes "tags: a\n" ≡ unlines ls)
      × Closes tail (codes "body")
      × (note ≡ opening ++ (unlines ls ++ (dashes ++ tail))))
split_frontmatter_iff_example = split_frontmatter_iff note (codes "tags: a\n") (codes "body")

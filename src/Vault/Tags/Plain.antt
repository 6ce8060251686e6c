-- ===== src/Vault/Tags/Plain.antt =====
-- internal/vault/tags.go: the tags of the frontmatter as ExtractFrontmatterTags reads them, after AddTag
-- and RenameTag. A text that is no sequence is read as a list with commas, which these two do not do.
use obsidian_mcp_server.Prelude.{
  ◌≡◌, ◌≢◌, Bool, true, false, Option, none, some, List, [], map, All, if◌then◌else◌,
}
use obsidian_mcp_server.Strings.{Bytes, split}
use obsidian_mcp_server.Strings.Space.{trim_space}
use obsidian_mcp_server.Strings.Split.{Lacks}
use obsidian_mcp_server.Vault.Yaml.{Yaml, IsYaml, is_sequence}
use obsidian_mcp_server.Vault.Tags.{trimmed_parts}
use obsidian_mcp_server.Vault.Tags.Edited.{values_at}

-- A tag that is read as it stands, in a sequence.
abbrev pub IsTrimmed : Bytes → Type 0
IsTrimmed t = (trim_space t ≡ t) × (t ≢ [])

module _ (y : Yaml) where
  -- The tags that ExtractFrontmatterTags finds in a value of the key: those of a sequence, or those
  -- between the commas of a text, without the space around them and the empty ones.
  abbrev pub tags_at : y.Node → List Bytes
  tags_at n =
      trimmed_parts
        (if is_sequence (y.kind n) then map y.value (y.content n) else split b',' (y.value n))

  abbrev pub tags_in : Option y.Node → List Bytes
  tags_in none = []
  tags_in (some n) = tags_at n

  -- A value whose tags are read as they stand: no space around them, none of them empty, and no comma
  -- in a text that is no sequence.
  abbrev pub IsPlain : Option y.Node → Type 0
  IsPlain none = Unit
  IsPlain (some n) =
      All IsTrimmed (values_at y n) × (is_sequence (y.kind n) ≡ false → Lacks b',' (y.value n))

  module _ (laws : IsYaml y) where
    -- A value that is a sequence, where there is one.
    abbrev IsSequence : Option y.Node → Type 0
    IsSequence none = Unit
    IsSequence (some n) = is_sequence (y.kind n) ≡ true

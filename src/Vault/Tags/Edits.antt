-- ===== src/Vault/Tags/Edits.antt =====
-- internal/vault/tags.go: AddTag and RemoveTag.
use obsidian_mcp_server.Prelude.{
  Bool, true, false, not, ◌||◌, Option, none, some, List, [], ◌∷◌, ◌++◌, if◌then◌else◌,
}
use obsidian_mcp_server.Prelude.Exec.{Exec, Result, ok, fail, asks, bind, ◌>>◌}
use obsidian_mcp_server.Strings.{Bytes, codes, eq_bytes, has_suffix}
use obsidian_mcp_server.Vault.Errors.{Fault, invalid_location, PathError}
use obsidian_mcp_server.Vault.Frontmatter.{split_frontmatter}
use obsidian_mcp_server.Vault.Os.{Os}
use obsidian_mcp_server.Vault.Yaml.{Yaml, sequence, is_sequence, text_node, find_key, change_key}
use obsidian_mcp_server.Vault.Guards.{Service, path_error, check_context}
use obsidian_mcp_server.Vault.Edit.{
  assemble, edit_note, read_mapping, or_empty_mapping, with_mapping,
}
use obsidian_mcp_server.Vault.Tags.Inline.{remove_inline}

-- The location of AddTag, a string of the source.
pub data Location : Type 0 where
  frontmatter inline no_location : Location
  unknown_location : Bytes → Location

abbrev pub tags_key : Bytes
tags_key = codes "tags"

module _ (y : Yaml) where
  open y use {Node, kind, value, content, make, with_content}

  unfoldable pub has_value : Bytes → List Node → Bool
  has_value tag [] = false
  has_value tag (n ∷ ns) = eq_bytes (value n) tag || has_value tag ns

  -- A value that is no sequence becomes one that holds it.
  abbrev pub as_sequence : Node → Node
  as_sequence n =
      if is_sequence (kind n)
      then n
      else if eq_bytes (value n) []
      then make sequence [] []
      else make sequence [] (text_node y (value n) ∷ [])

  abbrev pub with_one : Bytes → Node → Node
  with_one tag s =
      if has_value tag (content s) then s else with_content (content s ++ text_node y tag ∷ []) s

  abbrev pub tagged_found : Bytes → List Node → Option Node → List Node
  tagged_found tag nodes none =
      nodes ++ text_node y tags_key ∷ make sequence [] (text_node y tag ∷ []) ∷ []
  tagged_found tag nodes (some old) =
      change_key y tags_key (λ n. with_one tag (as_sequence n)) nodes

  -- The keys and values of the mapping with the tag added.
  unfoldable pub tagged_nodes : Bytes → List Node → List Node
  unfolding has_value find_key change_key eq_bytes
  tagged_nodes tag nodes = tagged_found tag nodes (find_key y tags_key nodes)

  -- addTagToFrontmatter
  unfoldable pub add_tag_to_frontmatter : Node → Bytes → Bytes → Result Fault Bytes
  unfolding tagged_nodes
  add_tag_to_frontmatter m tag body =
      with_mapping y (with_content (tagged_nodes tag (content m)) m) body

  -- The body with the tag on a line of its own behind it.
  abbrev pub ended_by_newline : Bytes → Bytes
  ended_by_newline body = if has_suffix body (b'\n' ∷ []) then body else body ++ b'\n' ∷ []

  abbrev pub inline_tagged : Bool → Bytes → Bytes → Bytes → Bytes
  inline_tagged true raw body tag =
      assemble raw (ended_by_newline body ++ (b'#' ∷ tag) ++ b'\n' ∷ [])
  inline_tagged false raw body tag = ended_by_newline body ++ (b'#' ∷ tag) ++ b'\n' ∷ []

  abbrev pub added_text : Bool → Bytes → Bytes → Bytes → Bool → Node → Result Fault Bytes
  added_text true raw body tag has_fm m = add_tag_to_frontmatter m tag body
  added_text false raw body tag has_fm m = ok (inline_tagged has_fm raw body tag)

  -- The text of the note with the tag added; `to_frontmatter` is the location.
  unfoldable pub tagged_text : Bool → Bytes → Bytes → Result Fault Bytes
  unfolding add_tag_to_frontmatter has_suffix read_mapping
  tagged_text to_frontmatter tag data' =
      let parts = split_frontmatter data' in
      bind (read_mapping y parts.2 parts.0)
        (λ m. added_text to_frontmatter parts.0 parts.1 tag parts.2 (or_empty_mapping y m))

  abbrev pub location_of : Location → Option Bool
  location_of frontmatter = some true
  location_of no_location = some true
  location_of inline = some false
  location_of (unknown_location l) = none

  unfoldable pub without_value : Bytes → List Node → List Node
  without_value tag [] = []
  without_value tag (n ∷ ns) =
      let rest = without_value tag ns in if not (eq_bytes (value n) tag) then n ∷ rest else rest

  abbrev pub without_tag : Bytes → Node → Node
  without_tag tag n =
      if is_sequence (kind n) then with_content (without_value tag (content n)) n else n

  -- The keys and values of the mapping with the tag removed from its sequence.
  unfoldable pub untagged_nodes : Bytes → List Node → List Node
  unfolding without_value change_key
  untagged_nodes tag nodes = change_key y tags_key (without_tag tag) nodes

  abbrev pub untagged_note : Bytes → Option Node → Bytes → Result Fault Bytes
  untagged_note tag none new_body = ok new_body
  untagged_note tag (some m) new_body =
      with_mapping y (with_content (untagged_nodes tag (content m)) m) new_body

  module _ (is_alnum : Bytes → Bool) where
    -- The text of the note with the tag removed. Without a mapping only the body is left.
    unfoldable pub untagged_text : Bytes → Bytes → Result Fault Bytes
    unfolding untagged_nodes remove_inline read_mapping
    untagged_text tag data' =
        let parts = split_frontmatter data' in
        bind (read_mapping y parts.2 parts.0)
          (λ m. untagged_note tag m (remove_inline is_alnum tag parts.1))

  module _ (os : Os) (v : Service) where
    abbrev pub located : Option Bool → Bytes → Bytes → Bytes → Exec os.State PathError (Unit {0})
    located none path tag condition = fail (path_error (codes "add_tag") path invalid_location)
    located (some to_frontmatter) path tag condition =
        edit_note os v (codes "add_tag") path condition true (tagged_text to_frontmatter tag)

    -- AddTag
    unfoldable pub add_tag :
        Bool → Bytes → Bytes → Location → Bytes → Exec os.State PathError (Unit {0})
    unfolding tagged_text edit_note
    add_tag is_cancelled path tag location condition = do
      asks (λ _. check_context (codes "add_tag") path is_cancelled)
      located (location_of location) path tag condition

    -- RemoveTag
    unfoldable pub remove_tag :
        (Bytes → Bool) → Bool → Bytes → Bytes → Bytes → Exec os.State PathError (Unit {0})
    unfolding untagged_text edit_note
    remove_tag is_alnum is_cancelled path tag condition = do
      asks (λ _. check_context (codes "remove_tag") path is_cancelled)
      edit_note os v (codes "remove_tag") path condition false (untagged_text is_alnum tag)

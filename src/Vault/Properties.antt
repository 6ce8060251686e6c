-- ===== src/Vault/Properties.antt =====
-- internal/vault/frontmatter.go: ParseFrontmatter, GetFrontmatter and UpdateFrontmatter.
pub mod Updates
mod Tests
use obsidian_mcp_server.Prelude.{
  ℕ, Bool, true, false, Option, none, some, List, [], ◌∷◌, if◌then◌else◌,
}
use obsidian_mcp_server.Prelude.Exec.{Exec, Result, ok, err, pure, asks, bind, ◌>>=◌, ◌>>◌}
use obsidian_mcp_server.Prelude.Sort.{sort}
use obsidian_mcp_server.Maps.{Map, empty}
use obsidian_mcp_server.Strings.{Bytes, codes, eq_bytes}
use obsidian_mcp_server.Strings.Order.{less}
use obsidian_mcp_server.Strings.Space.{trim_space}
use obsidian_mcp_server.Vault.Errors.{Fault, invalid_frontmatter, encode_failed, PathError}
use obsidian_mcp_server.Vault.Frontmatter.{split_frontmatter}
use obsidian_mcp_server.Vault.Os.{Os}
use obsidian_mcp_server.Vault.Yaml.{Yaml, first_of, is_document, set_key, remove_key}
use obsidian_mcp_server.Vault.Guards.{Service, path_error, check_context}
use obsidian_mcp_server.Vault.Read.{Note, read_note}
use obsidian_mcp_server.Vault.Edit.{edit_note, read_mapping, or_empty_mapping, with_mapping}

abbrev pub update_op : Bytes
update_op = codes "update_frontmatter"

-- The errors of GetFrontmatter and ListTags: an error of ParseFrontmatter is in no PathError.
pub data FrontmatterError : Type 0 where
  unread : PathError → FrontmatterError
  unparsed : Fault → FrontmatterError

module _ (y : Yaml) where
  open y use {Node, Value, content, with_content}

  abbrev or_empty_map : Option (Option (Map Value)) → Result Fault (Map Value)
  or_empty_map none = err invalid_frontmatter
  or_empty_map (some none) = ok empty
  or_empty_map (some (some m)) = ok m

  -- ParseFrontmatter
  unfoldable pub parse_frontmatter : Bytes → Result Fault (Map Value)
  parse_frontmatter raw =
      if eq_bytes (trim_space raw) [] then ok empty else or_empty_map (y.decode raw)

  abbrev pub unwrapped : Node → Option Node → Node
  unwrapped doc none = doc
  unwrapped doc (some n) = n

  abbrev pub encoded : Option Node → Result Fault Node
  encoded none = err encode_failed
  encoded (some doc) = ok (unwrapped doc (first_of y (is_document (y.kind doc)) (content doc)))

  -- encodeToNode
  unfoldable pub encode_to_node : Value → Result Fault Node
  encode_to_node v = encoded (y.encode v)

  -- The loop over the keys that are set.
  unfoldable pub apply_updates : List (Bytes × Value) → List Node → Result Fault (List Node)
  unfolding encode_to_node
  apply_updates [] nodes = ok nodes
  apply_updates ((k, v) ∷ updates) nodes =
      bind (encode_to_node v) (λ n. apply_updates updates (set_key y k n nodes))

  -- The loop over the keys that are removed.
  unfoldable pub apply_removals : List Bytes → List Node → List Node
  apply_removals [] nodes = nodes
  apply_removals (k ∷ keys) nodes = apply_removals keys (remove_key y k nodes)

  abbrev pub by_key : Bytes × Value → Bytes × Value → Bool
  by_key a b = less a.0 b.0

  -- What becomes of the keys and values: the updates in the order of their keys, then the removals.
  unfoldable pub updated_nodes :
      List (Bytes × Value) → List Bytes → List Node → Result Fault (List Node)
  unfolding apply_updates apply_removals
  updated_nodes updates removals nodes =
      bind (apply_updates (sort by_key updates) nodes) (λ ns. ok (apply_removals removals ns))

  abbrev pub updated_with : List (Bytes × Value) → List Bytes → Node → Bytes → Result Fault Bytes
  updated_with updates removals m body =
      bind (updated_nodes updates removals (content m))
        (λ ns. with_mapping y (with_content ns m) body)

  -- The text of the note with its frontmatter updated.
  unfoldable pub updated_text : List (Bytes × Value) → List Bytes → Bytes → Result Fault Bytes
  unfolding updated_nodes
  updated_text updates removals data' =
      let parts = split_frontmatter data' in
      bind (read_mapping y parts.2 parts.0)
        (λ m. updated_with updates removals (or_empty_mapping y m) parts.1)

  module _ (os : Os) (v : Service) where
    -- UpdateFrontmatter; the updates are the entries of a Go map, each key once.
    unfoldable pub update_frontmatter :
        Bool
        → Bytes
        → List (Bytes × Value)
        → List Bytes
        → Bytes
        → Exec os.State PathError (Unit {0})
    unfolding updated_text
    update_frontmatter is_cancelled path updates removals condition = do
      asks (λ _. check_context update_op path is_cancelled)
      edit_note os v update_op path condition false (updated_text updates removals)

    abbrev parsed : Bytes × Bytes × Bool → Bytes → Result FrontmatterError (Map Value × Bytes)
    parsed (raw, body, false) content = ok (empty, content)
    parsed (raw, body, true) content = elim (parse_frontmatter raw) [
      | ok fm ↦ ok (fm, body)
      | err f ↦ err (unparsed f)
    ]

    abbrev of_note : Result PathError Note → Result FrontmatterError (Map Value × Bytes)
    of_note (err e) = err (unread e)
    of_note (ok note) = parsed (split_frontmatter note.content) note.content

    -- GetFrontmatter
    unfoldable pub get_frontmatter :
        (Bytes → Bytes) → Bool → Bytes → Exec os.State FrontmatterError (Map Value × Bytes)
    unfolding parse_frontmatter
    get_frontmatter to_lower is_cancelled path s =
        let out = read_note to_lower os v is_cancelled path s in (of_note out.0, out.1)

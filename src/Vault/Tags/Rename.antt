-- ===== src/Vault/Tags/Rename.antt =====
-- internal/vault/renametag.go: RenameTag.
pub mod Reported
pub mod Made
use obsidian_mcp_server.Prelude.{
  ℕ, ◌+◌, Bool, true, false, not, ◌&&◌, ◌||◌, Option, none, some, List, [], ◌∷◌, ◌++◌, ◌==◌,
  if◌then◌else◌, ltb, length,
}
use obsidian_mcp_server.Prelude.Exec.{Exec, Result, ok, err, fail, pure, asks, bind, ◌>>=◌, ◌>>◌}
use obsidian_mcp_server.Strings.{Bytes, codes, eq_bytes}
use obsidian_mcp_server.Vault.Errors.{
  OsError, Fault, invalid_frontmatter, file_too_large, empty_tag, os_fault, PathError,
}
use obsidian_mcp_server.Vault.Frontmatter.{split_frontmatter}
use obsidian_mcp_server.Vault.Os.{Os, OpenFile}
use obsidian_mcp_server.Vault.Yaml.{Yaml, is_sequence, find_key, change_key, mapping_of}
use obsidian_mcp_server.Vault.Guards.{
  Service, max_file_size_bytes, path_error, os_call, check_context, check_symlinks_for_write,
}
use obsidian_mcp_server.Vault.Edit.{assemble, marshaled, read_mapping}
use obsidian_mcp_server.Vault.Tags.Edits.{tags_key, has_value}
use obsidian_mcp_server.Vault.Tags.Inline.{rename_inline_tag}
use obsidian_mcp_server.Vault.Walk.{Nodes, Stop, failed_with, walk_notes}

abbrev pub rename_op : Bytes
rename_op = codes "rename_tag"

pub record TagRename : Type 0 where
  pub path : Bytes
  pub frontmatter_hit : Bool
  pub inline_count : ℕ

-- A note with its tag renamed: its text, and what TagRename says of it.
pub record Renamed : Type 0 where
  pub text : Bytes
  pub hit : Bool
  pub count : ℕ

module _ (y : Yaml) (old_tag new_tag : Bytes) where
  open y use {Node, kind, value, content, with_content, with_value, marshal}

  unfoldable pub rename_children : List Node → List Node
  rename_children [] = []
  rename_children (n ∷ ns) =
      let rest = rename_children ns in
      if eq_bytes (value n) old_tag then with_value new_tag n ∷ rest else n ∷ rest

  -- The value of the key: its sequence, or the one tag that it is.
  abbrev pub rename_value : Node → Node
  rename_value n =
      if is_sequence (kind n)
      then with_content (rename_children (content n)) n
      else if eq_bytes (value n) old_tag
      then with_value new_tag n
      else n

  abbrev pub value_hit : Option Node → Bool
  value_hit none = false
  value_hit (some n) =
      if is_sequence (kind n) then has_value y old_tag (content n) else eq_bytes (value n) old_tag

  unfoldable pub renamed_nodes : List Node → List Node
  unfolding rename_children change_key eq_bytes
  renamed_nodes nodes = change_key y tags_key rename_value nodes

  -- Whether the frontmatter has the tag.
  unfoldable pub frontmatter_hit_in : Option Node → Bool
  unfolding find_key has_value eq_bytes
  frontmatter_hit_in none = false
  frontmatter_hit_in (some m) = value_hit (find_key y tags_key (content m))

  abbrev pub new_raw : Bytes → Bool → Option Node → Result Fault Bytes
  new_raw raw hit none = ok raw
  new_raw raw true (some m) = marshaled y (marshal (with_content (renamed_nodes (content m)) m))
  new_raw raw false (some m) = ok raw

  abbrev pub put_together : Bool → Bytes → Bytes → Bytes
  put_together true raw body = assemble raw body
  put_together false raw body = body

  abbrev pub renamed_content : Bytes → Bool → Bool → Bytes × ℕ → Bytes → Renamed
  renamed_content content has_fm hit inline raw =
      if not hit && (inline.1 == 0)
      then record { text = content; hit = false; count = 0 }
      else record { text = put_together has_fm raw inline.0; hit = hit; count = inline.1 }

  module _ (is_alnum : Bytes → Bool) where
    -- renameTagInContent
    unfoldable pub rename_tag_in_content : Bytes → Result Fault Renamed
    unfolding read_mapping frontmatter_hit_in renamed_nodes rename_inline_tag
    rename_tag_in_content content =
        let parts = split_frontmatter content in
        bind (read_mapping y parts.2 parts.0) (λ m.
          bind (new_raw parts.0 (frontmatter_hit_in m) m) (λ raw. ok (
            renamed_content content parts.2 (frontmatter_hit_in m)
              (rename_inline_tag is_alnum parts.1 old_tag new_tag) raw)))

    module _ (os : Os) (v : Service) where
      open os use {State, open_file, write_file}

      abbrev content_read : Result OsError OpenFile → Result OsError Bytes
      content_read (err e) = err e
      content_read (ok f) = f.content

      -- os.ReadFile
      abbrev pub read_file : Bytes → State → Result OsError Bytes
      read_file abs_path s = content_read (open_file abs_path s)

      abbrev check_length : Bytes → Bytes → Result PathError (Unit {0})
      check_length rel text =
          if ltb max_file_size_bytes (length text)
          then err (path_error rename_op rel file_too_large)
          else ok tt

      -- writeRenamedTagNote
      unfoldable pub write_renamed_tag_note :
          Bytes → Bytes → Bytes → Exec State PathError (Unit {0})
      write_renamed_tag_note rel abs_path text = do
        asks (check_symlinks_for_write os v rename_op rel abs_path)
        asks (λ _. check_length rel text)
        os_call rename_op rel os_fault (write_file abs_path text)

      -- The state of the walk, and the renames that were reported.
      abbrev pub Renames : Type 0
      Renames = State × List TagRename

      abbrev pub reported :
          Bytes
          → Renamed
          → List TagRename
          → Result PathError (Unit {0}) × State
          → Result Stop (Unit {0}) × Renames
      reported rel r renames (err e, s) = (err (failed_with e), (s, renames))
      reported rel r renames (ok u, s) = (
        ok tt,
        (s, renames ++ record { path = rel; frontmatter_hit = r.hit; inline_count = r.count } ∷ []),
      )

      abbrev pub rename_content :
          Bytes → Bytes → Result Fault Renamed → Exec Renames Stop (Unit {0})
      rename_content rel abs_path (err f) s = (err (failed_with (path_error rename_op rel f)), s)
      rename_content rel abs_path (ok r) s =
          if not r.hit && (r.count == 0)
          then (ok tt, s)
          else reported rel r s.1 (write_renamed_tag_note rel abs_path r.text s.0)

      abbrev pub rename_read : Bytes → Bytes → Result OsError Bytes → Exec Renames Stop (Unit {0})
      rename_read rel abs_path (err e) s = (ok tt, s)
      rename_read rel abs_path (ok data') s =
          rename_content rel abs_path (rename_tag_in_content data') s

      -- The function that RenameTag hands to WalkNotes.
      unfoldable pub rename_note : Bytes → Bytes → Exec Renames Stop (Unit {0})
      unfolding rename_tag_in_content write_renamed_tag_note
      rename_note rel abs_path s = rename_read rel abs_path (read_file abs_path s.0) s

      abbrev pub check_tags : Result PathError (Unit {0})
      check_tags =
          if eq_bytes old_tag [] || eq_bytes new_tag []
          then err (path_error rename_op old_tag empty_tag)
          else ok tt

      abbrev pub all_renames :
          Result PathError (Unit {0}) × Renames → Result PathError (List TagRename) × State
      all_renames (ok u, s) = (ok s.1, s.0)
      all_renames (err e, s) = (err e, s.0)

      abbrev pub walk_and_rename :
          (Bytes → Bytes)
          → (ℕ → Bool)
          → Result OsError Nodes
          → Exec State PathError (List TagRename)
      walk_and_rename to_lower is_cancelled tree s =
          all_renames (walk_notes to_lower v is_cancelled tree rename_note (s, []))

      -- RenameTag over the tree of the vault.
      unfoldable pub rename_tag :
          (Bytes → Bytes)
          → Bool
          → (ℕ → Bool)
          → Result OsError Nodes
          → Exec State PathError (List TagRename)
      unfolding eq_bytes walk_notes rename_note
      rename_tag to_lower is_cancelled_before is_cancelled tree = do
        asks (λ _. check_context rename_op old_tag is_cancelled_before)
        asks (λ _. check_tags)
        walk_and_rename to_lower is_cancelled tree

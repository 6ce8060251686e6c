-- ===== src/Vault/Calls/Tests.antt =====
-- The edits of internal/vault on files in memory, and instances of the theorems on calls.
use obsidian_mcp_server.Prelude.{◌≡◌, refl, Bool, true, false, [], ◌∷◌, ◌++◌}
use obsidian_mcp_server.Prelude.Exec.{ok}
use obsidian_mcp_server.Strings.{
  Bytes, codes, eq_bytes, split, join, contains_byte, has_prefix, has_suffix, trim_right,
}
use obsidian_mcp_server.Strings.Runes.{rune_width}
use obsidian_mcp_server.Http.Session.{hex_encode}
use obsidian_mcp_server.Markdown.{next_fence, fence_opener, is_fence_closer}
use obsidian_mcp_server.Vault.Errors.{revision_conflict, PathError}
use obsidian_mcp_server.Vault.FilePath.{clean, join_path, dir}
use obsidian_mcp_server.Vault.Frontmatter.{split_frontmatter}
use obsidian_mcp_server.Vault.PathFilter.{is_internal_state, matches_any}
use obsidian_mcp_server.Vault.Sanitize.{is_under_root, check_windows_safe, sanitize_path}
use obsidian_mcp_server.Vault.Guards.{
  path_error, etag, check_if_match, check_symlinks_for_write, resolve_symlink, exists_strict,
  read_note_bytes,
}
use obsidian_mcp_server.Vault.Disk.{Files, lookup, without, memory, memory-IsReliable, vault}
use obsidian_mcp_server.Vault.Yaml.{find_key, change_key}
use obsidian_mcp_server.Vault.Yaml.Plain.{plain_yaml, sample_text}
use obsidian_mcp_server.Vault.Edit.{edit_note, read_mapping, with_mapping}
use obsidian_mcp_server.Vault.Edit.Effect.{Edited}
use obsidian_mcp_server.Vault.Tags.Edits.{
  frontmatter, has_value, tagged_nodes, add_tag_to_frontmatter, tagged_text, untagged_text,
  untagged_nodes, without_value, add_tag, remove_tag,
}
use obsidian_mcp_server.Vault.Tags.Inline.{
  follow, match_here, replace_tag_matches, outside_fences, remove_in_line, remove_inline,
}
use obsidian_mcp_server.Vault.Calls.{add_call, text_of_edit, run_edit-Edited}

abbrev path : Bytes
path = codes "a.md"

abbrev abs_path : Bytes
abs_path = codes "/v/a.md"

abbrev body : Bytes
body = codes "x #a y\n"

abbrev before : Bytes
before = codes "---\n" ++ (sample_text ++ (codes "---\n" ++ body))

abbrev tagged : Bytes
tagged = codes "---\ntags:[a,b,]\ntitle:t\n---\n" ++ body

abbrev untagged : Bytes
untagged = codes "---\ntags:[]\ntitle:t\n---\nx y\n"

abbrev disk : Files
disk = (abs_path, before) ∷ []

abbrev after : Files
after = (abs_path, tagged) ∷ []

abbrev letters : Bytes → Bool
letters c = false

abbrev conflict : PathError
conflict = path_error (codes "add_tag") path revision_conflict

adds : add_tag plain_yaml memory vault false path (codes "b") frontmatter [] disk ≡ (ok tt, after)
unfolding add_tag edit_note tagged_text add_tag_to_frontmatter tagged_nodes has_value find_key
    change_key read_mapping with_mapping split_frontmatter sanitize_path clean join_path
    check_windows_safe is_under_root is_internal_state matches_any split join contains_byte
    has_prefix has_suffix trim_right eq_bytes dir check_symlinks_for_write resolve_symlink
    exists_strict read_note_bytes check_if_match etag hex_encode lookup without
adds = refl

-- The white space behind the tag is taken out with it.
removes :
    remove_tag plain_yaml memory vault (λ c. eq_bytes c (codes "y")) false path (codes "a") [] disk
    ≡ (ok tt, (abs_path, untagged) ∷ [])
unfolding remove_tag edit_note untagged_text untagged_nodes without_value change_key read_mapping
    with_mapping split_frontmatter sanitize_path clean join_path check_windows_safe is_under_root
    is_internal_state matches_any split join contains_byte has_prefix has_suffix trim_right eq_bytes
    dir check_symlinks_for_write resolve_symlink exists_strict read_note_bytes check_if_match etag
    hex_encode lookup without remove_inline outside_fences remove_in_line replace_tag_matches
    match_here follow rune_width next_fence fence_opener is_fence_closer
removes = refl

path_allowed : sanitize_path vault.root vault.filter path ≡ ok (path, abs_path)
unfolding sanitize_path clean join_path check_windows_safe is_under_root is_internal_state
    matches_any split join contains_byte has_prefix trim_right eq_bytes
path_allowed = refl

there : exists_strict memory vault (codes "add_tag") path abs_path disk ≡ ok tt
unfolding exists_strict lookup eq_bytes
there = refl

links_inside : check_symlinks_for_write memory vault (codes "add_tag") path abs_path disk ≡ ok tt
unfolding check_symlinks_for_write resolve_symlink is_under_root dir clean split join contains_byte
    has_prefix trim_right eq_bytes lookup
links_inside = refl

reads : read_note_bytes memory vault abs_path disk ≡ ok before
unfolding read_note_bytes lookup eq_bytes
reads = refl

makes : tagged_text plain_yaml true (codes "b") before ≡ ok tagged
unfolding tagged_text add_tag_to_frontmatter tagged_nodes has_value find_key change_key read_mapping
    with_mapping split_frontmatter has_prefix eq_bytes
makes = refl

writes : memory.write_file abs_path tagged disk ≡ (ok tt, after)
unfolding without eq_bytes
writes = refl

run_edit-Edited_example :
    Edited memory vault
      (codes "add_tag")
      path
      []
      true
      (text_of_edit plain_yaml letters (add_call (codes "b") frontmatter))
      disk
      after
run_edit-Edited_example =
    run_edit-Edited plain_yaml letters memory vault false path [] memory-IsReliable
      (add_call (codes "b") frontmatter) disk after adds

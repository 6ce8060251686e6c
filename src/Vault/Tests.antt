-- ===== src/Vault/Tests.antt =====
-- The operations of internal/vault on files in memory, and instances of their theorems.
use obsidian_mcp_server.Prelude.{
  ℕ, ◌≡◌, refl, true, false, [], ◌∷◌, ◌+◌, ◌&&◌, leb, map, if◌then◌else◌,
}
use obsidian_mcp_server.Prelude.Exec.{ok, err}
use obsidian_mcp_server.Strings.{
  Bytes, codes, eq_bytes, split, join, contains_byte, has_prefix, trim_right,
}
use obsidian_mcp_server.Strings.Space.{trim_space}
use obsidian_mcp_server.Http.Session.{hex_encode}
use obsidian_mcp_server.Vault.Errors.{
  revision_conflict, confirm_mismatch, already_exists, PathError,
}
use obsidian_mcp_server.Vault.FilePath.{clean, join_path, join_paths, dir, base, ext}
use obsidian_mcp_server.Vault.PathFilter.{is_internal_state, matches_any}
use obsidian_mcp_server.Vault.Sanitize.{is_under_root, check_windows_safe, sanitize_path}
use obsidian_mcp_server.Vault.Headings.{
  replace_body, patch_lines, split_lines, find_heading, body_end, ends_section, is_heading_line,
}
use obsidian_mcp_server.Vault.Os.{stored}
use obsidian_mcp_server.Vault.Guards.{
  path_error, etag, check_if_match, check_symlinks_for_write, resolve_symlink, exists_strict,
  read_note_bytes, read_matched, read_if_conditional,
}
use obsidian_mcp_server.Vault.Disk.{
  Files, entries_in, lookup, without, memory, memory-IsReliable, vault,
}
use obsidian_mcp_server.Vault.Read.{
  Note, case_matches, existence_check, check_extension, resolve_path, read_note,
}
use obsidian_mcp_server.Vault.Read.Resolved.{WasRead, read_note-WasRead}
use obsidian_mcp_server.Vault.Write.{
  overwrite, append, write, check_size, read_existing_or_empty, existing_text, write_in_mode,
  write_note,
}
use obsidian_mcp_server.Vault.Write.Effect.{Wrote, write_note-Wrote}
use obsidian_mcp_server.Vault.Write.Conflicts.{write_note-after_write}
use obsidian_mcp_server.Vault.Delete.{delete, check_confirm, trash_path, delete_note}
use obsidian_mcp_server.Vault.Delete.Trash.{Trashed, delete_note-Trashed}
use obsidian_mcp_server.Vault.Move.{move, check_absent, move_file_locked, move_note}
use obsidian_mcp_server.Vault.Patch.{PatchOp, patch, patched_text, patch_note}
use obsidian_mcp_server.Vault.Patch.Effect.{Patched, patch_note-Patched}

abbrev path : Bytes
path = codes "n/a.md"

abbrev abs_path : Bytes
abs_path = codes "/v/n/a.md"

abbrev old : Bytes
old = codes "# A\nold"

abbrev other_path : Bytes
other_path = codes "b.md"

abbrev disk : Files
disk = (abs_path, old) ∷ []

abbrev appended : Files
appended = (abs_path, codes "# A\nold new") ∷ []

abbrev patched : Files
patched = (abs_path, codes "# A\nnew") ∷ []

abbrev in_trash : Files
in_trash = (codes "/v/.obsidian-mcp/trash/7/n/a.md", old) ∷ []

abbrev at_other : Files
at_other = (codes "/v/b.md", old) ∷ []

abbrev new_body : PatchOp
new_body = record { heading = codes "A"; position = replace_body; content = codes "new" }

abbrev write_conflict : PathError
write_conflict = path_error write path revision_conflict

abbrev unconfirmed : PathError
unconfirmed = path_error delete path confirm_mismatch

abbrev occupied : PathError
occupied = path_error move path already_exists

abbrev patch_conflict : PathError
patch_conflict = path_error patch path revision_conflict

-- The revision of the old text, two characters for a byte.
abbrev revision : Bytes
revision = codes "2320410a6f6c64"

appends : write_note memory vault false path (codes " new") append revision disk ≡ (ok tt, appended)
unfolding write_note check_size sanitize_path clean join_path check_windows_safe is_under_root
    is_internal_state matches_any split join contains_byte has_prefix trim_right eq_bytes dir
    check_symlinks_for_write resolve_symlink read_if_conditional read_matched read_note_bytes
    check_if_match etag hex_encode write_in_mode existing_text read_existing_or_empty lookup without
    delete_note check_confirm trash_path join_paths move_note check_absent move_file_locked
    exists_strict patch_note patched_text patch_lines split_lines find_heading body_end ends_section
    is_heading_line trim_space
appends = refl

write_conflicts :
    write_note memory vault false path (codes "x") overwrite (codes "00") disk
    ≡ (err write_conflict, disk)
unfolding write_note check_size sanitize_path clean join_path check_windows_safe is_under_root
    is_internal_state matches_any split join contains_byte has_prefix trim_right eq_bytes dir
    check_symlinks_for_write resolve_symlink read_if_conditional read_matched read_note_bytes
    check_if_match etag hex_encode write_in_mode existing_text read_existing_or_empty lookup without
    delete_note check_confirm trash_path join_paths move_note check_absent move_file_locked
    exists_strict patch_note patched_text patch_lines split_lines find_heading body_end ends_section
    is_heading_line trim_space
write_conflicts = refl

same_text : write_note memory vault false path old overwrite revision disk ≡ (ok tt, disk)
unfolding write_note check_size sanitize_path clean join_path check_windows_safe is_under_root
    is_internal_state matches_any split join contains_byte has_prefix trim_right eq_bytes dir
    check_symlinks_for_write resolve_symlink read_if_conditional read_matched read_note_bytes
    check_if_match etag hex_encode write_in_mode existing_text read_existing_or_empty lookup without
    delete_note check_confirm trash_path join_paths move_note check_absent move_file_locked
    exists_strict patch_note patched_text patch_lines split_lines find_heading body_end ends_section
    is_heading_line trim_space
same_text = refl

deletes :
    delete_note memory vault (codes "7") false path path false revision disk ≡ (ok tt, in_trash)
unfolding write_note check_size sanitize_path clean join_path check_windows_safe is_under_root
    is_internal_state matches_any split join contains_byte has_prefix trim_right eq_bytes dir
    check_symlinks_for_write resolve_symlink read_if_conditional read_matched read_note_bytes
    check_if_match etag hex_encode write_in_mode existing_text read_existing_or_empty lookup without
    delete_note check_confirm trash_path join_paths move_note check_absent move_file_locked
    exists_strict patch_note patched_text patch_lines split_lines find_heading body_end ends_section
    is_heading_line trim_space
deletes = refl

delete_unconfirmed :
    delete_note memory vault (codes "7") false path other_path true [] disk
    ≡ (err unconfirmed, disk)
unfolding write_note check_size sanitize_path clean join_path check_windows_safe is_under_root
    is_internal_state matches_any split join contains_byte has_prefix trim_right eq_bytes dir
    check_symlinks_for_write resolve_symlink read_if_conditional read_matched read_note_bytes
    check_if_match etag hex_encode write_in_mode existing_text read_existing_or_empty lookup without
    delete_note check_confirm trash_path join_paths move_note check_absent move_file_locked
    exists_strict patch_note patched_text patch_lines split_lines find_heading body_end ends_section
    is_heading_line trim_space
delete_unconfirmed = refl

move_occupied : move_note memory vault false path path path false [] disk ≡ (err occupied, disk)
unfolding write_note check_size sanitize_path clean join_path check_windows_safe is_under_root
    is_internal_state matches_any split join contains_byte has_prefix trim_right eq_bytes dir
    check_symlinks_for_write resolve_symlink read_if_conditional read_matched read_note_bytes
    check_if_match etag hex_encode write_in_mode existing_text read_existing_or_empty lookup without
    delete_note check_confirm trash_path join_paths move_note check_absent move_file_locked
    exists_strict patch_note patched_text patch_lines split_lines find_heading body_end ends_section
    is_heading_line trim_space
move_occupied = refl

patches : patch_note memory vault false path new_body revision disk ≡ (ok tt, patched)
unfolding write_note check_size sanitize_path clean join_path check_windows_safe is_under_root
    is_internal_state matches_any split join contains_byte has_prefix trim_right eq_bytes dir
    check_symlinks_for_write resolve_symlink read_if_conditional read_matched read_note_bytes
    check_if_match etag hex_encode write_in_mode existing_text read_existing_or_empty lookup without
    delete_note check_confirm trash_path join_paths move_note check_absent move_file_locked
    exists_strict patch_note patched_text patch_lines split_lines find_heading body_end ends_section
    is_heading_line trim_space
patches = refl

patch_conflicts :
    patch_note memory vault false path new_body (codes "00") disk ≡ (err patch_conflict, disk)
unfolding write_note check_size sanitize_path clean join_path check_windows_safe is_under_root
    is_internal_state matches_any split join contains_byte has_prefix trim_right eq_bytes dir
    check_symlinks_for_write resolve_symlink read_if_conditional read_matched read_note_bytes
    check_if_match etag hex_encode write_in_mode existing_text read_existing_or_empty lookup without
    delete_note check_confirm trash_path join_paths move_note check_absent move_file_locked
    exists_strict patch_note patched_text patch_lines split_lines find_heading body_end ends_section
    is_heading_line trim_space
patch_conflicts = refl

path_allowed : sanitize_path vault.root vault.filter path ≡ ok (path, abs_path)
unfolding write_note check_size sanitize_path clean join_path check_windows_safe is_under_root
    is_internal_state matches_any split join contains_byte has_prefix trim_right eq_bytes dir
    check_symlinks_for_write resolve_symlink read_if_conditional read_matched read_note_bytes
    check_if_match etag hex_encode write_in_mode existing_text read_existing_or_empty lookup without
    delete_note check_confirm trash_path join_paths move_note check_absent move_file_locked
    exists_strict patch_note patched_text patch_lines split_lines find_heading body_end ends_section
    is_heading_line trim_space
path_allowed = refl

other_allowed : sanitize_path vault.root vault.filter other_path ≡ ok (other_path, codes "/v/b.md")
unfolding write_note check_size sanitize_path clean join_path check_windows_safe is_under_root
    is_internal_state matches_any split join contains_byte has_prefix trim_right eq_bytes dir
    check_symlinks_for_write resolve_symlink read_if_conditional read_matched read_note_bytes
    check_if_match etag hex_encode write_in_mode existing_text read_existing_or_empty lookup without
    delete_note check_confirm trash_path join_paths move_note check_absent move_file_locked
    exists_strict patch_note patched_text patch_lines split_lines find_heading body_end ends_section
    is_heading_line trim_space
other_allowed = refl

opens : memory.open_file abs_path disk ≡ ok (stored old)
unfolding lookup eq_bytes
opens = refl

write_note-Wrote_example : Wrote memory vault path (codes " new") append revision disk appended
write_note-Wrote_example =
    write_note-Wrote memory vault memory-IsReliable path false (codes " new") append revision disk
      appended appends

write_note-after_write_example : etag vault old ≡ revision
write_note-after_write_example =
    write_note-after_write memory vault path memory-IsReliable old (codes " new") append b'2'
      (codes "320410a6f6c64") disk disk appended same_text appends

delete_note-Trashed_example : Trashed memory vault path (codes "7") path revision disk in_trash
delete_note-Trashed_example =
    delete_note-Trashed memory vault path (codes "7") false path revision disk in_trash deletes

patch_note-Patched_example : Patched memory vault path new_body revision disk patched
patch_note-Patched_example =
    patch_note-Patched memory vault path new_body memory-IsReliable false revision disk patched
      patches

abbrev lower_byte : ℕ → ℕ
lower_byte c = if leb b'A' c && leb c b'Z' then c + 32 else c

abbrev lower : Bytes → Bytes
lower = map lower_byte

abbrev note : Note
note = record {
  path = codes "n/A.MD";
  abs_path = codes "/v/n/a.md";
  content = old;
  note_etag = revision;
}

reads : read_note lower memory vault false (codes "n/A.MD") disk ≡ (ok note, disk)
unfolding sanitize_path clean join_path check_windows_safe is_under_root is_internal_state
    matches_any split join contains_byte has_prefix trim_right eq_bytes dir base resolve_symlink
    read_note_bytes etag hex_encode lookup entries_in read_note resolve_path check_extension
    existence_check case_matches ext
reads = refl

read_note-WasRead_example : WasRead lower memory vault (codes "n/A.MD") disk note × (disk ≡ disk)
read_note-WasRead_example =
    read_note-WasRead lower memory vault (codes "n/A.MD") false note disk disk reads

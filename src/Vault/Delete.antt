-- ===== src/Vault/Delete.antt =====
-- internal/vault/mutators.go: DeleteNote.
pub mod Trash
pub mod Prune
pub mod Pruned
mod Tests
use obsidian_mcp_server.Prelude.{ℕ, ◌≡◌, Bool, true, false, not, List, [], ◌∷◌, if◌then◌else◌}
use obsidian_mcp_server.Prelude.Exec.{Exec, Result, ok, err, pure, fail, asks, ◌>>=◌, ◌>>◌}
use obsidian_mcp_server.Strings.{Bytes, codes, eq_bytes}
use obsidian_mcp_server.Vault.Errors.{Fault, confirm_mismatch, not_found, os_fault, PathError}
use obsidian_mcp_server.Vault.FilePath.{dir, join_paths}
use obsidian_mcp_server.Vault.Os.{Os}
use obsidian_mcp_server.Vault.PathFilter.{internal_state_dir}
use obsidian_mcp_server.Vault.Guards.{
  Service, path_error, os_call, missing_is, check_context, sanitize, check_symlinks_for_write,
  read_if_conditional,
}

abbrev pub delete : Bytes
delete = codes "delete"

-- confirm must equal the path.
unfoldable pub check_confirm : Bytes → Bytes → Bytes → Result PathError (Unit {0})
check_confirm op path confirm =
    if not (eq_bytes confirm path) then err (path_error op path confirm_mismatch) else ok tt

-- Where a note goes that is deleted at the time `stamp`.
unfoldable pub trash_path : Bytes → Bytes → Bytes → Bytes
unfolding join_paths
trash_path root stamp cleaned =
    join_paths (root ∷ internal_state_dir ∷ codes "trash" ∷ stamp ∷ cleaned ∷ [])

module _ (os : Os) (v : Service) where
  open os use {State, mkdir_all, rename, remove_file}

  remove_note : Bytes → Bytes → Exec State PathError (Unit {0})
  remove_note path abs_path = os_call delete path (missing_is not_found) (remove_file abs_path)

  move_to_trash : Bytes → Bytes → Bytes → Exec State PathError (Unit {0})
  move_to_trash path abs_path trashed = do
    os_call delete path os_fault (mkdir_all (dir trashed))
    os_call delete path (missing_is not_found) (rename abs_path trashed)

  delete_checked : Bool → Bytes → Bytes → Bytes → Exec State PathError (Unit {0})
  unfolding remove_note move_to_trash
  delete_checked true path abs_path trashed = remove_note path abs_path
  delete_checked false path abs_path trashed = move_to_trash path abs_path trashed

  -- DeleteNote; `stamp` is the result of trashTimestamp.
  unfoldable pub delete_note :
      Bytes → Bool → Bytes → Bytes → Bool → Bytes → Exec State PathError (Unit {0})
  unfolding check_confirm trash_path delete_checked
  delete_note stamp is_cancelled path confirm permanent condition = do
    asks (λ _. check_context delete path is_cancelled)
    asks (λ _. check_confirm delete path confirm)
    target ← asks (λ _. sanitize os v delete path)
    asks (check_symlinks_for_write os v delete path target.1)
    asks (read_if_conditional os v delete path target.1 condition not_found)
    delete_checked permanent path target.1 (trash_path v.root stamp target.0)

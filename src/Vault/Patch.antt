-- ===== src/Vault/Patch.antt =====
-- internal/vault/mutators.go: PatchNote on a note of the disk. What it does to the lines is in Headings.
pub mod Effect
use obsidian_mcp_server.Prelude.{ℕ, ◌≡◌, Bool, List, [], ◌∷◌}
use obsidian_mcp_server.Prelude.Exec.{Exec, Result, ok, err, asks, ◌>>=◌, ◌>>◌}
use obsidian_mcp_server.Strings.{Bytes, codes, split, join}
use obsidian_mcp_server.Vault.Errors.{Fault, not_found, os_fault, PathError}
use obsidian_mcp_server.Vault.Errors as Errors
use obsidian_mcp_server.Vault.Headings.{
  Position, PatchError, heading_not_found, unknown_position, patch_lines, split_lines,
}
use obsidian_mcp_server.Vault.Os.{Os}
use obsidian_mcp_server.Vault.Guards.{
  Service, path_error, os_call, check_context, sanitize, check_symlinks_for_write, read_matched,
}

abbrev pub patch : Bytes
patch = codes "patch"

pub record PatchOp : Type 0 where
  pub heading : Bytes
  pub position : Position
  pub content : Bytes

abbrev fault_of : PatchError → Fault
fault_of heading_not_found = Errors.heading_not_found
fault_of unknown_position = Errors.unknown_position

abbrev joined_lines : Bytes → Result PatchError (List Bytes) → Result PathError Bytes
joined_lines path (ok lines) = ok (join b'\n' lines)
joined_lines path (err e) = err (path_error patch path (fault_of e))

-- The text of the patched note.
unfoldable pub patched_text : Bytes → PatchOp → Bytes → Result PathError Bytes
patched_text path p data' =
    joined_lines path (patch_lines p.heading p.position (split_lines p.content) (split b'\n' data'))

module _ (os : Os) (v : Service) where
  open os use {State, write_file}

  -- PatchNote
  unfoldable pub patch_note : Bool → Bytes → PatchOp → Bytes → Exec State PathError (Unit {0})
  unfolding patched_text
  patch_note is_cancelled path p condition = do
    asks (λ _. check_context patch path is_cancelled)
    target ← asks (λ _. sanitize os v patch path)
    asks (check_symlinks_for_write os v patch path target.1)
    data' ← asks (read_matched os v patch path target.1 condition not_found)
    combined ← asks (λ _. patched_text path p data')
    os_call patch path os_fault (write_file target.1 combined)

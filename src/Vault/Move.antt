-- ===== src/Vault/Move.antt =====
-- internal/vault/mutators.go: MoveNote up to the rewriting of links, which is in
-- Links/Rewrite/Notes, and moveFileLocked.
pub mod Arrival
use obsidian_mcp_server.Prelude.{ℕ, ◌≡◌, Bool, true, false, not, List, [], ◌∷◌, if◌then◌else◌}
use obsidian_mcp_server.Prelude.Exec.{Exec, Result, ok, err, pure, fail, asks, ◌>>=◌, ◌>>◌}
use obsidian_mcp_server.Strings.{Bytes, codes, eq_bytes}
use obsidian_mcp_server.Vault.Errors.{
  OsError, Fault, already_exists, not_found, os_fault, PathError,
}
use obsidian_mcp_server.Vault.FilePath.{dir}
use obsidian_mcp_server.Vault.Os.{Os}
use obsidian_mcp_server.Vault.Delete.{check_confirm}
use obsidian_mcp_server.Vault.Guards.{
  Service, path_error, os_call, missing_is, check_context, sanitize, check_symlinks_for_write,
  exists_strict, read_if_conditional,
}

abbrev pub move : Bytes
move = codes "move"

-- The result, less the links.
pub record MoveResult : Type 0 where
  pub src : Bytes
  pub dst : Bytes
  pub moved : Bool

module _ (os : Os) (v : Service) where
  open os use {State, stat, mkdir_all, rename}

  abbrev free : Bytes → Result OsError (Unit {0}) → Result PathError (Unit {0})
  free dst (ok _) = err (path_error move dst already_exists)
  free dst (err _) = ok tt

  -- os.Stat of the destination must fail.
  unfoldable pub check_absent : Bytes → Bytes → State → Result PathError (Unit {0})
  check_absent dst dst_abs s = free dst (stat dst_abs s)

  -- moveFileLocked
  unfoldable pub move_file_locked :
      Bytes → Bytes → Bytes → Bytes → Bytes → Exec State PathError (Unit {0})
  unfolding check_absent
  move_file_locked src src_abs dst dst_abs condition = do
    asks (check_absent dst dst_abs)
    asks (check_symlinks_for_write os v move src src_abs)
    asks (check_symlinks_for_write os v move dst dst_abs)
    asks (read_if_conditional os v move src src_abs condition not_found)
    os_call move dst os_fault (mkdir_all (dir dst_abs))
    os_call move src (missing_is not_found) (rename src_abs dst_abs)

  -- The branch of a dry run, which only looks.
  preview : Bytes → Bytes → Bytes → Bytes → Exec State PathError (Unit {0})
  unfolding check_absent
  preview src src_abs dst dst_abs = do
    asks (check_absent dst dst_abs)
    asks (exists_strict os v move src src_abs)

  move_or_preview : Bool → Bytes → Bytes → Bytes → Bytes → Bytes → Exec State PathError (Unit {0})
  unfolding preview move_file_locked
  move_or_preview true src src_abs dst dst_abs condition = preview src src_abs dst dst_abs
  move_or_preview false src src_abs dst dst_abs condition =
      move_file_locked src src_abs dst dst_abs condition

  -- MoveNote up to the rewriting of links.
  unfoldable pub move_note :
      Bool → Bytes → Bytes → Bytes → Bool → Bytes → Exec State PathError MoveResult
  unfolding move_or_preview
  move_note is_cancelled src dst confirm dry_run condition = do
    asks (λ _. check_context move src is_cancelled)
    asks (λ _. check_confirm move src confirm)
    source ← asks (λ _. sanitize os v move src)
    target ← asks (λ _. sanitize os v move dst)
    move_or_preview dry_run src source.1 dst target.1 condition
    pure (record { src = src; dst = dst; moved = not dry_run })

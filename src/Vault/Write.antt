-- ===== src/Vault/Write.antt =====
-- internal/vault/vault.go: WriteNote.
pub mod Effect
pub mod Conflicts
use obsidian_mcp_server.Prelude.{ℕ, ◌≡◌, Bool, List, [], ◌∷◌, ◌++◌, if◌then◌else◌, ltb, length}
use obsidian_mcp_server.Prelude.Exec.{Exec, Result, ok, err, pure, fail, asks, ◌>>=◌, ◌>>◌}
use obsidian_mcp_server.Strings.{Bytes, codes}
use obsidian_mcp_server.Vault.Errors.{
  OsError, Fault, file_too_large, revision_conflict, unknown_write_mode, os_fault, PathError,
}
use obsidian_mcp_server.Vault.FilePath.{dir}
use obsidian_mcp_server.Vault.Os.{Os, OpenFile}
use obsidian_mcp_server.Vault.Guards.{
  Service, max_file_size_bytes, path_error, os_call, check_context, sanitize,
  check_symlinks_for_write, read_if_conditional,
}

-- WriteMode, a string of the source; `unknown_mode` is any other string.
pub data WriteMode : Type 0 where
  overwrite append prepend : WriteMode
  unknown_mode : Bytes → WriteMode

abbrev pub write : Bytes
write = codes "write"

-- A text that is to be stored is at most maxFileSizeBytes long.
unfoldable pub check_size : Bytes → Bytes → Result PathError (Unit {0})
check_size path text =
    if ltb max_file_size_bytes (length text)
    then err (path_error write path file_too_large)
    else ok tt

module _ (os : Os) (v : Service) where
  open os use {State, open_file, mkdir_all, write_file}

  abbrev contents : Result OsError OpenFile → Bytes
  contents (err e) = []
  contents (ok f) = elim f.content [ ok d ↦ d | err e ↦ [] ]

  -- readExistingOrEmpty
  unfoldable pub read_existing_or_empty : Bytes → State → Bytes
  read_existing_or_empty abs_path s = contents (open_file abs_path s)

  -- With a condition the note was read already; without one it is read here.
  unfoldable pub existing_text : Bytes → Bytes → Bytes → State → Bytes
  unfolding read_existing_or_empty
  existing_text abs_path [] matched s = read_existing_or_empty abs_path s
  existing_text abs_path (c ∷ condition) matched s = matched

  make_parent : Bytes → Bytes → Exec State PathError (Unit {0})
  make_parent path abs_path = os_call write path os_fault (mkdir_all (dir abs_path))

  store : Bytes → Bytes → Bytes → Exec State PathError (Unit {0})
  store path abs_path text = os_call write path os_fault (write_file abs_path text)

  store_combined : Bytes → Bytes → Bytes → Exec State PathError (Unit {0})
  unfolding make_parent store
  store_combined path abs_path combined = do
    make_parent path abs_path
    asks (λ _. check_size path combined)
    store path abs_path combined

  -- The switch over the mode.
  unfoldable pub write_in_mode :
      WriteMode → Bytes → Bytes → Bytes → Bytes → Bytes → Exec State PathError (Unit {0})
  unfolding make_parent store store_combined
  write_in_mode overwrite path abs_path content condition matched = do
    make_parent path abs_path
    store path abs_path content
  write_in_mode append path abs_path content condition matched = do
    existing ← asks (λ s. ok (existing_text abs_path condition matched s))
    store_combined path abs_path (existing ++ content)
  write_in_mode prepend path abs_path content condition matched = do
    existing ← asks (λ s. ok (existing_text abs_path condition matched s))
    store_combined path abs_path (content ++ existing)
  write_in_mode (unknown_mode m) path abs_path content condition matched =
      fail (path_error write path unknown_write_mode)

  -- WriteNote; the context's state and the condition are arguments.
  unfoldable pub write_note :
      Bool → Bytes → Bytes → WriteMode → Bytes → Exec State PathError (Unit {0})
  unfolding check_size write_in_mode
  write_note is_cancelled path content mode condition = do
    asks (λ _. check_context write path is_cancelled)
    asks (λ _. check_size path content)
    target ← asks (λ _. sanitize os v write path)
    asks (check_symlinks_for_write os v write path target.1)
    matched ← asks (read_if_conditional os v write path target.1 condition revision_conflict)
    write_in_mode mode path target.1 content condition matched

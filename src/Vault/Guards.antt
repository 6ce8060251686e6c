-- ===== src/Vault/Guards.antt =====
-- internal/vault/vault.go and etag.go: the checks that the operations share. They look at the state
-- and never change it.
pub mod Facts
pub mod Refusals
use obsidian_mcp_server.Prelude.{
  ℕ, ◌*◌, ◌^◌, ◌≡◌, Bool, true, false, not, Option, none, some, List, [], ◌∷◌, ◌++◌, if◌then◌else◌,
  ltb, length,
}
use obsidian_mcp_server.Prelude.Exec.{Exec, Result, ok, err, pure, fail, asks, ◌>>=◌, ◌>>◌}
use obsidian_mcp_server.Strings.{Bytes, codes, eq_bytes}
use obsidian_mcp_server.Http.Session.{hex_encode}
use obsidian_mcp_server.Vault.Errors.{
  OsError, not_exist, Fault, symlink_escape, not_found, file_too_large, revision_conflict, os_fault,
  cancelled, PathError,
}
use obsidian_mcp_server.Vault.FilePath.{dir}
use obsidian_mcp_server.Vault.Os.{Os, OpenFile}
use obsidian_mcp_server.Vault.PathFilter.{PathFilter}
use obsidian_mcp_server.Vault.Sanitize.{is_under_root, sanitize_path}

abbrev pub max_file_size_bytes : ℕ
max_file_size_bytes = 16 * 1024 * 1024

-- The vault's Service: its root and its filter. The mutex is the order of the calls. `sha256` is
-- the digest of crypto/sha256.
pub record Service : Type 0 where
  pub root : Bytes
  pub filter : Option PathFilter
  pub sha256 : Bytes → Bytes

abbrev pub path_error : Bytes → Bytes → Fault → PathError
path_error op path fault = record { op = op; path = path; fault = fault }

abbrev pub with_path {ℓ} : {A : Type ℓ} → Bytes → Bytes → Result Fault A → Result PathError A
with_path op path (ok a) = ok a
with_path op path (err f) = err (path_error op path f)

abbrev pub wrapped {ℓ} : {A : Type ℓ} → (OsError → Fault) → Result OsError A → Result Fault A
wrapped g (ok a) = ok a
wrapped g (err e) = err (g e)

-- A call of the system whose error is wrapped in a PathError.
abbrev pub os_call :
    {S A : Type 0} → Bytes → Bytes → (OsError → Fault) → Exec S OsError A → Exec S PathError A
os_call op path g m s = (with_path op path (wrapped g (m s).0), (m s).1)

-- `os.IsNotExist(err)` becomes ErrNotFound; another error is passed on.
abbrev pub missing_is : Fault → OsError → Fault
missing_is f not_exist = f
missing_is f e = os_fault e

-- Etag
unfoldable pub etag : Service → Bytes → Bytes
etag v data' = hex_encode (v.sha256 data')

-- checkIfMatch; the empty condition is none.
unfoldable pub check_if_match :
    Service → Bytes → Bytes → Bytes → Bytes → Result PathError (Unit {0})
check_if_match v op path data' [] = ok tt
check_if_match v op path data' (c ∷ condition) =
    if not (eq_bytes (etag v data') (c ∷ condition))
    then err (path_error op path revision_conflict)
    else ok tt

-- The context of a call: whether it is cancelled.
abbrev pub check_context : Bytes → Bytes → Bool → Result PathError (Unit {0})
check_context op path true = err (path_error op path cancelled)
check_context op path false = ok tt

module _ (os : Os) (v : Service) where
  open os use {State, stat, is_symlink, eval_symlinks, open_file}

  abbrev pub sanitize : Bytes → Bytes → Result PathError (Bytes × Bytes)
  sanitize op path = with_path op path (sanitize_path v.root v.filter path)

  inside : Bytes → Bytes → Result OsError Bytes → Result PathError Bytes
  inside op path (err e) = err (path_error op path (os_fault e))
  inside op path (ok resolved) =
      if not (is_under_root v.root resolved)
      then err (path_error op path symlink_escape)
      else ok resolved

  -- resolveSymlink
  unfoldable pub resolve_symlink : Bytes → Bytes → Bytes → State → Result PathError Bytes
  unfolding inside
  resolve_symlink op path abs_path s = inside op path (eval_symlinks abs_path s)

  abbrev pub checked_parent : Result PathError Bytes → Result PathError (Unit {0})
  checked_parent (ok _) = ok tt
  checked_parent (err e) = err e

  parent_inside :
      Bytes → Bytes → Bytes → State → Result OsError (Unit {0}) → Result PathError (Unit {0})
  parent_inside op path parent s (err e) = ok tt
  parent_inside op path parent s (ok _) = checked_parent (resolve_symlink op path parent s)

  itself_inside : Bytes → Bytes → Bytes → State → Result PathError (Unit {0})
  itself_inside op path abs_path s =
      if is_symlink abs_path s then checked_parent (resolve_symlink op path abs_path s) else ok tt

  abbrev pub and_then :
      Result PathError (Unit {0}) → Result PathError (Unit {0}) → Result PathError (Unit {0})
  and_then (ok _) r = r
  and_then (err e) r = err e

  -- checkSymlinksForWrite
  unfoldable pub check_symlinks_for_write :
      Bytes → Bytes → Bytes → State → Result PathError (Unit {0})
  unfolding parent_inside itself_inside
  check_symlinks_for_write op path abs_path s =
      and_then (parent_inside op path (dir abs_path) s (stat (dir abs_path) s))
        (itself_inside op path abs_path s)

  -- existsStrict
  unfoldable pub exists_strict : Bytes → Bytes → Bytes → State → Result PathError (Unit {0})
  exists_strict op path abs_path s =
      with_path op path (wrapped (missing_is not_found) (stat abs_path s))

  read_open : Result OsError OpenFile → Result Fault Bytes
  read_open (err e) = err (os_fault e)
  read_open (ok f) =
      if ltb max_file_size_bytes f.size then err file_too_large else wrapped os_fault f.content

  -- readNoteBytes, less the file's metadata
  unfoldable pub read_note_bytes : Bytes → State → Result Fault Bytes
  unfolding read_open
  read_note_bytes abs_path s = read_open (open_file abs_path s)

  -- The fault of a read where a missing file is `f`.
  abbrev pub read_missing : Fault → Fault → Fault
  read_missing f (os_fault not_exist) = f
  read_missing f g = g

  abbrev pub matched_data :
      Bytes → Bytes → Bytes → Fault → Result Fault Bytes → Result PathError Bytes
  matched_data op path condition missing (err f) = err (path_error op path (read_missing missing f))
  matched_data op path condition missing (ok data') =
      elim (check_if_match v op path data' condition) [ ok _ ↦ ok data' | err e ↦ err e ]

  -- Reading a note and comparing it with the condition of the call.
  unfoldable pub read_matched :
      Bytes → Bytes → Bytes → Bytes → Fault → State → Result PathError Bytes
  unfolding check_if_match
  read_matched op path abs_path condition missing s =
      matched_data op path condition missing (read_note_bytes abs_path s)

  -- The same, for the operations that read only where a condition is given.
  unfoldable pub read_if_conditional :
      Bytes → Bytes → Bytes → Bytes → Fault → State → Result PathError Bytes
  unfolding read_matched
  read_if_conditional op path abs_path [] missing s = ok []
  read_if_conditional op path abs_path (c ∷ condition) missing s =
      read_matched op path abs_path (c ∷ condition) missing s

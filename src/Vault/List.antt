-- ===== src/Vault/List.antt =====
-- internal/vault/vault.go: ListDirectory.
pub mod Visible
mod Tests
use obsidian_mcp_server.Prelude.{
  ℕ, ◌+◌, ◌≡◌, Bool, true, false, not, ◌&&◌, ◌||◌, Option, none, some, List, [], ◌∷◌, if◌then◌else◌,
}
use obsidian_mcp_server.Prelude.Exec.{Exec, Result, ok, err, pure, asks, ◌>>=◌, ◌>>◌}
use obsidian_mcp_server.Strings.{Bytes, codes}
use obsidian_mcp_server.Vault.Errors.{OsError, Fault, os_fault, cancelled, PathError}
use obsidian_mcp_server.Vault.FilePath.{join_path}
use obsidian_mcp_server.Vault.Os.{Os, Entry}
use obsidian_mcp_server.Vault.PathFilter.{is_internal_state, is_ignored, PathFilter}
use obsidian_mcp_server.Vault.Guards.{
  Service, path_error, with_path, wrapped, check_context, sanitize, exists_strict, resolve_symlink,
}

abbrev pub list : Bytes
list = codes "list"

-- DirEntry, less the size and the time.
pub record DirEntry : Type 0 where
  pub name : Bytes
  pub path : Bytes
  pub is_dir : Bool

-- The path of an entry from the root of the vault.
unfoldable pub relative_path : Bytes → Bytes → Bytes
relative_path [] name = name
relative_path (x ∷ path) name = join_path (x ∷ path) name

abbrev ignored : Option PathFilter → Bytes → Bool
ignored none path = false
ignored (some f) path = is_ignored f path

-- An entry that is passed over: the server's own, or one that the filter ignores.
unfoldable pub is_hidden : Option PathFilter → Bytes → Bool
is_hidden filter path = is_internal_state path || ignored filter path

abbrev pub dir_entry : Bytes → Entry → DirEntry
dir_entry path entry = record {
  name = entry.name;
  path = relative_path path entry.name;
  is_dir = entry.is_dir;
}

abbrev found_too {ℓ} : {E : Type 0} {A : Type ℓ} → A → Result E (List A) → Result E (List A)
found_too a (ok rest) = ok (a ∷ rest)
found_too a (err e) = err e

-- The loop over the entries; `is_cancelled i` is the state of the context at its i-th check.
unfoldable pub list_entries :
    Option PathFilter → (ℕ → Bool) → ℕ → Bytes → List Entry → Result PathError (List DirEntry)
unfolding is_hidden
list_entries filter is_cancelled i path [] = ok []
list_entries filter is_cancelled i path (entry ∷ entries) =
    let rest = list_entries filter is_cancelled (i + 1) path entries in
    if is_cancelled i
    then err (path_error list path cancelled)
    else if is_hidden filter (relative_path path entry.name) || not entry.has_info
    then rest
    else found_too (dir_entry path entry) rest

module _ (os : Os) (v : Service) where
  open os use {State, read_dir}

  -- The directory on disk: the root, or a place that exists below it, with symbolic links followed.
  unfoldable pub directory : Bytes → Exec State PathError Bytes
  directory [] = pure v.root
  directory (x ∷ path) = do
    target ← asks (λ _. sanitize os v list (x ∷ path))
    asks (exists_strict os v list (x ∷ path) target.1)
    asks (resolve_symlink os v list (x ∷ path) target.1)

  -- ListDirectory
  unfoldable pub list_directory : (ℕ → Bool) → Bytes → Exec State PathError (List DirEntry)
  unfolding directory list_entries
  list_directory is_cancelled path = do
    asks (λ _. check_context list path (is_cancelled 0))
    abs_path ← directory path
    entries ← asks (λ s. with_path list path (wrapped os_fault (read_dir abs_path s)))
    asks (λ _. list_entries v.filter is_cancelled 1 path entries)

-- ===== src/Vault/Read.antt =====
-- internal/vault/vault.go and outline.go: the operations that read, ResolvePath, ReadNote,
-- GetNoteOutline and ReadNoteLines.
pub mod Resolved
use obsidian_mcp_server.Prelude.{
  ℕ, ◌≡◌, Bool, true, false, not, ◌&&◌, Option, none, some, List, [], ◌∷◌, if◌then◌else◌,
}
use obsidian_mcp_server.Prelude.Exec.{Exec, Result, ok, err, pure, asks, ◌>>=◌, ◌>>◌}
use obsidian_mcp_server.Prelude.Int.{ℤ}
use obsidian_mcp_server.Strings.{Bytes, codes, eq_bytes, split}
use obsidian_mcp_server.Vault.Errors.{
  panicked, OsError, not_exist, other, Fault, not_found, ambiguous_path, path_restricted, os_fault,
  PathError,
}
use obsidian_mcp_server.Vault.FilePath.{dir, base, ext, join_path}
use obsidian_mcp_server.Vault.Headings.{HeadingInfo, outline, NoteLines, read_note_lines}
use obsidian_mcp_server.Vault.Os.{Os, Entry}
use obsidian_mcp_server.Vault.PathFilter.{PathFilter, is_allowed_extension}
use obsidian_mcp_server.Vault.Guards.{
  Service, path_error, check_context, sanitize, resolve_symlink, etag, read_note_bytes,
  read_missing,
}

abbrev pub resolve : Bytes
resolve = codes "resolve"

-- Note, less the size and the time of the file.
pub record Note : Type 0 where
  pub path : Bytes
  pub abs_path : Bytes
  pub content : Bytes
  pub note_etag : Bytes

-- The entries of a directory whose names differ from `name` in the case of letters at most.
unfoldable pub case_matches : (Bytes → Bytes) → Bytes → Bytes → List Entry → List Bytes
case_matches to_lower parent name [] = []
case_matches to_lower parent name (entry ∷ entries) =
    let rest = case_matches to_lower parent name entries in
    if eq_bytes (to_lower entry.name) (to_lower name)
    then join_path parent entry.name ∷ rest
    else rest

abbrev only : Bytes → List Bytes → Result PathError Bytes
only path [] = err (path_error resolve path not_found)
only path (m ∷ []) = ok m
only path (m ∷ n ∷ ms) = err (path_error resolve path ambiguous_path)

module _ (to_lower : Bytes → Bytes) (os : Os) (v : Service) where
  open os use {State, stat, read_dir}

  abbrev among : Bytes → Bytes → Result OsError (List Entry) → Result PathError Bytes
  among path abs_path (err e) = err (path_error resolve path not_found)
  among path abs_path (ok entries) =
      only path (case_matches to_lower (dir abs_path) (base abs_path) entries)

  abbrev fallback : Bytes → Bytes → State → Result OsError (Unit {0}) → Result PathError Bytes
  fallback path abs_path s (ok _) = ok abs_path
  fallback path abs_path s (err not_exist) = among path abs_path (read_dir (dir abs_path) s)
  fallback path abs_path s (err other) = err (path_error resolve path (os_fault other))

  -- existenceCheck
  unfoldable pub existence_check : Bytes → Bytes → State → Result PathError Bytes
  existence_check path abs_path s = fallback path abs_path s (stat abs_path s)

  abbrev filtered : Option PathFilter → Bytes → Bytes → Result PathError (Unit {0})
  filtered none path cleaned = ok tt
  filtered (some f) path cleaned =
      if not (eq_bytes (ext cleaned) []) && not (is_allowed_extension to_lower f cleaned)
      then err (path_error resolve path path_restricted)
      else ok tt

  -- The check of the extension, for paths that have one.
  unfoldable pub check_extension : Bytes → Bytes → Result PathError (Unit {0})
  check_extension path cleaned = filtered v.filter path cleaned

  -- ResolvePath
  unfoldable pub resolve_path : Bytes → Exec State PathError Bytes
  unfolding check_extension existence_check
  resolve_path path = do
    target ← asks (λ _. sanitize os v resolve path)
    asks (λ _. check_extension path target.0)
    found ← asks (existence_check path target.1)
    asks (resolve_symlink os v resolve path found)

  abbrev data_or_fault : Bytes → Bytes → Result Fault Bytes → Result PathError Bytes
  data_or_fault op path (ok data') = ok data'
  data_or_fault op path (err f) = err (path_error op path (read_missing os v not_found f))

  abbrev raw_or_fault : Bytes → Result Fault Bytes → Result PathError Bytes
  raw_or_fault path (ok data') = ok data'
  raw_or_fault path (err f) = err (path_error (codes "read") path f)

  -- ReadNote
  unfoldable pub read_note : Bool → Bytes → Exec State PathError Note
  unfolding resolve_path
  read_note is_cancelled path = do
    asks (λ _. check_context (codes "read") path is_cancelled)
    abs_path ← resolve_path path
    data' ← asks (λ s. raw_or_fault path (read_note_bytes os v abs_path s))
    pure (record { path = path; abs_path = abs_path; content = data'; note_etag = etag v data' })

  -- GetNoteOutline
  unfoldable pub get_note_outline : Bool → Bytes → Exec State PathError (List HeadingInfo)
  unfolding resolve_path
  get_note_outline is_cancelled path = do
    asks (λ _. check_context (codes "outline") path is_cancelled)
    abs_path ← resolve_path path
    data' ← asks (λ s. data_or_fault (codes "outline") path (read_note_bytes os v abs_path s))
    pure (outline (split b'\n' data'))

  abbrev or_panic : Bytes → Option NoteLines → Result PathError NoteLines
  or_panic path none = err (path_error (codes "read-lines") path panicked)
  or_panic path (some lines) = ok lines

  -- ReadNoteLines
  unfoldable pub read_lines : Bool → Bytes → ℤ → ℤ → Exec State PathError NoteLines
  unfolding resolve_path
  read_lines is_cancelled path start_line line_count = do
    asks (λ _. check_context (codes "read-lines") path is_cancelled)
    abs_path ← resolve_path path
    data' ← asks (λ s. data_or_fault (codes "read-lines") path (read_note_bytes os v abs_path s))
    asks (λ _. or_panic path (read_note_lines start_line line_count (split b'\n' data')))

-- ===== src/Vault/Os.antt =====
-- The operating system as the vault uses it: the calls of Go's package os that internal/vault makes,
-- over a state that they read and change. The system is outside the repository, so it is a
-- parameter of every operation.
use obsidian_mcp_server.Prelude.{ℕ, ◌≡◌, Bool, length, List}
use obsidian_mcp_server.Prelude.Exec.{Exec, Result, ok}
use obsidian_mcp_server.Strings.{Bytes}
use obsidian_mcp_server.Vault.Errors.{OsError}

-- A file that os.Open opened: its size by Stat, and what io.ReadAll gives.
pub record OpenFile : Type 0 where
  pub size : ℕ
  pub content : Result OsError Bytes

-- An entry of a directory: its name, whether it is a directory itself, and whether Info succeeds.
pub record Entry : Type 0 where
  pub name : Bytes
  pub is_dir : Bool
  pub has_info : Bool

pub record Os : Type 1 where
  pub State : Type 0
  -- os.Stat(path) gives no error, or the error.
  pub stat : Bytes → State → Result OsError (Unit {0})
  -- os.Lstat(path) succeeds and says that it is a symbolic link.
  pub is_symlink : Bytes → State → Bool
  -- filepath.EvalSymlinks
  pub eval_symlinks : Bytes → State → Result OsError Bytes
  -- os.Open and Stat on the open file
  pub open_file : Bytes → State → Result OsError OpenFile
  -- os.ReadDir
  pub read_dir : Bytes → State → Result OsError (List Entry)
  pub mkdir_all : Bytes → Exec State OsError (Unit {0})
  pub write_file : Bytes → Bytes → Exec State OsError (Unit {0})
  pub rename : Bytes → Bytes → Exec State OsError (Unit {0})
  pub remove_file : Bytes → Exec State OsError (Unit {0})
  -- os.RemoveAll
  pub remove_all : Bytes → Exec State OsError (Unit {0})

-- What a written file holds.
abbrev pub stored : Bytes → OpenFile
stored d = record { size = length d; content = ok d }

-- Documented behaviour that some theorems rely on: a successful WriteFile stores the bytes. Of a failed
-- call nothing is assumed.
pub record IsReliable (os : Os) : Type 0 where
  pub write_then_open :
      (p d : Bytes) (s s' : os.State)
      → os.write_file p d s ≡ (ok tt, s')
      → os.open_file p s' ≡ ok (stored d)

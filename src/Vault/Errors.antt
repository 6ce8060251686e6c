-- ===== src/Vault/Errors.antt =====
-- internal/vault/errors.go: the errors of the vault's operations.
use obsidian_mcp_server.Strings.{Bytes}

-- What a call of the operating system fails with.
pub data OsError : Type 0 where
  not_exist other : OsError

-- The sentinel errors, and the other errors that a PathError wraps; `panicked` is no error of the source,
-- but a call that ends in a panic.
pub data Fault : Type 0 where
  path_traversal symlink_escape not_found confirm_mismatch already_exists ambiguous_path : Fault
  path_restricted invalid_frontmatter heading_not_found file_too_large revision_conflict : Fault
  os_fault : OsError → Fault
  cancelled unknown_write_mode unknown_position invalid_location invalid_regex marshal_failed
        encode_failed empty_tag panicked scan_failed :
      Fault

pub record PathError : Type 0 where
  pub op : Bytes
  pub path : Bytes
  pub fault : Fault

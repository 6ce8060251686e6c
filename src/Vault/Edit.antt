-- ===== src/Vault/Edit.antt =====
-- What UpdateFrontmatter, AddTag and RemoveTag of internal/vault (frontmatter.go, tags.go) share: they
-- read an existing note, make its new text, and write that.
pub mod Effect
use obsidian_mcp_server.Prelude.{
  ℕ, Bool, true, false, not, ◌&&◌, Option, none, some, List, [], ◌∷◌, ◌++◌,
}
use obsidian_mcp_server.Prelude.Exec.{Exec, Result, ok, err, pure, asks, bind, ◌>>=◌, ◌>>◌}
use obsidian_mcp_server.Strings.{Bytes, codes, eq_bytes}
use obsidian_mcp_server.Vault.Errors.{
  Fault, invalid_frontmatter, marshal_failed, os_fault, PathError,
}
use obsidian_mcp_server.Vault.Frontmatter.{opening, split_frontmatter}
use obsidian_mcp_server.Vault.Os.{Os}
use obsidian_mcp_server.Vault.Yaml.{Yaml, mapping_of, empty_mapping}
use obsidian_mcp_server.Vault.Guards.{
  Service, with_path, os_call, check_if_match, sanitize, check_symlinks_for_write, exists_strict,
  read_note_bytes,
}

-- The text of a note that is put together again.
abbrev pub assemble : Bytes → Bytes → Bytes
assemble raw body = opening ++ (raw ++ (opening ++ body))

module _ (y : Yaml) where
  open y use {unmarshal, marshal}

  abbrev pub mapping_in : Option y.Node → Result Fault (Option y.Node)
  mapping_in none = err invalid_frontmatter
  mapping_in (some doc) = ok (mapping_of y doc)

  -- The mapping of the frontmatter, where there is one.
  unfoldable pub read_mapping : Bool → Bytes → Result Fault (Option y.Node)
  read_mapping true raw = mapping_in (unmarshal raw)
  read_mapping false raw = ok none

  abbrev pub or_empty_mapping : Option y.Node → y.Node
  or_empty_mapping none = empty_mapping y
  or_empty_mapping (some m) = m

  abbrev pub marshaled : Option Bytes → Result Fault Bytes
  marshaled none = err marshal_failed
  marshaled (some out) = ok out

  -- A note whose frontmatter is written anew.
  unfoldable pub with_mapping : y.Node → Bytes → Result Fault Bytes
  with_mapping m body = bind (marshaled (marshal m)) (λ out. ok (assemble out body))

module _ (os : Os) (v : Service) where
  open os use {State, write_file}

  -- The text is stored, or it is left where it is to be kept.
  abbrev pub store_unless : Bool → Bytes → Bytes → Bytes → Bytes → Exec State PathError (Unit {0})
  store_unless true op path abs_path text = pure tt
  store_unless false op path abs_path text = os_call op path os_fault (write_file abs_path text)

  -- The checks, the read, the change `f`, and the write; with `skip_same` an unchanged text is not
  -- written.
  unfoldable pub edit_note :
      Bytes → Bytes → Bytes → Bool → (Bytes → Result Fault Bytes) → Exec State PathError (Unit {0})
  edit_note op path condition skip_same f = do
    target ← asks (λ _. sanitize os v op path)
    asks (exists_strict os v op path target.1)
    asks (check_symlinks_for_write os v op path target.1)
    data' ← asks (λ s. with_path op path (read_note_bytes os v target.1 s))
    asks (λ _. check_if_match v op path data' condition)
    text ← asks (λ _. with_path op path (f data'))
    store_unless (skip_same && eq_bytes text data') op path target.1 text

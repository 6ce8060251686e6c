-- ===== src/Vault/Disk.antt =====
-- Files in memory: a system on which the operations of internal/vault can be run. It stands for no
-- code; every directory is there, nothing is a symbolic link, and no call fails but for a missing file.
use obsidian_mcp_server.Prelude.{
  true, false, ◌≡◌, sym, ap, ◌∙◌, false, Option, none, some, List, [], ◌∷◌, ◌++◌, ◌||◌,
  if◌then◌else◌,
}
use obsidian_mcp_server.Prelude.Exec.{Result, ok, err}
use obsidian_mcp_server.Strings.{Bytes, codes, eq_bytes, eq_bytes_refl, has_prefix}
use obsidian_mcp_server.Vault.Errors.{OsError, not_exist}
use obsidian_mcp_server.Vault.FilePath.{dir, base}
use obsidian_mcp_server.Vault.Guards.{Service}
use obsidian_mcp_server.Vault.Os.{Os, Entry, OpenFile, IsReliable, stored}

abbrev pub Files : Type 0
Files = List (Bytes × Bytes)

unfoldable pub lookup : Bytes → Files → Option Bytes
lookup p [] = none
lookup p (f ∷ fs) = let rest = lookup p fs in if eq_bytes f.0 p then some f.1 else rest

unfoldable pub without : Bytes → Files → Files
without p [] = []
without p (f ∷ fs) = let rest = without p fs in if eq_bytes f.0 p then rest else f ∷ rest

unfoldable pub without_all : Bytes → Files → Files
without_all p [] = []
without_all p (f ∷ fs) =
    let rest = without_all p fs in
    if eq_bytes f.0 p || has_prefix f.0 (p ++ b'/' ∷ []) then rest else f ∷ rest

unfoldable pub entries_in : Bytes → Files → List Entry
entries_in p [] = []
entries_in p (f ∷ fs) =
    let rest = entries_in p fs in
    if eq_bytes (dir f.0) p
    then record { name = base f.0; is_dir = false; has_info = true } ∷ rest
    else rest

abbrev opened : Option Bytes → Result OsError OpenFile
opened none = err not_exist
opened (some d) = ok (stored d)

abbrev found : Option Bytes → Result OsError (Unit {0})
found none = err not_exist
found (some d) = ok tt

abbrev renamed : Bytes → Bytes → Option Bytes → Files → Result OsError (Unit {0}) × Files
renamed p q none s = (err not_exist, s)
renamed p q (some d) s = (ok tt, (q, d) ∷ without p s)

abbrev removed : Bytes → Option Bytes → Files → Result OsError (Unit {0}) × Files
removed p none s = (err not_exist, s)
removed p (some d) s = (ok tt, without p s)

abbrev pub memory : Os
memory = record {
  State = Files;
  stat = λ p s. found (lookup p s);
  is_symlink = λ p s. false;
  eval_symlinks = λ p s. ok p;
  open_file = λ p s. opened (lookup p s);
  read_dir = λ p s. ok (entries_in p s);
  mkdir_all = λ p s. (ok tt, s);
  write_file = λ p d s. (ok tt, (p, d) ∷ without p s);
  rename = λ p q s. renamed p q (lookup p s) s;
  remove_file = λ p s. removed p (lookup p s) s;
  remove_all = λ p s. (ok tt, without_all p s);
}

lookup_head : (p d : Bytes) (s : Files) → lookup p ((p, d) ∷ s) ≡ some d
unfolding lookup
lookup_head p d s = rw (eq_bytes_refl p)

pub memory-IsReliable : IsReliable memory
memory-IsReliable = record {
  write_then_open = λ p d s s' h.
      ap (λ f. opened (lookup p f.1)) (sym h) ∙ ap opened (lookup_head p d (without p s));
}

-- A vault at /v; the digest of a text is the text itself.
abbrev pub vault : Service
vault = record { root = codes "/v"; filter = none; sha256 = λ d. d }

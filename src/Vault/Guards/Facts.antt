-- ===== src/Vault/Guards/Facts.antt =====
-- What a success of the shared checks of internal/vault says.
use obsidian_mcp_server.Prelude.{
  Bool, false, if◌then◌else◌, true, refl, ℕ, ◌≤◌, ◌≡◌, [], ◌∷◌, length, arith,
}
use obsidian_mcp_server.Prelude.Exec.{Exec, Result, ok, err}
use obsidian_mcp_server.Strings.{Bytes, eq_bytes_iff}
use obsidian_mcp_server.Vault.Errors.{OsError, Fault, PathError}
use obsidian_mcp_server.Vault.Os.{Os, stored}
use obsidian_mcp_server.Vault.Sanitize.{is_under_root, sanitize_path}
use obsidian_mcp_server.Vault.Guards.{
  Service, max_file_size_bytes, os_call, with_path, wrapped, etag, check_if_match, sanitize,
  read_note_bytes, read_matched, read_if_conditional, matched_data, read_open, inside,
  resolve_symlink, checked_parent, parent_inside, itself_inside, and_then, check_symlinks_for_write,
}
use obsidian_mcp_server.Vault.FilePath.{dir}

outcome_ok :
    {S A : Type 0} (op path : Bytes) (g : OsError → Fault) (o : Result OsError A × S) (a : A)
    (s' : S)
    → ◌≡◌ {A = Result PathError A × S} (with_path op path (wrapped g o.0), o.1) (ok a, s')
    → o ≡ (ok a, s')
outcome_ok op path g (ok b, s) a s' h = cc
outcome_ok op path g (err e, s) a s' h = cc

pub os_call_ok :
    {S A : Type 0} (op path : Bytes) (g : OsError → Fault) (m : Exec S OsError A) (s : S) (a : A)
    (s' : S)
    → os_call op path g m s ≡ (ok a, s')
    → m s ≡ (ok a, s')
os_call_ok op path g m s = outcome_ok op path g (m s)

pub with_path_ok :
    {A : Type 0} (op path : Bytes) (r : Result Fault A) (a : A)
    → with_path op path r ≡ ok a
    → r ≡ ok a
with_path_ok op path (ok b) a h = cc
with_path_ok op path (err e) a h = cc

pub sanitize_ok :
    (os : Os) (v : Service) (op path : Bytes) (t : Bytes × Bytes)
    → sanitize os v op path ≡ ok t
    → sanitize_path v.root v.filter path ≡ ok t
sanitize_ok os v op path = with_path_ok op path (sanitize_path v.root v.filter path)

pub check_if_match_ok :
    (v : Service) (op path data' : Bytes) (c : ℕ) (condition : Bytes)
    → check_if_match v op path data' (c ∷ condition) ≡ ok tt
    → etag v data' ≡ c ∷ condition
unfolding check_if_match
check_if_match_ok v op path data' c condition h =
    ground (arith, eq_bytes_iff (etag v data') (c ∷ condition))

matched_data_ok :
    (os : Os) (v : Service) (op path : Bytes) (c : ℕ) (condition : Bytes) (missing : Fault)
    (r : Result Fault Bytes) (d : Bytes)
    → matched_data os v op path (c ∷ condition) missing r ≡ ok d
    → (r ≡ ok d) × (etag v d ≡ c ∷ condition)
unfolding check_if_match
matched_data_ok os v op path c condition missing (err f) d h = cc
matched_data_ok os v op path c condition missing (ok b) d h =
    ground (arith, eq_bytes_iff (etag v b) (c ∷ condition))

-- A conditional read that succeeds read the file, and what it read has the digest of the condition.
pub read_if_conditional_ok :
    (os : Os) (v : Service) (op path abs_path : Bytes) (c : ℕ) (condition : Bytes) (missing : Fault)
    (s : os.State) (d : Bytes)
    → read_if_conditional os v op path abs_path (c ∷ condition) missing s ≡ ok d
    → (read_note_bytes os v abs_path s ≡ ok d) × (etag v d ≡ c ∷ condition)
unfolding read_if_conditional read_matched
read_if_conditional_ok os v op path abs_path c condition missing s =
    matched_data_ok os v op path c condition missing (read_note_bytes os v abs_path s)

-- The condition of a call holds of the note: the note can be read, and has that digest.
unfoldable pub Matches : (os : Os) (v : Service) → Bytes → Bytes → os.State → Type 0
Matches os v abs_path [] s = Unit
Matches os v abs_path (c ∷ condition) s =
    (d : Bytes) × ((read_note_bytes os v abs_path s ≡ ok d) × (etag v d ≡ c ∷ condition))

pub read_if_conditional-Matches :
    (os : Os) (v : Service) (op path abs_path condition : Bytes) (missing : Fault) (s : os.State)
    (d : Bytes)
    → read_if_conditional os v op path abs_path condition missing s ≡ ok d
    → Matches os v abs_path condition s
unfolding Matches
read_if_conditional-Matches os v op path abs_path [] missing s d h = tt
read_if_conditional-Matches os v op path abs_path (c ∷ condition) missing s d h =
    (d, read_if_conditional_ok os v op path abs_path c condition missing s d h)

matched_data_read :
    (os : Os) (v : Service) (op path : Bytes) (condition : Bytes) (missing : Fault)
    (r : Result Fault Bytes) (d : Bytes)
    → matched_data os v op path condition missing r ≡ ok d
    → r ≡ ok d
unfolding check_if_match
matched_data_read os v op path condition missing (err f) d h = cc
matched_data_read os v op path [] missing (ok b) d h = cc
matched_data_read os v op path (c ∷ condition) missing (ok b) d h =
    (matched_data_ok os v op path c condition missing (ok b) d h).0

pub read_matched_ok :
    (os : Os) (v : Service) (op path abs_path condition : Bytes) (missing : Fault) (s : os.State)
    (d : Bytes)
    → read_matched os v op path abs_path condition missing s ≡ ok d
    → (read_note_bytes os v abs_path s ≡ ok d) × Matches os v abs_path condition s
unfolding read_matched Matches
read_matched_ok os v op path abs_path [] missing s d h =
    (matched_data_read os v op path [] missing (read_note_bytes os v abs_path s) d h, tt)
read_matched_ok os v op path abs_path (c ∷ condition) missing s d h =
    let both =
      matched_data_ok os v op path c condition missing (read_note_bytes os v abs_path s) d h in
    (both.0, (d, both))

-- What a file of an allowed size holds is what is read.
pub read_note_bytes-stored :
    (os : Os) (v : Service) (p d : Bytes) (s : os.State)
    → length d ≤ max_file_size_bytes
    → os.open_file p s ≡ ok (stored d)
    → read_note_bytes os v p s ≡ ok d
unfolding read_note_bytes read_open
read_note_bytes-stored os v p d s b h = ground (arith, h)

inside_ok :
    (os : Os) (v : Service) (op path : Bytes) (r : Result OsError Bytes) (p : Bytes)
    → inside os v op path r ≡ ok p
    → (r ≡ ok p) × (is_under_root v.root p ≡ true)
unfolding inside
inside_ok os v op path (err e) p h = cc
inside_ok os v op path (ok q) p h = ground arith

-- A path that resolves stays below the root when its symbolic links are followed.
pub resolve_symlink_ok :
    (os : Os) (v : Service) (op path abs_path : Bytes) (s : os.State) (p : Bytes)
    → resolve_symlink os v op path abs_path s ≡ ok p
    → (os.eval_symlinks abs_path s ≡ ok p) × (is_under_root v.root p ≡ true)
unfolding resolve_symlink
resolve_symlink_ok os v op path abs_path s = inside_ok os v op path (os.eval_symlinks abs_path s)

-- Where a path leads as far as there is something: its directory, where os.Stat finds one, is below the
-- root when symbolic links are followed, and so is the path itself where it is a symbolic link. Of
-- directories that are yet to be made nothing is said.
pub record LeadsInside (os : Os) (v : Service) (abs_path : Bytes) (s : os.State) : Type 0 where
  pub parent :
      os.stat (dir abs_path) s ≡ ok tt
      → (p : Bytes) × (os.eval_symlinks (dir abs_path) s ≡ ok p) × (is_under_root v.root p ≡ true)
  pub itself :
      os.is_symlink abs_path s ≡ true
      → (p : Bytes) × (os.eval_symlinks abs_path s ≡ ok p) × (is_under_root v.root p ≡ true)

module _ (os : Os) (v : Service) (op path abs_path : Bytes) (s : os.State) where
  checked_parent_ok :
      (q : Bytes) (r : Result PathError Bytes)
      → resolve_symlink os v op path q s ≡ r
      → checked_parent os v r ≡ ok tt
      → (p : Bytes) × (os.eval_symlinks q s ≡ ok p) × (is_under_root v.root p ≡ true)
  checked_parent_ok q (ok p) e h =
      let both = resolve_symlink_ok os v op path q s p e in (p, both.0, both.1)
  checked_parent_ok q (err x) e h = cc

  parent_inside_ok :
      (r : Result OsError (Unit {0}))
      → r ≡ ok tt
      → parent_inside os v op path (dir abs_path) s r ≡ ok tt
      → (p : Bytes) × (os.eval_symlinks (dir abs_path) s ≡ ok p) × (is_under_root v.root p ≡ true)
  unfolding parent_inside
  parent_inside_ok (err x) e h = cc
  parent_inside_ok (ok u) e h =
      checked_parent_ok (dir abs_path) (resolve_symlink os v op path (dir abs_path) s) refl h

  itself_inside_ok :
      itself_inside os v op path abs_path s ≡ ok tt
      → os.is_symlink abs_path s ≡ true
      → (p : Bytes) × (os.eval_symlinks abs_path s ≡ ok p) × (is_under_root v.root p ≡ true)
  unfolding itself_inside
  itself_inside_ok h e =
      checked_parent_ok abs_path (resolve_symlink os v op path abs_path s) refl (by_link _ e h)
    where
      by_link :
          (b : Bool)
          → b ≡ true
          → (if b then checked_parent os v (resolve_symlink os v op path abs_path s) else ok tt)
            ≡ ok tt
          → checked_parent os v (resolve_symlink os v op path abs_path s) ≡ ok tt
      by_link true e h = h
      by_link false e h = cc

  both_ok :
      (r q : Result PathError (Unit {0})) → and_then os v r q ≡ ok tt → (r ≡ ok tt) × (q ≡ ok tt)
  both_ok (ok u) q h = (refl, h)
  both_ok (err e) q h = cc

  pub check_symlinks_for_write-LeadsInside :
      check_symlinks_for_write os v op path abs_path s ≡ ok tt → LeadsInside os v abs_path s
  unfolding check_symlinks_for_write
  check_symlinks_for_write-LeadsInside h =
      let both = both_ok _ _ h in
      record {
        parent = λ e. parent_inside_ok (os.stat (dir abs_path) s) e both.0;
        itself = itself_inside_ok both.1;
      }

met : (v : Service) (op path d c : Bytes) → etag v d ≡ c → check_if_match v op path d c ≡ ok tt
unfolding check_if_match
met v op path d [] h = refl
met v op path d (x ∷ c) h = ground (arith, eq_bytes_iff (etag v d) (x ∷ c))

-- The digest of a text is a condition that the text meets.
pub check_if_match-etag :
    (v : Service) (op path d : Bytes) → check_if_match v op path d (etag v d) ≡ ok tt
check_if_match-etag v op path d = met v op path d (etag v d) refl

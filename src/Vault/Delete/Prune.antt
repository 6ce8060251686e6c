-- ===== src/Vault/Delete/Prune.antt =====
-- internal/vault/mutators.go: PruneTrash. A time is a number of nanoseconds, and `parse` is what
-- time.Parse reads by the layout of the names in the trash.
use obsidian_mcp_server.Prelude.{
  ℕ, suc, ◌+◌, ◌-◌, ◌*◌, ◌%◌, Bool, true, false, ◌&&◌, Option, none, some, List, [], ◌∷◌,
  if◌then◌else◌, ltb,
}
use obsidian_mcp_server.Prelude.Int.{ℤ, pos, negsuc}
use obsidian_mcp_server.Prelude.Exec.{Exec, Result, ok, err, pure, fail, ◌>>=◌}
use obsidian_mcp_server.Strings.{Bytes, codes}
use obsidian_mcp_server.Vault.Errors.{OsError, not_exist, other, os_fault, PathError}
use obsidian_mcp_server.Vault.FilePath.{join_path, join_paths}
use obsidian_mcp_server.Vault.Os.{Os, Entry}
use obsidian_mcp_server.Vault.PathFilter.{internal_state_dir}
use obsidian_mcp_server.Vault.Guards.{Service, path_error}

abbrev pub prune : Bytes
prune = codes "prune-trash"

unfoldable pub trash_root : Bytes → Bytes
unfolding join_paths
trash_root root = join_paths (root ∷ internal_state_dir ∷ codes "trash" ∷ [])

-- 24 * time.Hour
abbrev pub day : ℕ
day = 86400000000000

-- -time.Duration(days) * 24 * time.Hour, as the 64 bits that it wraps around to.
abbrev pub minus_days : ℤ → ℕ
minus_days (pos n) =
    (18446744073709551616 - (n * day) % 18446744073709551616) % 18446744073709551616
minus_days (negsuc n) = (suc n * day) % 18446744073709551616

-- Whether a time is before `now` with a duration of 64 bits added, which is negative from 2 ^ 63 on.
abbrev pub before_cutoff : ℕ → ℕ → ℕ → Bool
before_cutoff now d t =
    if ltb d 9223372036854775808 then ltb t (now + d) else ltb (t + (18446744073709551616 - d)) now

module _ (parse : Bytes → Option ℕ) (now : ℕ) (retention : ℤ) where
  abbrev pub expired : Option ℕ → Bool
  expired none = false
  expired (some t) = before_cutoff now (minus_days retention) t

  -- An entry that is to be removed: a directory whose name is a time before the cutoff.
  unfoldable pub is_expired_entry : Entry → Bool
  is_expired_entry e = e.is_dir && expired (parse e.name)

  module _ (os : Os) (v : Service) where
    open os use {State, read_dir, remove_all}

    -- An error comes with the number of the entries that were removed before it.
    abbrev pub counted :
        ℕ → Bytes → Result OsError (Unit {0}) × State → Result (ℕ × PathError) ℕ × State
    counted removed name (ok u, s) = (ok (suc removed), s)
    counted removed name (err e, s) = (err (removed, path_error prune name (os_fault e)), s)

    abbrev pub remove_entry : ℕ → Bytes → Exec State (ℕ × PathError) ℕ
    remove_entry removed name s =
        counted removed name (remove_all (join_path (trash_root v.root) name) s)

    abbrev pub if_expired :
        Bool → ℕ → Bytes → (ℕ → Exec State (ℕ × PathError) ℕ) → Exec State (ℕ × PathError) ℕ
    if_expired true removed name rest = remove_entry removed name >>= rest
    if_expired false removed name rest = rest removed

    -- The loop over the entries.
    unfoldable pub prune_entries : ℕ → List Entry → Exec State (ℕ × PathError) ℕ
    unfolding is_expired_entry trash_root
    prune_entries removed [] = pure removed
    prune_entries removed (e ∷ es) =
        if_expired (is_expired_entry e) removed e.name (λ n. prune_entries n es)

    abbrev pub prune_listed : Result OsError (List Entry) → Exec State (ℕ × PathError) ℕ
    prune_listed (ok entries) = prune_entries 0 entries
    prune_listed (err not_exist) = pure 0
    prune_listed (err other) = fail (0, path_error prune (trash_root v.root) (os_fault other))

    -- PruneTrash
    unfoldable pub prune_trash : Exec State (ℕ × PathError) ℕ
    unfolding prune_entries
    prune_trash s = prune_listed (read_dir (trash_root v.root) s) s

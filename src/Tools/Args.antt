-- ===== src/Tools/Args.antt =====
-- internal/tools/args.go: limits and batches, and the answer to a failed write.
pub mod Limits
mod Tests
use obsidian_mcp_server.Prelude.{
  ℕ, suc, ◌≡◌, Bool, true, false, ◌&&◌, List, [], ◌∷◌, ◌++◌, if◌then◌else◌, ltb, length, take,
}
use obsidian_mcp_server.Prelude.Int.{ℤ, pos, negsuc, pos_part}
use obsidian_mcp_server.Strings.{Bytes, codes}
use obsidian_mcp_server.Vault.Errors.{Fault, revision_conflict, PathError}

abbrev pub is_positive : ℤ → Bool
is_positive n = ltb 0 (pos_part n)

-- Go's `<` on int.
abbrev pub less : ℤ → ℤ → Bool
less (pos m) (pos n) = ltb m n
less (pos m) (negsuc n) = false
less (negsuc m) (pos n) = true
less (negsuc m) (negsuc n) = ltb n m

abbrev capped_limit : ℤ → ℤ → ℤ
capped_limit limit ceiling = if is_positive ceiling && less ceiling limit then ceiling else limit

-- effectiveLimit
unfoldable pub effective_limit : ℤ → ℤ → ℤ → ℤ
effective_limit requested fallback ceiling =
    capped_limit (if is_positive requested then requested else fallback) ceiling

-- clampBatch: the paths that are kept, and whether some were cut off.
unfoldable pub clamp_batch {ℓ} : {A : Type ℓ} → List A → ℤ → List A × Bool
clamp_batch paths max =
    if is_positive max && ltb (pos_part max) (length paths)
    then (take (pos_part max) paths, true)
    else (paths, false)

abbrev with_code : Fault → Bytes → Bytes
with_code revision_conflict message = codes "REVISION_CONFLICT: " ++ message
with_code f message = message

-- vaultWriteError: the text of the tool's error, from the text of the vault's.
unfoldable pub vault_write_error : (PathError → Bytes) → PathError → Bytes
vault_write_error message e = with_code e.fault (message e)

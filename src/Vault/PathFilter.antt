-- ===== src/Vault/PathFilter.antt =====
-- internal/vault/pathfilter.go
use obsidian_mcp_server.Prelude.{
  ◌-◌, Bool, true, false, not, ◌&&◌, ◌||◌, List, [], ◌∷◌, ◌==◌, if◌then◌else◌, length, take,
}
use obsidian_mcp_server.Strings.{Bytes, codes, eq_bytes, has_suffix, split}
use obsidian_mcp_server.Vault.FilePath.{ext, base}

pub record PathFilter : Type 0 where
  pub ignore_patterns : List Bytes
  pub allowed_exts : List Bytes

abbrev pub internal_state_dir : Bytes
internal_state_dir = codes ".obsidian-mcp"

-- What stands before the first slash, the first result of strings.Cut.
unfoldable pub before_slash : Bytes → Bytes
before_slash [] = []
before_slash (x ∷ xs) = let rest = before_slash xs in if x == b'/' then [] else x ∷ rest

-- IsInternalState
unfoldable pub is_internal_state : Bytes → Bool
unfolding before_slash
is_internal_state path = eq_bytes (before_slash path) internal_state_dir

unfoldable pub matches_any : Bytes → List Bytes → Bool
matches_any component [] = false
matches_any component (p ∷ ps) = eq_bytes component p || matches_any component ps

unfoldable pub any_ignored : List Bytes → List Bytes → Bool
unfolding matches_any
any_ignored [] patterns = false
any_ignored (c ∷ cs) patterns =
    (not (eq_bytes c []) && matches_any c patterns) || any_ignored cs patterns

-- PathFilter.IsIgnored
unfoldable pub is_ignored : PathFilter → Bytes → Bool
unfolding any_ignored
is_ignored f path = any_ignored (split b'/' path) f.ignore_patterns

-- strings.TrimSuffix
unfoldable pub trim_suffix : Bytes → Bytes → Bytes
unfolding has_suffix
trim_suffix s suffix = if has_suffix s suffix then take (length s - length suffix) s else s

-- Stem
unfoldable pub stem : Bytes → Bytes
unfolding trim_suffix base ext
stem path = trim_suffix (base path) (ext (base path))

-- `to_lower` is strings.ToLower, whose tables of letters are not written out here.
module _ (to_lower : Bytes → Bytes) where
  unfoldable pub lower_member : Bytes → List Bytes → Bool
  lower_member e [] = false
  lower_member e (allowed ∷ rest) = eq_bytes (to_lower allowed) e || lower_member e rest

  allowed_ext : Bytes → List Bytes → Bool
  unfolding lower_member
  allowed_ext [] exts = false
  allowed_ext (x ∷ xs) exts = lower_member (x ∷ xs) exts

  -- PathFilter.IsAllowedExtension
  unfoldable pub is_allowed_extension : PathFilter → Bytes → Bool
  unfolding allowed_ext
  is_allowed_extension f path = elim f.allowed_exts [
    | [] ↦ true
    | e ∷ es ↦ allowed_ext (to_lower (ext path)) (e ∷ es)
  ]

  -- StemLower
  pub stem_lower : Bytes → Bytes
  stem_lower path = to_lower (stem path)

-- ===== src/Vault/Sanitize.antt =====
-- internal/vault/vault.go: sanitizePath, the check that every operation makes of its path first.
pub mod Components
pub mod Safe
pub mod Tests
use obsidian_mcp_server.Prelude.{
  ℕ, ◌-◌, Bool, true, false, not, ◌&&◌, ◌||◌, Option, none, some, List, [], ◌∷◌, ◌++◌, ◌==◌,
  if◌then◌else◌, ltb, leb,
}
use obsidian_mcp_server.Prelude.Exec.{Result, ok, err}
use obsidian_mcp_server.Strings.{
  Bytes, codes, eq_bytes, has_prefix, contains_byte, split, trim_right,
}
use obsidian_mcp_server.Vault.Errors.{Fault, path_traversal, path_restricted}
use obsidian_mcp_server.Vault.FilePath.{clean, is_abs, join_path, dot, dot_dot}
use obsidian_mcp_server.Vault.PathFilter.{PathFilter, is_internal_state, is_ignored, matches_any}

unfoldable pub is_ascii_letter : ℕ → Bool
is_ascii_letter b = (leb b'a' b && leb b b'z') || (leb b'A' b && leb b b'Z')

abbrev pub windows_reserved_names : List Bytes
windows_reserved_names =
    codes "CON"
    ∷ codes "PRN"
    ∷ codes "AUX"
    ∷ codes "NUL"
    ∷ codes "COM1"
    ∷ codes "COM2"
    ∷ codes "COM3"
    ∷ codes "COM4"
    ∷ codes "COM5"
    ∷ codes "COM6"
    ∷ codes "COM7"
    ∷ codes "COM8"
    ∷ codes "COM9"
    ∷ codes "LPT1"
    ∷ codes "LPT2"
    ∷ codes "LPT3"
    ∷ codes "LPT4"
    ∷ codes "LPT5"
    ∷ codes "LPT6"
    ∷ codes "LPT7"
    ∷ codes "LPT8"
    ∷ codes "LPT9"
    ∷ []

-- strings.ToUpper on the letters that a reserved name can hold; no other letter of Unicode has one
-- of these as its upper case.
unfoldable pub upper : Bytes → Bytes
upper [] = []
upper (x ∷ xs) = (if leb b'a' x && leb x b'z' then x - 32 else x) ∷ upper xs

unfoldable pub before_dot : Bytes → Bytes
before_dot [] = []
before_dot (x ∷ xs) = let rest = before_dot xs in if x == b'.' then [] else x ∷ rest

abbrev pub is_dot_or_space : ℕ → Bool
is_dot_or_space c = c == b'.' || c == b' '

unfoldable pub has_drive : Bytes → Bool
unfolding is_ascii_letter
has_drive (a ∷ b ∷ rest) = b == b':' && is_ascii_letter a
has_drive _ = false

-- The body of the loop of checkWindowsSafe: whether a segment passes.
unfoldable pub safe_segment : Bytes → Bool
unfolding has_drive upper before_dot
safe_segment seg =
    if eq_bytes seg [] || eq_bytes seg dot
    then true
    else if has_drive seg
    then false
    else if contains_byte b':' seg
    then false
    else if matches_any (upper (before_dot seg)) windows_reserved_names
    then false
    else eq_bytes seg (trim_right is_dot_or_space seg)

unfoldable pub all_safe : List Bytes → Bool
unfolding safe_segment
all_safe [] = true
all_safe (seg ∷ segs) = safe_segment seg && all_safe segs

-- checkWindowsSafe
unfoldable pub check_windows_safe : Bytes → Bool
unfolding all_safe
check_windows_safe cleaned = all_safe (split b'/' cleaned)

-- isUnderRoot
unfoldable pub is_under_root : Bytes → Bytes → Bool
is_under_root root abs_path = eq_bytes abs_path root || has_prefix abs_path (root ++ b'/' ∷ [])

abbrev ignored_by : Option PathFilter → Bytes → Bool
ignored_by none path = false
ignored_by (some f) path = is_ignored f path

-- The checks of sanitizePath on the path, its cleaned form and the absolute path.
pub sanitize_checks :
    Bytes → Option PathFilter → Bytes → Bytes → Bytes → Result Fault (Bytes × Bytes)
sanitize_checks root filter path cleaned abs_path =
    if contains_byte 0 path
    then err path_traversal
    else if is_abs cleaned
    then err path_traversal
    else if eq_bytes cleaned dot_dot || has_prefix cleaned (codes "../")
    then err path_traversal
    else if not (check_windows_safe cleaned)
    then err path_traversal
    else if not (is_under_root root abs_path)
    then err path_traversal
    else if is_internal_state cleaned || ignored_by filter path
    then err path_restricted
    else ok (cleaned, abs_path)

-- sanitizePath
unfoldable pub sanitize_path : Bytes → Option PathFilter → Bytes → Result Fault (Bytes × Bytes)
unfolding sanitize_checks
sanitize_path root filter path =
    sanitize_checks root filter path (clean path) (join_path root (clean path))

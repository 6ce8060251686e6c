-- ===== src/Vault/FilePath.antt =====
-- What the vault uses of Go's package path/filepath, on a system whose separator is the slash, where
-- `ToSlash` changes nothing.
pub mod Clean
use obsidian_mcp_server.Prelude.{
  ℕ, ◌≡◌, ◌≢◌, Bool, true, false, not, ◌&&◌, ◌||◌, Option, none, some, List, [], ◌∷◌, ◌++◌, ◌==◌,
  if◌then◌else◌,
}
use mathlib.Core.List.{reverse}
use obsidian_mcp_server.Strings.{Bytes, codes, eq_bytes, has_prefix, split, join}

abbrev pub dot : Bytes
dot = codes "."

abbrev pub dot_dot : Bytes
dot_dot = codes ".."

-- One component, put on the stack of those before it, the last first. A rooted path has nothing
-- above its root; any other keeps the `..` that lead out of it.
unfoldable pub push_up : Bool → List Bytes → List Bytes
push_up true [] = []
push_up false [] = dot_dot ∷ []
push_up rooted (c ∷ stack) = if eq_bytes c dot_dot then dot_dot ∷ c ∷ stack else stack

unfoldable pub push_component : Bool → List Bytes → Bytes → List Bytes
unfolding push_up
push_component rooted stack c =
    if eq_bytes c [] || eq_bytes c dot
    then stack
    else if eq_bytes c dot_dot
    then push_up rooted stack
    else c ∷ stack

unfoldable pub clean_stack : Bool → List Bytes → List Bytes → List Bytes
unfolding push_component
clean_stack rooted stack [] = stack
clean_stack rooted stack (c ∷ cs) = clean_stack rooted (push_component rooted stack c) cs

-- filepath.IsAbs
unfoldable pub is_abs : Bytes → Bool
is_abs [] = false
is_abs (x ∷ xs) = x == b'/'

abbrev pub render_path : Bool → List Bytes → Bytes
render_path true cs = b'/' ∷ join b'/' cs
render_path false [] = dot
render_path false (c ∷ cs) = join b'/' (c ∷ cs)

-- filepath.Clean
unfoldable pub clean : Bytes → Bytes
unfolding clean_stack is_abs
clean path = render_path (is_abs path) (reverse (clean_stack (is_abs path) [] (split b'/' path)))

-- filepath.Join of two elements
unfoldable pub join_path : Bytes → Bytes → Bytes
unfolding clean
join_path [] [] = []
join_path [] (x ∷ xs) = clean (x ∷ xs)
join_path (y ∷ ys) [] = clean (y ∷ ys)
join_path (y ∷ ys) (x ∷ xs) = clean ((y ∷ ys) ++ b'/' ∷ x ∷ xs)

-- filepath.Join of any number of elements: from the first that is not empty.
unfoldable pub join_paths : List Bytes → Bytes
unfolding clean
join_paths [] = []
join_paths ([] ∷ ps) = join_paths ps
join_paths ((x ∷ p) ∷ ps) = clean (join b'/' ((x ∷ p) ∷ ps))

-- The loop of filepath.Ext from the last byte down; `seen` is what stands behind.
ext_scan : Bytes → Bytes → Bytes
ext_scan [] seen = []
ext_scan (x ∷ before) seen =
    let rest = ext_scan before (x ∷ seen) in
    if x == b'/' then [] else if x == b'.' then x ∷ seen else rest

-- filepath.Ext
unfoldable pub ext : Bytes → Bytes
unfolding ext_scan
ext path = ext_scan (reverse path) []

until_slash : Bytes → Bytes
until_slash [] = []
until_slash (x ∷ xs) = let rest = until_slash xs in if x == b'/' then [] else x ∷ rest

skip_slashes : Bytes → Bytes
skip_slashes [] = []
skip_slashes (x ∷ xs) = let rest = skip_slashes xs in if x == b'/' then rest else x ∷ xs

base_of : Bytes → Bytes
base_of [] = b'/' ∷ []
base_of (x ∷ xs) = x ∷ xs

-- filepath.Base
unfoldable pub base : Bytes → Bytes
unfolding until_slash skip_slashes base_of
base [] = dot
base (x ∷ xs) = base_of (reverse (until_slash (skip_slashes (reverse (x ∷ xs)))))

base_of-ne-nil : (s : Bytes) → base_of s ≢ []
unfolding base_of
base_of-ne-nil [] h = cc
base_of-ne-nil (x ∷ s) h = cc

pub base-ne-nil : (path : Bytes) → base path ≢ []
unfolding base
base-ne-nil [] h = cc
base-ne-nil (x ∷ xs) h = base_of-ne-nil (reverse (until_slash (skip_slashes (reverse (x ∷ xs))))) h

-- The path up to its last slash, the slash included; empty for a path with none.
until_last_slash : Bytes → Bytes
until_last_slash [] = []
until_last_slash (x ∷ before) =
    let rest = until_last_slash before in if x == b'/' then x ∷ before else rest

-- filepath.Dir
unfoldable pub dir : Bytes → Bytes
unfolding until_last_slash clean
dir path = clean (reverse (until_last_slash (reverse path)))

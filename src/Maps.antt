-- ===== src/Maps.antt =====
-- Go maps with string keys, as functions from keys to entries: `m[k] = v` and `delete(m, k)`. A loop
-- over a map that only deletes is `keep`, since the order of its rounds cannot be seen.
use obsidian_mcp_server.Prelude.{Bool, Option, none, some, if◌then◌else◌}
use obsidian_mcp_server.Strings.{Bytes, eq_bytes}

abbrev pub Map {ℓ} : Type ℓ → Type ℓ
Map V = Bytes → Option V

module _ {ℓ} {V : Type ℓ} where
  abbrev pub empty : Map V
  empty k = none

  abbrev pub insert : Bytes → V → Map V → Map V
  insert k v m j = if eq_bytes k j then some v else m j

  abbrev pub remove : Bytes → Map V → Map V
  remove k m j = if eq_bytes k j then none else m j

  abbrev pub keep_entry : (V → Bool) → Option V → Option V
  keep_entry p none = none
  keep_entry p (some v) = if p v then some v else none

  abbrev pub keep : (V → Bool) → Map V → Map V
  keep p m j = keep_entry p (m j)

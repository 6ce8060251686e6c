-- ===== src/Vault/Properties/Tests.antt =====
-- An update of a small mapping, and an instance of the theorem on updates.
use obsidian_mcp_server.Prelude.{◌≡◌, refl, List, [], ◌∷◌}
use obsidian_mcp_server.Prelude.Exec.{ok}
use obsidian_mcp_server.Prelude.Sort.{insert_in_order, sort}
use obsidian_mcp_server.Strings.{Bytes, codes, eq_bytes}
use obsidian_mcp_server.Strings.Order.{less}
use obsidian_mcp_server.Vault.Yaml.{find_key, change_key, set_key, remove_key}
use obsidian_mcp_server.Vault.Yaml.Keys.{IsPaired}
use obsidian_mcp_server.Vault.Yaml.Plain.{Plain, text, plain_yaml, plain_yaml-IsYaml, sample_nodes}
use obsidian_mcp_server.Vault.Properties.{
  encode_to_node, apply_updates, apply_removals, updated_nodes,
}
use obsidian_mcp_server.Vault.Properties.Updates.{IsMap, expected, find_key-updated_nodes}

abbrev updates : List (Bytes × Bytes)
updates = (codes "title", codes "new") ∷ (codes "author", codes "b") ∷ []

abbrev updated : List Plain
updated = text (codes "title") ∷ text (codes "new") ∷ text (codes "author") ∷ text (codes "b") ∷ []

-- The new key stands behind the others, and the removed one is gone.
updates_nodes : updated_nodes plain_yaml updates (codes "tags" ∷ []) sample_nodes ≡ ok updated
unfolding updated_nodes apply_updates apply_removals encode_to_node sort insert_in_order less
    find_key change_key set_key remove_key eq_bytes
updates_nodes = refl

distinct : IsMap updates
unfolding IsMap
distinct = ((λ e. cc, tt), (tt, tt))

paired : IsPaired plain_yaml sample_nodes
unfolding IsPaired
paired = tt

find_key-updated_nodes_example :
    find_key plain_yaml (codes "title") updated
    ≡ expected plain_yaml (codes "title") updates (codes "tags" ∷ []) sample_nodes
find_key-updated_nodes_example =
    find_key-updated_nodes plain_yaml (codes "title") plain_yaml-IsYaml updates (codes "tags" ∷ [])
      sample_nodes updated distinct paired updates_nodes

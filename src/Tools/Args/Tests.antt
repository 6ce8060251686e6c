-- ===== src/Tools/Args/Tests.antt =====
-- Limits and batches, and instances of their theorems.
use obsidian_mcp_server.Prelude.{◌≡◌, refl, List, [], ◌∷◌}
use obsidian_mcp_server.Prelude.Int.{pos, negsuc}
use obsidian_mcp_server.Strings.{Bytes, codes}
use obsidian_mcp_server.Tools.Args.{effective_limit}

limits :
    (effective_limit (negsuc 4) (pos 20) (pos 50) ≡ pos 20)
    × ((effective_limit (pos 99) (pos 20) (pos 50) ≡ pos 50)
        × (effective_limit (pos 99) (pos 20) (pos 0) ≡ pos 99))
unfolding effective_limit
limits = (refl, (refl, refl))

abbrev batch : List Bytes
batch = codes "a" ∷ codes "b" ∷ []

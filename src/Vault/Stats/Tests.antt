-- ===== src/Vault/Stats/Tests.antt =====
-- The statistics of a vault with no notes.
use obsidian_mcp_server.Prelude.{◌≡◌, refl, none, [], true, false}
use obsidian_mcp_server.Prelude.Exec.{ok}
use obsidian_mcp_server.Vault.Disk.{memory, vault}
use obsidian_mcp_server.Vault.Yaml.Plain.{plain_yaml}
use obsidian_mcp_server.Vault.Stats.{no_stats, vault_stats}
use obsidian_mcp_server.Vault.Walk.{end, visits, walk_visits, walk_notes}

-- An empty vault has no notes.
empty_vault :
    vault_stats plain_yaml
      (λ c. true)
      memory
      vault
      []
      (λ p. none)
      none
      (λ s. s)
      (λ i. false)
      (ok end)
    ≡ ok no_stats
unfolding vault_stats walk_notes walk_visits visits
empty_vault = refl

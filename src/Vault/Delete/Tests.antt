-- ===== src/Vault/Delete/Tests.antt =====
-- Runs of PruneTrash on files in memory, and an instance of its theorem.
use obsidian_mcp_server.Prelude.{ℕ, ◌-◌, ◌*◌, ◌≡◌, refl, true, Option, none, some, [], ◌∷◌, arith}
use obsidian_mcp_server.Prelude.Int.{pos}
use obsidian_mcp_server.Prelude.Exec.{ok}
use obsidian_mcp_server.Strings.{Bytes, codes, eq_bytes, has_prefix, join, split}
use obsidian_mcp_server.Vault.FilePath.{join_path}
use obsidian_mcp_server.Vault.Os.{Os, Entry}
use obsidian_mcp_server.Vault.Disk.{Files, without_all, memory, vault}
use obsidian_mcp_server.Vault.Delete.Prune.{day, prune_trash}
use obsidian_mcp_server.Vault.Delete.Pruned.{PrunedTrash, prune_trash-PrunedTrash}

abbrev entry : Bytes → Entry
entry name = record { name = name; is_dir = true; has_info = true }

-- A trash with one entry of the first day, one of the eighth, and one whose name is no time.
abbrev trash_can : Os
trash_can = record memory {
  read_dir = λ p s. ok (entry (codes "1") ∷ entry (codes "8") ∷ entry (codes "old") ∷ []);
}

abbrev day_of : Bytes → Option ℕ
day_of (d ∷ []) = some ((d - b'0') * day)
day_of _ = none

abbrev of_first : Bytes × Bytes
of_first = (codes "/v/.obsidian-mcp/trash/1/a.md", codes "a")

abbrev of_eighth : Bytes × Bytes
of_eighth = (codes "/v/.obsidian-mcp/trash/8/b.md", codes "b")

abbrev trashed : Files
trashed = of_first ∷ of_eighth ∷ []

prune_three_days :
    prune_trash day_of (9 * day) (pos 3) trash_can vault trashed ≡ (ok 1, of_eighth ∷ [])
unfolding prune_trash without_all eq_bytes join_path join split has_prefix
prune_three_days = refl

-- A retention of 150000 days wraps around to a cutoff in the future.
prune_overflow : prune_trash day_of (9 * day) (pos 150000) trash_can vault trashed ≡ (ok 2, [])
unfolding prune_trash without_all eq_bytes join_path join split has_prefix
prune_overflow = refl

prune_trash-PrunedTrash_example :
    PrunedTrash day_of
      (9 * day)
      3
      trash_can
      vault
      (ok (entry (codes "1") ∷ entry (codes "8") ∷ entry (codes "old") ∷ []))
      trashed
      (prune_trash day_of (9 * day) (pos 3) trash_can vault trashed)
prune_trash-PrunedTrash_example =
    prune_trash-PrunedTrash day_of (9 * day) 3 trash_can vault (omega arith) trashed

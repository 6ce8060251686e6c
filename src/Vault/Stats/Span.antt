-- ===== src/Vault/Stats/Span.antt =====
-- internal/vault/stats.go, VaultStats: the oldest and the newest note.
use obsidian_mcp_server.Prelude.{
  ℕ, ◌≤◌, ◌≡◌, ◌↔◌, true, false, refl, subst, Bool, Option, none, some, if◌then◌else◌, ltb, arith,
}
use obsidian_mcp_server.Prelude.Exec.{Result, ok, err}
use obsidian_mcp_server.Strings.{Bytes}
use obsidian_mcp_server.Vault.Errors.{OsError, PathError}
use obsidian_mcp_server.Vault.Os.{Os}
use obsidian_mcp_server.Vault.Yaml.{Yaml}
use obsidian_mcp_server.Vault.Guards.{Service}
use obsidian_mcp_server.Vault.Stats.{
  NoteTimestamp, VaultStats, no_stats, older, newer, content_of, counted, stat_note, stats_of,
  vault_stats,
}
use obsidian_mcp_server.Vault.Walk.{Nodes}
use obsidian_mcp_server.Vault.Walk.Keeps.{walk_notes_keeps}

-- The two times: none, or the first no later than the second.
abbrev pub InOrder : Option NoteTimestamp → Option NoteTimestamp → Type 0
InOrder none none = Unit
InOrder (some o) (some k) = o.mod_time ≤ k.mod_time
InOrder _ _ = ⊥

-- The times are there exactly if a note was counted, and the oldest is no later than the newest.
abbrev pub IsSpan : VaultStats → Type 0
IsSpan st = InOrder st.oldest st.newest × ((st.oldest ≡ none) ↔ (st.note_count ≡ 0))

InOrder-more :
    (o k : Option NoteTimestamp) (t : NoteTimestamp)
    → InOrder o k
    → (older t o).mod_time ≤ (newer t k).mod_time
InOrder-more none none t h = omega arith
InOrder-more none (some k) t h = elim h [ ]
InOrder-more (some o) none t h = elim h [ ]
InOrder-more (some o) (some k) t h =
    older_newer (ltb t.mod_time o.mod_time) (ltb k.mod_time t.mod_time) refl refl
  where
    older_newer :
        (a b : Bool)
        → ltb t.mod_time o.mod_time ≡ a
        → ltb k.mod_time t.mod_time ≡ b
        → (if a then t else o).mod_time ≤ (if b then t else k).mod_time
    older_newer true true e q = omega arith
    older_newer true false e q = ground (arith, e, q)
    older_newer false true e q = ground (arith, e, q)
    older_newer false false e q = h

module _ (y : Yaml) (is_alnum : Bytes → Bool) (os : Os) (v : Service) (s : os.State)
    (info : Bytes → Option (ℕ × ℕ)) (counter : Option (Bytes → ℕ)) where
  counted-IsSpan :
      (rel : Bytes) (i : Option (ℕ × ℕ)) (content : Option Bytes) (st : VaultStats)
      → IsSpan st
      → IsSpan (counted y is_alnum os v s info counter rel i content st)
  counted-IsSpan rel none content st h = h
  counted-IsSpan rel (some i) none st h = h
  counted-IsSpan rel (some (size, time)) (some content) st h = (
    InOrder-more st.oldest st.newest (record { path = rel; mod_time = time }) h.0,
    (λ e. cc, λ e. absurd (omega (arith, e))),
  )

  stats_of-IsSpan :
      (o : Result PathError (Unit {0}) × VaultStats) (st : VaultStats)
      → IsSpan o.1
      → stats_of y is_alnum os v s info counter o ≡ ok st
      → IsSpan st
  stats_of-IsSpan (ok u, t) st h e = subst IsSpan (ok_same e) h
    where
      ok_same : ◌≡◌ {A = Result PathError VaultStats} (ok t) (ok st) → t ≡ st
      ok_same q = cc
  stats_of-IsSpan (err x, t) st h e = cc

  -- The statistics name an oldest and a newest note exactly if a note was counted, and the oldest was
  -- changed no later than the newest.
  pub vault_stats-IsSpan :
      (to_lower : Bytes → Bytes) (is_cancelled : ℕ → Bool) (tree : Result OsError Nodes)
      (st : VaultStats)
      → vault_stats y is_alnum os v s info counter to_lower is_cancelled tree ≡ ok st
      → IsSpan st
  unfolding vault_stats stat_note
  vault_stats-IsSpan to_lower is_cancelled tree st = stats_of-IsSpan _ st (
      walk_notes_keeps IsSpan (stat_note y is_alnum os v s info counter) to_lower v is_cancelled
        tree
        (λ w t _ h.
          counted-IsSpan w.rel (info w.abs)
            (content_of y is_alnum os v s info counter (os.open_file w.abs s)) t h)
        no_stats (tt, (λ e. refl, λ e. refl)))

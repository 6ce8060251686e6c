-- ===== src/Vault/Stats.antt =====
-- internal/vault/stats.go: VaultStats. A time is a number, and `info` is what os.Stat says of a file: its
-- size and the time of its last change.
pub mod Span
mod Tests
use obsidian_mcp_server.Prelude.{
  ℕ, ◌+◌, Bool, true, false, ◌&&◌, Option, none, some, List, [], ◌∷◌, if◌then◌else◌, ltb, length,
}
use obsidian_mcp_server.Prelude.Exec.{Exec, Result, ok, err}
use obsidian_mcp_server.Maps.{Map, empty}
use obsidian_mcp_server.Strings.{Bytes}
use obsidian_mcp_server.Vault.Errors.{OsError, PathError}
use obsidian_mcp_server.Vault.Os.{Os, OpenFile}
use obsidian_mcp_server.Vault.Yaml.{Yaml}
use obsidian_mcp_server.Vault.Guards.{Service}
use obsidian_mcp_server.Vault.Links.{extract_links}
use obsidian_mcp_server.Vault.Tags.{merge_note_tags}
use obsidian_mcp_server.Vault.Tags.Counts.{bump_all}
use obsidian_mcp_server.Vault.Walk.{Nodes, Stop, walk_notes}

pub record NoteTimestamp : Type 0 where
  pub path : Bytes
  pub mod_time : ℕ

pub record VaultStats : Type 0 where
  pub note_count : ℕ
  pub total_bytes : ℕ
  pub total_links : ℕ
  pub total_tokens : ℕ
  pub oldest : Option NoteTimestamp
  pub newest : Option NoteTimestamp
  pub tag_counts : Map ℕ

abbrev pub no_stats : VaultStats
no_stats = record {
  note_count = 0;
  total_bytes = 0;
  total_links = 0;
  total_tokens = 0;
  oldest = none;
  newest = none;
  tag_counts = empty;
}

abbrev pub older : NoteTimestamp → Option NoteTimestamp → NoteTimestamp
older n none = n
older n (some o) = if ltb n.mod_time o.mod_time then n else o

abbrev pub newer : NoteTimestamp → Option NoteTimestamp → NoteTimestamp
newer n none = n
newer n (some o) = if ltb o.mod_time n.mod_time then n else o

-- The token counter, where one is given and asked for.
abbrev pub tokens : Option (Bytes → ℕ) → Bytes → ℕ
tokens none content = 0
tokens (some count) content = count content

module _ (y : Yaml) (is_alnum : Bytes → Bool) (os : Os) (v : Service) (s : os.State)
    (info : Bytes → Option (ℕ × ℕ)) (counter : Option (Bytes → ℕ)) where
  abbrev pub with_note : Bytes → ℕ × ℕ → Bytes → VaultStats → VaultStats
  with_note rel (size, time) content st = record {
    note_count = st.note_count + 1;
    total_bytes = st.total_bytes + size;
    total_links = st.total_links + length (extract_links content);
    total_tokens = st.total_tokens + tokens counter content;
    oldest = some (older (record { path = rel; mod_time = time }) st.oldest);
    newest = some (newer (record { path = rel; mod_time = time }) st.newest);
    tag_counts = bump_all (merge_note_tags y is_alnum content) st.tag_counts;
  }

  abbrev pub content_of : Result OsError OpenFile → Option Bytes
  content_of (err e) = none
  content_of (ok f) = elim f.content [ ok d ↦ some d | err e ↦ none ]

  -- A file without information or content is passed over.
  abbrev pub counted : Bytes → Option (ℕ × ℕ) → Option Bytes → VaultStats → VaultStats
  counted rel none content st = st
  counted rel (some i) none st = st
  counted rel (some i) (some content) st = with_note rel i content st

  -- The function that VaultStats hands to WalkNotes.
  unfoldable pub stat_note : Bytes → Bytes → Exec VaultStats Stop (Unit {0})
  unfolding bump_all merge_note_tags extract_links
  stat_note rel abs_path st =
      (ok tt, counted rel (info abs_path) (content_of (os.open_file abs_path s)) st)

  abbrev pub stats_of : Result PathError (Unit {0}) × VaultStats → Result PathError VaultStats
  stats_of (ok u, st) = ok st
  stats_of (err e, st) = err e

  -- VaultStats
  unfoldable pub vault_stats :
      (Bytes → Bytes) → (ℕ → Bool) → Result OsError Nodes → Result PathError VaultStats
  unfolding walk_notes stat_note
  vault_stats to_lower is_cancelled tree =
      stats_of (walk_notes to_lower v is_cancelled tree stat_note no_stats)

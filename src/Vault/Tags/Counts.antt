-- ===== src/Vault/Tags/Counts.antt =====
-- internal/vault/tags.go: AggregateTags and TopTagsByCount.
pub mod Totals
pub mod Top
use obsidian_mcp_server.Prelude.{
  ℕ, zero, suc, ◌+◌, Bool, true, false, not, ◌&&◌, Option, none, some, List, [], ◌∷◌, ◌==◌,
  if◌then◌else◌, ltb, leb, length, take,
}
use obsidian_mcp_server.Prelude.Exec.{Exec, Result, ok, err}
use obsidian_mcp_server.Prelude.Int.{ℤ, pos_part}
use obsidian_mcp_server.Prelude.Sort.{sort}
use obsidian_mcp_server.Maps.{Map, empty, insert}
use obsidian_mcp_server.Strings.{Bytes, eq_bytes}
use obsidian_mcp_server.Strings.Order.{less}
use obsidian_mcp_server.Vault.Errors.{OsError, Fault, PathError}
use obsidian_mcp_server.Vault.Os.{Os}
use obsidian_mcp_server.Vault.Yaml.{Yaml}
use obsidian_mcp_server.Vault.Guards.{Service, read_note_bytes}
use obsidian_mcp_server.Vault.Tags.{merge_note_tags}
use obsidian_mcp_server.Vault.Walk.{Nodes, Stop, skip_all, walk_notes}

abbrev pub max_aggregate_tags_notes : ℕ
max_aggregate_tags_notes = 10000

abbrev pub or_zero : Option ℕ → ℕ
or_zero none = 0
or_zero (some n) = n

-- `counts[t]++` for each tag of a note.
unfoldable pub bump_all : List Bytes → Map ℕ → Map ℕ
bump_all [] counts = counts
bump_all (t ∷ ts) counts = bump_all ts (insert t (or_zero (counts t) + 1) counts)

-- The variables that the function of AggregateTags closes over.
pub record Tally : Type 0 where
  pub counts : Map ℕ
  pub scanned : ℕ

module _ (y : Yaml) (is_alnum : Bytes → Bool) (os : Os) (v : Service) (s : os.State) where
  -- The tags of a file, a set; one that cannot be read is passed over.
  abbrev pub tags_read : Result Fault Bytes → List Bytes
  tags_read (err f) = []
  tags_read (ok data') = merge_note_tags y is_alnum data'

  abbrev pub tags_of_file : Bytes → List Bytes
  tags_of_file abs_path = tags_read (read_note_bytes os v abs_path s)

  -- The function that AggregateTags hands to WalkNotes.
  unfoldable pub count_note : Bytes → Bytes → Exec Tally Stop (Unit {0})
  unfolding bump_all merge_note_tags read_note_bytes
  count_note rel abs_path tally =
      if leb max_aggregate_tags_notes tally.scanned then (err skip_all, tally) else (
        ok tt,
        record {
          counts = bump_all (tags_of_file abs_path) tally.counts;
          scanned = tally.scanned + 1;
        },
      )

  abbrev no_tally : Tally
  no_tally = record { counts = empty; scanned = 0 }

  abbrev pub counts_of : Result PathError (Unit {0}) × Tally → Result PathError (Map ℕ)
  counts_of (ok u, tally) = ok tally.counts
  counts_of (err e, tally) = err e

  -- AggregateTags
  unfoldable pub aggregate_tags :
      (Bytes → Bytes) → (ℕ → Bool) → Result OsError Nodes → Result PathError (Map ℕ)
  unfolding walk_notes count_note
  aggregate_tags to_lower is_cancelled tree =
      counts_of (walk_notes to_lower v is_cancelled tree count_note no_tally)

pub record TagCount : Type 0 where
  pub name : Bytes
  pub count : ℕ

-- The order of TopTagsByCount.
unfoldable pub by_count : TagCount → TagCount → Bool
unfolding less
by_count a b = if not (a.count == b.count) then ltb b.count a.count else less a.name b.name

-- TopTagsByCount of the entries of a map.
unfoldable pub top_tags_by_count : List TagCount → ℤ → List TagCount
unfolding by_count
top_tags_by_count entries limit =
    if ltb 0 (pos_part limit) && ltb (pos_part limit) (length entries)
    then take (pos_part limit) (sort by_count entries)
    else sort by_count entries

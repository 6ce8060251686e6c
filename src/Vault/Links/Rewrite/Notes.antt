-- ===== src/Vault/Links/Rewrite/Notes.antt =====
-- internal/vault/linkrewrite.go: RewriteLinksOnMove over the notes of the vault, and the last step of
-- MoveNote in internal/vault/mutators.go.
use obsidian_mcp_server.Prelude.{
  ℕ, ◌+◌, Bool, true, false, not, ◌&&◌, ◌||◌, Option, none, some, List, [], ◌∷◌, ◌++◌,
  if◌then◌else◌, ltb, length,
}
use obsidian_mcp_server.Prelude.Exec.{Exec, Result, ok, err, asks, ◌>>=◌, ◌>>◌}
use obsidian_mcp_server.Maps.{empty, insert}
use obsidian_mcp_server.Strings.{Bytes, codes, eq_bytes, split, join}
use obsidian_mcp_server.Vault.Errors.{OsError, file_too_large, os_fault, panicked, PathError}
use obsidian_mcp_server.Vault.Os.{Os, OpenFile}
use obsidian_mcp_server.Vault.PathFilter.{stem}
use obsidian_mcp_server.Vault.Guards.{
  Service, max_file_size_bytes, path_error, os_call, check_context, check_symlinks_for_write,
}
use obsidian_mcp_server.Vault.Links.{build_match_targets}
use obsidian_mcp_server.Vault.Links.Rewrite.{LinkRewrite, Index, paths_of, rewrite_line}
use obsidian_mcp_server.Vault.Move.{MoveResult, move_note}
use obsidian_mcp_server.Vault.Walk.{Nodes, Stop, failed_with, walk_notes}

abbrev pub rewrite_op : Bytes
rewrite_op = codes "rewrite-links"

-- A LinkRewrite with the note and the line filled in.
pub record Found : Type 0 where
  pub path : Bytes
  pub line : ℕ
  pub rewrite : LinkRewrite

abbrev pub fill_in : Bytes → ℕ → List LinkRewrite → List Found
fill_in rel line [] = []
fill_in rel line (r ∷ rs) = record { path = rel; line = line; rewrite = r } ∷ fill_in rel line rs

-- The lines of a note behind the loop, what was found, and whether a line changed.
pub record Lines : Type 0 where
  pub lines : List Bytes
  pub found : List Found
  pub changed : Bool

abbrev add_line : Bytes → ℕ → Bytes → Bytes × List LinkRewrite → Lines → Lines
add_line rel i line (new_line, rewrites) more = record {
  lines = new_line ∷ more.lines;
  found = fill_in rel i rewrites ++ more.found;
  changed = not (eq_bytes new_line line) || more.changed;
}

abbrev add_rewritten :
    Bytes → ℕ → Bytes → Option (Bytes × List LinkRewrite) → Option Lines → Option Lines
add_rewritten rel i line (some r) (some more) = some (add_line rel i line r more)
add_rewritten rel i line _ _ = none

module _ (targets : List Bytes) (index : Index) (new_path : Bytes) where
  -- The loop over the lines, whose numbers begin at 1; `none` is a panic. A line in which nothing was
  -- found is given back by rewriteLine as it is.
  unfoldable pub rewrite_lines : Bytes → ℕ → List Bytes → Option Lines
  unfolding rewrite_line eq_bytes
  rewrite_lines rel i [] = some (record { lines = []; found = []; changed = false })
  rewrite_lines rel i (line ∷ lines) =
      add_rewritten rel (i + 1) line (rewrite_line targets index new_path line)
        (rewrite_lines rel (i + 1) lines)

-- The function that basenameIndex hands to WalkNotes.
abbrev pub index_note : Bytes → Bytes → Exec Index Stop (Unit {0})
index_note rel abs_path index =
    (ok tt, insert (stem rel) (paths_of (index (stem rel)) ++ rel ∷ []) index)

module _ (os : Os) (v : Service) where
  open os use {State, open_file, write_file}

  abbrev check_length : Bytes → Bytes → Result PathError (Unit {0})
  check_length rel text =
      if ltb max_file_size_bytes (length text)
      then err (path_error rewrite_op rel file_too_large)
      else ok tt

  -- writeRewrittenNote
  unfoldable pub write_rewritten_note : Bytes → Bytes → Bytes → Exec State PathError (Unit {0})
  write_rewritten_note rel abs_path text = do
    asks (check_symlinks_for_write os v rewrite_op rel abs_path)
    asks (λ _. check_length rel text)
    os_call rewrite_op rel os_fault (write_file abs_path text)

  -- The state of the walk, and the rewrites that were found.
  abbrev pub Rewrites : Type 0
  Rewrites = State × List Found

  abbrev pub after_write :
      List Found → Result PathError (Unit {0}) × State → Result Stop (Unit {0}) × Rewrites
  after_write found (ok u, s) = (ok tt, (s, found))
  after_write found (err e, s) = (err (failed_with e), (s, found))

  abbrev pub use_lines : Bool → Bytes → Bytes → Option Lines → Exec Rewrites Stop (Unit {0})
  use_lines dry_run rel abs_path none s =
      (err (failed_with (path_error rewrite_op rel panicked)), s)
  use_lines dry_run rel abs_path (some l) s =
      if l.changed && not dry_run
      then after_write (s.1 ++ l.found) (write_rewritten_note rel abs_path (join b'\n' l.lines) s.0)
      else (ok tt, (s.0, s.1 ++ l.found))

  abbrev pub content_read : Result OsError OpenFile → Result OsError Bytes
  content_read (err e) = err e
  content_read (ok f) = f.content

  module _ (targets : List Bytes) (index : Index) (new_path : Bytes) (dry_run : Bool) where
    abbrev pub use_content : Bytes → Bytes → Result OsError Bytes → Exec Rewrites Stop (Unit {0})
    use_content rel abs_path (err e) s = (ok tt, s)
    use_content rel abs_path (ok data') s =
        use_lines dry_run rel abs_path
          (rewrite_lines targets index new_path rel 0 (split b'\n' data')) s

    -- The function that RewriteLinksOnMove hands to WalkNotes.
    unfoldable pub rewrite_note : Bytes → Bytes → Exec Rewrites Stop (Unit {0})
    unfolding rewrite_lines write_rewritten_note
    rewrite_note rel abs_path s =
        if eq_bytes rel new_path
        then (ok tt, s)
        else use_content rel abs_path (content_read (open_file abs_path s.0)) s

  abbrev pub index_of : Result PathError (Unit {0}) × Index → Result PathError Index
  index_of (ok u, index) = ok index
  index_of (err e, index) = err e

  -- basenameIndex
  unfoldable pub basename_index :
      (Bytes → Bytes) → (ℕ → Bool) → Result OsError Nodes → Result PathError Index
  unfolding walk_notes
  basename_index to_lower is_cancelled tree =
      index_of (walk_notes to_lower v is_cancelled tree index_note empty)

  abbrev pub all_rewrites :
      Result PathError (Unit {0}) × Rewrites → Result PathError (List Found) × State
  all_rewrites (ok u, s) = (ok s.1, s.0)
  all_rewrites (err e, s) = (err e, s.0)

  -- The second walk.
  abbrev pub walk_and_rewrite :
      (Bytes → Bytes)
      → (ℕ → Bool)
      → Result OsError Nodes
      → Bytes
      → Bytes
      → Bool
      → Index
      → Exec State PathError (List Found)
  walk_and_rewrite to_lower is_cancelled tree old_path new_path dry_run index s = all_rewrites (
      walk_notes to_lower v is_cancelled tree
        (rewrite_note (build_match_targets old_path) index new_path dry_run) (s, []))

  -- RewriteLinksOnMove over the tree of the vault; the two walks may be cancelled at different times.
  unfoldable pub rewrite_links_on_move :
      (Bytes → Bytes)
      → Bool
      → (ℕ → Bool)
      → (ℕ → Bool)
      → Result OsError Nodes
      → Bytes
      → Bytes
      → Bool
      → Exec State PathError (List Found)
  unfolding walk_notes rewrite_note basename_index build_match_targets
  rewrite_links_on_move to_lower is_cancelled_before is_cancelled is_cancelled_later tree old_path
        new_path dry_run =
      do
        asks (λ _. check_context rewrite_op old_path is_cancelled_before)
        index ← asks (λ _. basename_index to_lower is_cancelled tree)
        walk_and_rewrite to_lower is_cancelled_later tree old_path new_path dry_run index

  -- What MoveNote gives back: the result, and the links, or the error that came with them.
  pub record Moved : Type 0 where
    pub result : MoveResult
    pub links : Result PathError (List Found)

  abbrev pub with_links :
      MoveResult → Result PathError (List Found) × State → Result PathError Moved × State
  with_links result (links, s) = (ok (record { result = result; links = links }), s)

  abbrev pub links_if :
      Bool → MoveResult → Exec State PathError (List Found) → Exec State PathError Moved
  links_if true result rewrite s = with_links result (rewrite s)
  links_if false result rewrite s = (ok (record { result = result; links = ok [] }), s)

  -- MoveNote with the rewriting of links. The tree that the walks find is that behind the move.
  unfoldable pub move_note_with_links :
      (Bytes → Bytes)
      → Bool
      → (ℕ → Bool)
      → (ℕ → Bool)
      → Result OsError Nodes
      → Bytes
      → Bytes
      → Bytes
      → Bool
      → Bool
      → Bytes
      → Exec State PathError Moved
  unfolding move_note rewrite_links_on_move
  move_note_with_links to_lower is_cancelled during later tree src dst confirm update_links dry_run
        condition =
      do
        result ← move_note os v is_cancelled src dst confirm dry_run condition
        links_if update_links result
            (rewrite_links_on_move to_lower is_cancelled during later tree src dst dry_run)

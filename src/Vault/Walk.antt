-- ===== src/Vault/Walk.antt =====
-- internal/vault/walk.go: WalkNotes. filepath.WalkDir goes over a tree of directories, which is an
-- argument: it comes to a directory before it reads it, and a second time, with an error, where it
-- cannot read it.
pub mod Notes
pub mod Keeps
mod Tests
use obsidian_mcp_server.Prelude.{
  ℕ, ◌+◌, Bool, true, false, not, ◌&&◌, ◌||◌, Option, none, some, List, [], ◌∷◌, ◌++◌,
  if◌then◌else◌,
}
use obsidian_mcp_server.Prelude.Exec.{Exec, Result, ok, err, pure, asks, fail, ◌>>=◌, ◌>>◌}
use obsidian_mcp_server.Strings.{Bytes, codes}
use obsidian_mcp_server.Vault.Errors.{OsError, Fault, cancelled, os_fault, PathError}
use obsidian_mcp_server.Vault.FilePath.{join_path}
use obsidian_mcp_server.Vault.PathFilter.{
  PathFilter, is_internal_state, is_ignored, is_allowed_extension,
}
use obsidian_mcp_server.Vault.Guards.{Service, path_error}
use obsidian_mcp_server.Vault.List.{is_hidden}

-- What stands in a directory: a file, a directory with what it holds, or a directory that cannot be read.
mutual
  pub data Node : Type 0 where
    file : Bytes → Node
    folder : Bytes → Nodes → Node
    unreadable : Bytes → Node

  pub data Nodes : Type 0 where
    end : Nodes
    node : Node → Nodes → Nodes

-- One call that WalkDir makes of the function it is given, for a path below the root.
pub record Visit : Type 0 where
  pub rel : Bytes
  pub abs : Bytes
  pub is_dir : Bool
  pub failed : Bool

abbrev pub visit_of : Bytes → Bytes → Bool → Bool → Visit
visit_of root rel is_dir failed = record {
  rel = rel;
  abs = join_path root rel;
  is_dir = is_dir;
  failed = failed;
}

-- filepath.Rel of an entry, from that of its directory.
abbrev pub below : Bytes → Bytes → Bytes
below [] name = name
below (x ∷ dir) name = (x ∷ dir) ++ b'/' ∷ name

abbrev pub entered : Bool → List Visit → List Visit
entered true visits = []
entered false visits = visits

unfoldable mutual
  -- The visits of WalkDir, where the function answers SkipDir for a hidden directory.
  pub visits : Bytes → Option PathFilter → Bytes → Nodes → List Visit
  visits root filter dir end = []
  visits root filter dir (node n ns) = visits_of root filter dir n ++ visits root filter dir ns

  pub visits_of : Bytes → Option PathFilter → Bytes → Node → List Visit
  visits_of root filter dir (file name) = visit_of root (below dir name) false false ∷ []
  visits_of root filter dir (unreadable name) =
      visit_of root (below dir name) true false
      ∷ entered (is_hidden filter (below dir name)) (visit_of root (below dir name) true true ∷ [])
  visits_of root filter dir (folder name ns) =
      visit_of root (below dir name) true false
      ∷ entered (is_hidden filter (below dir name)) (visits root filter (below dir name) ns)

module _ (to_lower : Bytes → Bytes) where
  abbrev pub extension_allowed : Option PathFilter → Bytes → Bool
  extension_allowed none abs = true
  extension_allowed (some f) abs = is_allowed_extension to_lower f abs

  -- A visit that is handed on: a file that is neither hidden nor of another kind.
  unfoldable pub is_note : Option PathFilter → Visit → Bool
  unfolding is_hidden
  is_note filter v =
      not v.failed
      && (not v.is_dir && (not (is_hidden filter v.rel) && extension_allowed filter v.abs))

-- What the function of WalkNotes may end the walk by.
pub data Stop : Type 0 where
  skip_all : Stop
  failed_with : PathError → Stop

module _ {S : Type 0} where
  -- The loop over the visits; `is_cancelled i` is the state of the context at the i-th.
  unfoldable pub walk_visits :
      (ℕ → Bool)
      → (Visit → Bool)
      → (Bytes → Bytes → Exec S Stop (Unit {0}))
      → ℕ
      → List Visit
      → Exec S Stop (Unit {0})
  walk_visits is_cancelled handed fn i [] = pure tt
  walk_visits is_cancelled handed fn i (v ∷ vs) =
      let rest = walk_visits is_cancelled handed fn (i + 1) vs in
      if is_cancelled i
      then fail (failed_with (path_error (codes "walk") v.rel cancelled))
      else if handed v
      then fn v.rel v.abs >> rest
      else rest

  abbrev pub ended : Result Stop (Unit {0}) × S → Result PathError (Unit {0}) × S
  ended (ok u, s) = (ok u, s)
  ended (err skip_all, s) = (ok tt, s)
  ended (err (failed_with e), s) = (err e, s)

  abbrev pub root_failed : Fault → Exec S PathError (Unit {0})
  root_failed f = fail (path_error (codes "walk") [] f)

  -- WalkNotes over the tree of the vault, or the error of its root, which is visited first.
  unfoldable pub walk_notes :
      (Bytes → Bytes)
      → Service
      → (ℕ → Bool)
      → Result OsError Nodes
      → (Bytes → Bytes → Exec S Stop (Unit {0}))
      → Exec S PathError (Unit {0})
  unfolding walk_visits visits is_note
  walk_notes to_lower v is_cancelled (err e) fn =
      if is_cancelled 0 then root_failed cancelled else root_failed (os_fault e)
  walk_notes to_lower v is_cancelled (ok tree) fn =
      if is_cancelled 0 then root_failed cancelled else λ s.
      ended (
        walk_visits is_cancelled (is_note to_lower v.filter) fn 1 (visits v.root v.filter [] tree)
          s)

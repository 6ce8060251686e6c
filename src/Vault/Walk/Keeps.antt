-- ===== src/Vault/Walk/Keeps.antt =====
-- internal/vault/walk.go, WalkNotes: what the function that it is given keeps, the walk keeps.
use obsidian_mcp_server.Prelude.{
  ℕ, ◌+◌, ◌≡◌, refl, Bool, true, false, List, [], ◌∷◌, Option, All, All-append, if◌then◌else◌,
}
use obsidian_mcp_server.Prelude.Exec.{Exec, Result, ok, err, fail, continue, ◌>>◌}
use obsidian_mcp_server.Strings.{Bytes, codes}
use obsidian_mcp_server.Vault.Errors.{OsError, os_fault, cancelled}
use obsidian_mcp_server.Vault.FilePath.{join_path}
use obsidian_mcp_server.Vault.PathFilter.{PathFilter}
use obsidian_mcp_server.Vault.List.{is_hidden}
use obsidian_mcp_server.Vault.Guards.{Service, path_error}
use obsidian_mcp_server.Vault.Walk.{
  Node, Nodes, file, folder, unreadable, end, node, below, entered, visits_of, Visit, visits, Stop,
  skip_all, failed_with, is_note, walk_visits, ended, root_failed, walk_notes,
}

-- A visit stands where its path below the root says.
abbrev IsBelow : Bytes → Visit → Type 0
IsBelow root w = w.abs ≡ join_path root w.rel

entered-IsBelow :
    (root : Bytes) (hidden : Bool) (ws : List Visit)
    → All (IsBelow root) ws
    → All (IsBelow root) (entered hidden ws)
entered-IsBelow root true ws h = tt
entered-IsBelow root false ws h = h

mutual
  unfolding visits

  visits-IsBelow :
      (root : Bytes) (filter : Option PathFilter) (dir : Bytes) (ns : Nodes)
      → All (IsBelow root) (visits root filter dir ns)
  visits-IsBelow root filter dir end = tt
  visits-IsBelow root filter dir (node n ns) =
      All-append (IsBelow root) (visits_of root filter dir n) (visits root filter dir ns)
        (visits_of-IsBelow root filter dir n) (visits-IsBelow root filter dir ns)

  visits_of-IsBelow :
      (root : Bytes) (filter : Option PathFilter) (dir : Bytes) (n : Node)
      → All (IsBelow root) (visits_of root filter dir n)
  visits_of-IsBelow root filter dir (file name) = (refl, tt)
  visits_of-IsBelow root filter dir (unreadable name) =
      (refl, entered-IsBelow root (is_hidden filter (below dir name)) _ (refl, tt))
  visits_of-IsBelow root filter dir (folder name ns) = (
    refl,
    entered-IsBelow root (is_hidden filter (below dir name)) _
        (visits-IsBelow root filter (below dir name) ns),
  )

module _ {S : Type 0} (I : S → Type 0) (fn : Bytes → Bytes → Exec S Stop (Unit {0})) where
  module _ (is_cancelled : ℕ → Bool) (handed : Visit → Bool) (root : Bytes)
      (kept : (w : Visit) (s : S)
        → w.abs ≡ join_path root w.rel
        → handed w ≡ true
        → I s
        → I (fn w.rel w.abs s).1) where
    continued :
        (o : Result Stop (Unit {0}) × S) (k : Exec S Stop (Unit {0}))
        → I o.1
        → ((s : S) → I s → I (k s).1)
        → I (continue o.0 (λ _. k) o.1).1
    continued (ok u, s) k h g = g s h
    continued (err e, s) k h g = h

    walk_visits_keeps :
        (i : ℕ) (ws : List Visit) (s : S)
        → All (IsBelow root) ws
        → I s
        → I (walk_visits is_cancelled handed fn i ws s).1
    unfolding walk_visits
    walk_visits_keeps i [] s a h = h
    walk_visits_keeps i (w ∷ ws) s a h =
        at (is_cancelled i) (handed w) refl (λ s. walk_visits_keeps (i + 1) ws s a.1)
      where
        rest : Exec S Stop (Unit {0})
        rest = walk_visits is_cancelled handed fn (i + 1) ws

        at :
            (a b : Bool)
            → handed w ≡ b
            → ((s : S) → I s → I (rest s).1)
            → I
                ((if a
                    then fail (failed_with (path_error (codes "walk") w.rel cancelled))
                    else if b
                    then fn w.rel w.abs >> rest
                    else rest)
                  s).1
        at true b e later = h
        at false true e later = continued (fn w.rel w.abs s) rest (kept w s a.0 e h) later
        at false false e later = later s h

  ended_keeps : (o : Result Stop (Unit {0}) × S) → I o.1 → I (ended o).1
  ended_keeps (ok u, s) h = h
  ended_keeps (err skip_all, s) h = h
  ended_keeps (err (failed_with e), s) h = h

  -- A property of the state that the function keeps, for the notes that it is called on and their
  -- places on disk, holds behind the walk, however the walk ends.
  pub walk_notes_keeps_at :
      (to_lower : Bytes → Bytes) (v : Service) (is_cancelled : ℕ → Bool)
      (tree : Result OsError Nodes)
      → ((w : Visit) (s : S)
          → w.abs ≡ join_path v.root w.rel
          → is_note to_lower v.filter w ≡ true
          → I s
          → I (fn w.rel w.abs s).1)
      → (s : S) → I s
      → I (walk_notes to_lower v is_cancelled tree fn s).1
  unfolding walk_notes
  walk_notes_keeps_at to_lower v is_cancelled (err e) kept s h = at (is_cancelled 0)
    where
      at : (b : Bool) → I ((if b then root_failed cancelled else root_failed (os_fault e)) s).1
      at true = h
      at false = h
  walk_notes_keeps_at to_lower v is_cancelled (ok tree) kept s h = at (is_cancelled 0)
    where
      at :
          (b : Bool)
          → I
              ((if b then root_failed cancelled else λ s. ended (
                  walk_visits is_cancelled
                    (is_note to_lower v.filter)
                    fn
                    1
                    (visits v.root v.filter [] tree)
                    s))
                s).1
      at true = h
      at false = ended_keeps _ (
          walk_visits_keeps is_cancelled (is_note to_lower v.filter) v.root kept 1
            (visits v.root v.filter [] tree) s (visits-IsBelow v.root v.filter [] tree) h)

  -- The same of a function that is kept wherever the notes stand.
  pub walk_notes_keeps :
      (to_lower : Bytes → Bytes) (v : Service) (is_cancelled : ℕ → Bool)
      (tree : Result OsError Nodes)
      → ((w : Visit) (s : S) → is_note to_lower v.filter w ≡ true → I s → I (fn w.rel w.abs s).1)
      → (s : S) → I s
      → I (walk_notes to_lower v is_cancelled tree fn s).1
  walk_notes_keeps to_lower v is_cancelled tree kept =
      walk_notes_keeps_at to_lower v is_cancelled tree (λ w s _. kept w s)

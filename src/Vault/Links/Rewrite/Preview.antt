-- ===== src/Vault/Links/Rewrite/Preview.antt =====
-- internal/vault/linkrewrite.go: a dry run of RewriteLinksOnMove and of MoveNote.
use obsidian_mcp_server.Prelude.{
  ℕ, ◌≡◌, refl, sym, ap, ◌∙◌, Bool, true, false, not, ◌&&◌, Option, none, some, List, [], ◌++◌,
  subst, if◌then◌else◌,
}
use obsidian_mcp_server.Prelude.Exec.{Exec, Result, ok, err, asks_rule, call_rule}
use obsidian_mcp_server.Strings.{Bytes, eq_bytes, split, join}
use obsidian_mcp_server.Vault.Errors.{OsError, PathError}
use obsidian_mcp_server.Vault.Os.{Os}
use obsidian_mcp_server.Vault.Guards.{Service, check_context}
use obsidian_mcp_server.Vault.Links.{build_match_targets}
use obsidian_mcp_server.Vault.Links.Rewrite.{Index}
use obsidian_mcp_server.Vault.Links.Rewrite.Notes.{
  rewrite_op, Found, Lines, Rewrites, use_lines, use_content, content_read, rewrite_note,
  rewrite_lines, basename_index, all_rewrites, rewrite_links_on_move, after_write,
  write_rewritten_note, links_if, move_note_with_links,
}
use obsidian_mcp_server.Vault.Move.{MoveResult, move_note}
use obsidian_mcp_server.Vault.Move.Arrival.{move_note_dry_run}
use obsidian_mcp_server.Vault.Walk.{Nodes}
use obsidian_mcp_server.Vault.Walk.Keeps.{walk_notes_keeps}

module _ (os : Os) (v : Service) (s : os.State) where
  abbrev Same : Rewrites os v → Type 0
  Same r = r.0 ≡ s

  use_lines-Same :
      (rel abs : Bytes) (l : Option Lines) (r : Rewrites os v)
      → Same r
      → Same (use_lines os v true rel abs l r).1
  use_lines-Same rel abs none r h = h
  use_lines-Same rel abs (some l) r h = by_changed l.changed
    where
      by_changed :
          (b : Bool)
          → Same
              (if b && not true
                then after_write os v
                    (r.1 ++ l.found)
                    (write_rewritten_note os v rel abs (join b'\n' l.lines) r.0)
                else (ok tt, (r.0, r.1 ++ l.found))).1
      by_changed true = h
      by_changed false = h

  module _ (targets : List Bytes) (index : Index) (new_path : Bytes) where
    use_content-Same :
        (rel abs : Bytes) (d : Result OsError Bytes) (r : Rewrites os v)
        → Same r
        → Same (use_content os v targets index new_path true rel abs d r).1
    use_content-Same rel abs (err e) r h = h
    use_content-Same rel abs (ok d) r h =
        use_lines-Same rel abs (rewrite_lines targets index new_path rel 0 (split b'\n' d)) r h

    rewrite_note-Same :
        (rel abs : Bytes) (r : Rewrites os v)
        → Same r
        → Same (rewrite_note os v targets index new_path true rel abs r).1
    unfolding rewrite_note
    rewrite_note-Same rel abs r h = by_path (eq_bytes rel new_path)
      where
        by_path :
            (b : Bool)
            → Same
                (if b
                  then (ok tt, r)
                  else use_content os v targets index new_path true rel abs
                      (content_read os v (os.open_file abs r.0))
                      r).1
        by_path true = h
        by_path false = use_content-Same rel abs (content_read os v (os.open_file abs r.0)) r h

  -- An outcome that leaves the state as it was.
  Still : {A : Type 0} → Result PathError A × os.State → Type 0
  Still out = out.1 ≡ s

  all_rewrites-Still :
      (o : Result PathError (Unit {0}) × Rewrites os v) → Same o.1 → Still (all_rewrites os v o)
  unfolding Still
  all_rewrites-Still (ok u, r) h = h
  all_rewrites-Still (err e, r) h = h

  -- Looking for the links to a note in a dry run changes nothing, however it ends.
  pub rewrite_links_on_move_dry_run :
      (to_lower : Bytes → Bytes) (is_cancelled_before : Bool)
      (is_cancelled is_cancelled_later : ℕ → Bool) (tree : Result OsError Nodes)
      (old_path new_path : Bytes)
      → (rewrite_links_on_move os v to_lower is_cancelled_before is_cancelled is_cancelled_later
          tree old_path new_path true s).1
        ≡ s
  unfolding rewrite_links_on_move Still
  rewrite_links_on_move_dry_run to_lower is_cancelled_before is_cancelled is_cancelled_later tree
        old_path new_path =
      asks_rule Still (λ _. check_context rewrite_op old_path is_cancelled_before) _ s (λ e _. refl)
        (λ _ _.
          asks_rule Still (λ _. basename_index os v to_lower is_cancelled tree) _ s (λ e _. refl)
            (λ index _. all_rewrites-Still _ (
              walk_notes_keeps Same
                (rewrite_note os v (build_match_targets old_path) index new_path true) to_lower v
                is_cancelled_later tree
                (λ w r _ h.
                  rewrite_note-Same (build_match_targets old_path) index new_path w.rel w.abs r h)
                (s, []) refl)))

  links_if-Still :
      (b : Bool) (result : MoveResult) (m : Exec os.State PathError (List Found))
      → Still (m s)
      → Still (links_if os v b result m s)
  unfolding Still
  links_if-Still true result m h = h
  links_if-Still false result m h = refl

  -- A dry run of MoveNote changes nothing, however it ends, whether it looks for links or not.
  pub move_note_with_links_dry_run :
      (to_lower : Bytes → Bytes) (is_cancelled : Bool) (during later : ℕ → Bool)
      (tree : Result OsError Nodes) (src dst confirm : Bytes) (update_links : Bool)
      (condition : Bytes)
      → (move_note_with_links os v to_lower is_cancelled during later tree src dst confirm
          update_links true condition s).1
        ≡ s
  unfolding move_note_with_links Still
  move_note_with_links_dry_run to_lower is_cancelled during later tree src dst confirm update_links
        condition =
      let still = move_note_dry_run os v src dst is_cancelled confirm condition s in
      call_rule Still (move_note os v is_cancelled src dst confirm true condition) _ s
        (λ e s1 h. sym (ap (λ o. o.1) h) ∙ still)
        (λ result s1 h.
          let same = sym (ap (λ o. o.1) h) ∙ still in
          subst
            (λ t. Still (
              links_if os v update_links result
                (rewrite_links_on_move os v to_lower is_cancelled during later tree src dst true)
                t))
            (sym same)
            (links_if-Still update_links result
              (rewrite_links_on_move os v to_lower is_cancelled during later tree src dst true)
              (rewrite_links_on_move_dry_run to_lower is_cancelled during later tree src dst)))

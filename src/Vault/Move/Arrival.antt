-- ===== src/Vault/Move/Arrival.antt =====
-- internal/vault/mutators.go, MoveNote: refusals, dry runs, and what a move leaves where.
use obsidian_mcp_server.Prelude.{◌≡◌, refl, sym, ap, ◌∙◌, Bool, true, false}
use obsidian_mcp_server.Prelude.Exec.{Result, ok, err, asks_rule, call_rule}
use obsidian_mcp_server.Strings.{Bytes}
use obsidian_mcp_server.Vault.Errors.{OsError, not_found, os_fault, PathError}
use obsidian_mcp_server.Vault.FilePath.{dir}
use obsidian_mcp_server.Vault.Os.{Os}
use obsidian_mcp_server.Vault.Sanitize.{sanitize_path}
use obsidian_mcp_server.Vault.Guards.{
  Service, os_call, missing_is, check_context, check_symlinks_for_write, sanitize,
  read_if_conditional,
}
use obsidian_mcp_server.Vault.Guards.Facts.{LeadsInside, Matches}
use obsidian_mcp_server.Vault.Guards.Refusals.{
  IsRefusal, Keeps, Keeps-late, pure-Keeps, os_call-IsLate, missing_is-IsLate, asks-Keeps,
  call-IsLate,
}
use obsidian_mcp_server.Vault.Delete.{check_confirm}
use obsidian_mcp_server.Vault.Move.{
  move, check_absent, move_file_locked, preview, move_or_preview, move_note,
}

module _ (os : Os) (v : Service) (src dst : Bytes) where
  move_file_locked-Keeps :
      (src_abs dst_abs condition : Bytes) (s : os.State)
      → Keeps s (move_file_locked os v src src_abs dst dst_abs condition s)
  unfolding move_file_locked
  move_file_locked-Keeps src_abs dst_abs condition s =
      asks-Keeps (check_absent os v dst dst_abs) _ s (λ _ _.
        asks-Keeps (check_symlinks_for_write os v move src src_abs) _ s (λ _ _.
          asks-Keeps (check_symlinks_for_write os v move dst dst_abs) _ s (λ _ _.
            asks-Keeps (read_if_conditional os v move src src_abs condition not_found) _ s (λ _ _.
              Keeps-late s _ (
                call-IsLate (os_call move dst os_fault (os.mkdir_all (dir dst_abs))) _ s
                  (os_call-IsLate move dst os_fault (os.mkdir_all (dir dst_abs)) s (λ x r. r))
                  (λ a s1 h.
                    os_call-IsLate move src (missing_is not_found) (os.rename src_abs dst_abs) s1
                      missing_is-IsLate))))))

  preview-Keeps :
      (src_abs dst_abs : Bytes) (s : os.State) → Keeps s (preview os v src src_abs dst dst_abs s)
  unfolding preview
  preview-Keeps src_abs dst_abs s =
      asks-Keeps (check_absent os v dst dst_abs) _ s (λ _ _ e s' h r. cc)

  move_or_preview-Keeps :
      (dry_run : Bool) (src_abs dst_abs condition : Bytes) (s : os.State)
      → Keeps s (move_or_preview os v dry_run src src_abs dst dst_abs condition s)
  unfolding move_or_preview
  move_or_preview-Keeps true src_abs dst_abs condition s = preview-Keeps src_abs dst_abs s
  move_or_preview-Keeps false src_abs dst_abs condition s =
      move_file_locked-Keeps src_abs dst_abs condition s

  pub move_note-Keeps :
      (is_cancelled : Bool) (confirm : Bytes) (dry_run : Bool) (condition : Bytes) (s : os.State)
      → Keeps s (move_note os v is_cancelled src dst confirm dry_run condition s)
  unfolding move_note
  move_note-Keeps is_cancelled confirm dry_run condition s =
      asks-Keeps (λ _. check_context move src is_cancelled) _ s
        (λ _ _.
          asks-Keeps (λ _. check_confirm move src confirm) _ s
            (λ _ _.
              asks-Keeps (λ _. sanitize os v move src) _ s
                (λ a _.
                  asks-Keeps (λ _. sanitize os v move dst) _ s
                    (λ b _.
                      pure-Keeps (move_or_preview os v dry_run src a.1 dst b.1 condition) _ s
                        (move_or_preview-Keeps dry_run a.1 b.1 condition s)))))

  -- A move that is refused changes nothing.
  pub move_note_refused :
      (is_cancelled : Bool) (confirm : Bytes) (dry_run : Bool) (condition : Bytes) (s s' : os.State)
      (e : PathError)
      → move_note os v is_cancelled src dst confirm dry_run condition s ≡ (err e, s')
      → IsRefusal e.fault
      → s' ≡ s
  move_note_refused is_cancelled confirm dry_run condition s s' e =
      move_note-Keeps is_cancelled confirm dry_run condition s e s'

  Still : {A : Type 0} → os.State → Result PathError A × os.State → Type 0
  Still s out = out.1 ≡ s

  preview-Still :
      (src_abs dst_abs : Bytes) (s : os.State) → Still s (preview os v src src_abs dst dst_abs s)
  unfolding preview Still
  preview-Still src_abs dst_abs s =
      asks_rule (Still s) (check_absent os v dst dst_abs) _ s (λ e _. refl) (λ _ _. refl)

  -- A dry run changes nothing, however it ends.
  pub move_note_dry_run :
      (is_cancelled : Bool) (confirm condition : Bytes) (s : os.State)
      → (move_note os v is_cancelled src dst confirm true condition s).1 ≡ s
  unfolding move_note move_or_preview preview Still
  move_note_dry_run is_cancelled confirm condition s =
      asks_rule (Still s) (λ _. check_context move src is_cancelled) _ s (λ e _. refl)
        (λ _ _.
          asks_rule (Still s) (λ _. check_confirm move src confirm) _ s (λ e _. refl)
            (λ _ _.
              asks_rule (Still s) (λ _. sanitize os v move src) _ s (λ e _. refl)
                (λ a _.
                  asks_rule (Still s) (λ _. sanitize os v move dst) _ s (λ e _. refl)
                    (λ b _.
                      call_rule (Still s) (preview os v src a.1 dst b.1) _ s
                        (λ e s1 h. sym (ap (λ o. o.1) h) ∙ preview-Still a.1 b.1 s)
                        (λ _ s1 h. sym (ap (λ o. o.1) h) ∙ preview-Still a.1 b.1 s)))))

  -- The calls of the system that make a move, and what was seen before them.
  pub record Arrived (src_abs dst_abs condition : Bytes) (s s' : os.State) : Type 0 where
    pub was_absent : (x : OsError) × (os.stat dst_abs s ≡ err x)
    pub source_inside : LeadsInside os v src_abs s
    pub target_inside : LeadsInside os v dst_abs s
    pub revision : Matches os v src_abs condition s
    pub made : os.State
    pub directory : os.mkdir_all (dir dst_abs) s ≡ (ok tt, made)
    pub renamed : os.rename src_abs dst_abs made ≡ (ok tt, s')

  pub record Moved (confirm condition : Bytes) (s s' : os.State) : Type 0 where
    pub source : Bytes × Bytes
    pub target : Bytes × Bytes
    pub source_allowed : sanitize_path v.root v.filter src ≡ ok source
    pub target_allowed : sanitize_path v.root v.filter dst ≡ ok target
    pub confirmed : confirm ≡ src
    pub arrived : Arrived source.1 target.1 condition s s'

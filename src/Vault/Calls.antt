-- ===== src/Vault/Calls.antt =====
-- internal/vault: the operations that change one note, as calls: WriteNote, PatchNote, DeleteNote, MoveNote,
-- UpdateFrontmatter, AddTag and RemoveTag, each with the arguments of the source. The dates of the trash
-- and the state of the context are arguments.
mod Tests
use obsidian_mcp_server.Prelude.{
  ◌≡◌, refl, sym, ap, ◌∙◌, Bool, true, false, Option, none, some, List, [], ◌∷◌,
}
use obsidian_mcp_server.Prelude.Exec.{Exec, Result, ok, err, pure, asks, ◌>>=◌, ◌>>◌, asks_rule}
use obsidian_mcp_server.Strings.{Bytes, codes}
use obsidian_mcp_server.Vault.Errors.{Fault, invalid_location, PathError}
use obsidian_mcp_server.Vault.Os.{Os, IsReliable}
use obsidian_mcp_server.Vault.Guards.{Service, check_context}
use obsidian_mcp_server.Vault.Yaml.{Yaml}
use obsidian_mcp_server.Vault.Write.{WriteMode, write_note}
use obsidian_mcp_server.Vault.Patch.{PatchOp, patch_note}
use obsidian_mcp_server.Vault.Delete.{delete_note}
use obsidian_mcp_server.Vault.Move.{move_note}
use obsidian_mcp_server.Vault.Edit.{edit_note}
use obsidian_mcp_server.Vault.Edit.Effect.{Edited, edit_note-Edited}
use obsidian_mcp_server.Vault.Properties.{update_op, updated_text, update_frontmatter}
use obsidian_mcp_server.Vault.Tags.Edits.{
  Location, location_of, tagged_text, untagged_text, located, add_tag, remove_tag,
}

module _ (y : Yaml) where
  -- The edits of the frontmatter and of the tags.
  pub data Edit : Type 0 where
    update_call : List (Bytes × y.Value) → List Bytes → Edit
    add_call : Bytes → Location → Edit
    remove_call : Bytes → Edit

  pub data Call : Type 0 where
    write_call : Bytes → WriteMode → Call
    patch_call : PatchOp → Call
    delete_call : Bytes → Bytes → Bool → Call
    move_call : Bytes → Bytes → Bool → Call
    edit_call : Edit → Call

  module _ (is_alnum : Bytes → Bool) where
    abbrev pub op_of : Edit → Bytes
    op_of (update_call us ks) = update_op
    op_of (add_call t l) = codes "add_tag"
    op_of (remove_call t) = codes "remove_tag"

    abbrev pub keeps_same : Edit → Bool
    keeps_same (add_call t l) = true
    keeps_same _ = false

    abbrev pub text_at : Bytes → Option Bool → Bytes → Result Fault Bytes
    text_at t none data' = err invalid_location
    text_at t (some to_frontmatter) data' = tagged_text y to_frontmatter t data'

    -- The text that an edit makes of that of the note.
    abbrev pub text_of_edit : Edit → Bytes → Result Fault Bytes
    text_of_edit (update_call us ks) data' = updated_text y us ks data'
    text_of_edit (add_call t l) data' = text_at t (location_of y l) data'
    text_of_edit (remove_call t) data' = untagged_text y is_alnum t data'

    module _ (os : Os) (v : Service) (is_cancelled : Bool) (path condition : Bytes) where
      abbrev pub run_edit : Edit → Exec os.State PathError (Unit {0})
      run_edit (update_call us ks) = update_frontmatter y os v is_cancelled path us ks condition
      run_edit (add_call t l) = add_tag y os v is_cancelled path t l condition
      run_edit (remove_call t) = remove_tag y os v is_alnum is_cancelled path t condition

      abbrev pub run : Call → Exec os.State PathError (Unit {0})
      run (write_call content mode) = write_note os v is_cancelled path content mode condition
      run (patch_call p) = patch_note os v is_cancelled path p condition
      run (delete_call stamp confirm permanent) =
          delete_note os v stamp is_cancelled path confirm permanent condition
      run (move_call dst confirm dry_run) =
          move_note os v is_cancelled path dst confirm dry_run condition >> pure tt
      run (edit_call e) = run_edit e

      located-Edited :
          IsReliable os
          → (t : Bytes) (l : Option Bool) (s s' : os.State)
          → located y os v l path t condition s ≡ (ok tt, s')
          → Edited os v (codes "add_tag") path condition true (text_at t l) s s'
      located-Edited reliable t none s s' h = cc
      located-Edited reliable t (some b) s s' h =
          edit_note-Edited os v (codes "add_tag") path condition true (tagged_text y b t) reliable s
            s' h

      abbrev IsGood : Edit → os.State → os.State → Result PathError (Unit {0}) × os.State → Type 0
      IsGood e s s' out =
          out ≡ (ok tt, s')
          → Edited os v (op_of e) path condition (keeps_same e) (text_of_edit e) s s'

      -- An update of the frontmatter, or of a tag, that succeeds went to an allowed path that leads out
      -- of the vault by no symbolic link, read the note at the revision asked for, and stored what the
      -- edit makes of the text that it read; where a tag is added and that is the same text, nothing was
      -- done. The system stores what a successful write is given.
      pub run_edit-Edited :
          IsReliable os
          → (e : Edit) (s s' : os.State) → run_edit e s ≡ (ok tt, s')
          → Edited os v (op_of e) path condition (keeps_same e) (text_of_edit e) s s'
      unfolding update_frontmatter add_tag remove_tag
      run_edit-Edited reliable (update_call us ks) s s' =
          asks_rule (IsGood (update_call us ks) s s')
            (λ _. check_context update_op path is_cancelled) _ s (λ e h k. cc)
            (λ _ _.
              edit_note-Edited os v update_op path condition false (updated_text y us ks) reliable s
                s')
      run_edit-Edited reliable (add_call t l) s s' =
          asks_rule (IsGood (add_call t l) s s')
            (λ _. check_context (codes "add_tag") path is_cancelled) _ s (λ e h k. cc)
            (λ _ _. located-Edited reliable t (location_of y l) s s')
      run_edit-Edited reliable (remove_call t) s s' =
          asks_rule (IsGood (remove_call t) s s')
            (λ _. check_context (codes "remove_tag") path is_cancelled) _ s (λ e h k. cc)
            (λ _ _.
              edit_note-Edited os v (codes "remove_tag") path condition false
                (untagged_text y is_alnum t) reliable s s')

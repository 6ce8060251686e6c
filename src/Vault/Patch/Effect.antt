-- ===== src/Vault/Patch/Effect.antt =====
-- internal/vault/mutators.go, PatchNote: refusals, and what a successful patch did.
use obsidian_mcp_server.Prelude.{◌≡◌, Bool}
use obsidian_mcp_server.Prelude.Exec.{Result, ok, err, asks_rule}
use obsidian_mcp_server.Strings.{Bytes}
use obsidian_mcp_server.Vault.Errors.{not_found, os_fault, PathError}
use obsidian_mcp_server.Vault.Os.{Os, IsReliable, stored}
use obsidian_mcp_server.Vault.Sanitize.{sanitize_path}
use obsidian_mcp_server.Vault.Guards.{
  Service, check_context, check_symlinks_for_write, sanitize, read_note_bytes, read_matched,
}
use obsidian_mcp_server.Vault.Guards.Facts.{os_call_ok, sanitize_ok, Matches, read_matched_ok}
use obsidian_mcp_server.Vault.Guards.Refusals.{
  IsRefusal, Keeps, Keeps-late, os_call-IsLate, asks-Keeps,
}
use obsidian_mcp_server.Vault.Patch.{PatchOp, patch, patched_text, patch_note}

module _ (os : Os) (v : Service) (path : Bytes) (p : PatchOp) where
  pub patch_note-Keeps :
      (is_cancelled : Bool) (condition : Bytes) (s : os.State)
      → Keeps s (patch_note os v is_cancelled path p condition s)
  unfolding patch_note
  patch_note-Keeps is_cancelled condition s =
      asks-Keeps (λ _. check_context patch path is_cancelled) _ s
        (λ _ _.
          asks-Keeps (λ _. sanitize os v patch path) _ s
            (λ t _. asks-Keeps (check_symlinks_for_write os v patch path t.1) _ s (λ _ _.
              asks-Keeps (read_matched os v patch path t.1 condition not_found) _ s (λ d _.
                asks-Keeps (λ _. patched_text path p d) _ s
                  (λ combined _. Keeps-late s _ (
                    os_call-IsLate patch path os_fault (os.write_file t.1 combined) s
                      (λ x r. r)))))))

  -- A patch that is refused changes nothing.
  pub patch_note_refused :
      (is_cancelled : Bool) (condition : Bytes) (s s' : os.State) (e : PathError)
      → patch_note os v is_cancelled path p condition s ≡ (err e, s')
      → IsRefusal e.fault
      → s' ≡ s
  patch_note_refused is_cancelled condition s s' e = patch_note-Keeps is_cancelled condition s e s'

  -- A note that was patched: the text that was read, with the digest that the caller named, is
  -- replaced by its patched text.
  pub record Patched (condition : Bytes) (s s' : os.State) : Type 0 where
    pub target : Bytes × Bytes
    pub before : Bytes
    pub text : Bytes
    pub allowed : sanitize_path v.root v.filter path ≡ ok target
    pub was_read : read_note_bytes os v target.1 s ≡ ok before
    pub revision : Matches os v target.1 condition s
    pub patched : patched_text path p before ≡ ok text
    pub then_stored : os.open_file target.1 s' ≡ ok (stored text)

  -- A patch that succeeds went to an allowed path, read the note at the revision asked for, and stored
  -- what the patch makes of the text that it read.
  pub patch_note-Patched :
      IsReliable os
      → (is_cancelled : Bool) (condition : Bytes) (s s' : os.State)
      → patch_note os v is_cancelled path p condition s ≡ (ok tt, s')
      → Patched condition s s'
  unfolding patch_note
  patch_note-Patched reliable is_cancelled condition s s' =
      asks_rule Good (λ _. check_context patch path is_cancelled) _ s (λ e h k. cc)
        (λ _ _.
          asks_rule Good (λ _. sanitize os v patch path) _ s (λ e h k. cc)
            (λ t a.
              asks_rule Good (check_symlinks_for_write os v patch path t.1) _ s (λ e h k. cc)
                (λ _ _.
                  asks_rule Good (read_matched os v patch path t.1 condition not_found) _ s
                    (λ e h k. cc)
                    (λ d r.
                      asks_rule Good (λ _. patched_text path p d) _ s (λ e h k. cc)
                        (λ combined c w. record {
                          target = t;
                          before = d;
                          text = combined;
                          allowed = sanitize_ok os v patch path t a;
                          was_read =
                              (read_matched_ok os v patch path t.1 condition not_found s d r).0;
                          revision =
                              (read_matched_ok os v patch path t.1 condition not_found s d r).1;
                          patched = c;
                          then_stored = reliable.write_then_open t.1 combined s s' (
                              os_call_ok patch path os_fault (os.write_file t.1 combined) s tt s'
                                w);
                        })))))
    where
      Good : Result PathError (Unit {0}) × os.State → Type 0
      Good out = out ≡ (ok tt, s') → Patched condition s s'

-- ===== src/Vault/Delete/Trash.antt =====
-- internal/vault/mutators.go, DeleteNote: refusals, and where a deleted note goes.
use obsidian_mcp_server.Prelude.{◌≡◌, Bool, true, false, arith}
use obsidian_mcp_server.Prelude.Exec.{Result, ok, err, asks_rule, call_rule}
use obsidian_mcp_server.Strings.{Bytes, eq_bytes_iff}
use obsidian_mcp_server.Vault.Errors.{Fault, not_found, os_fault, PathError}
use obsidian_mcp_server.Vault.FilePath.{dir}
use obsidian_mcp_server.Vault.Os.{Os}
use obsidian_mcp_server.Vault.Sanitize.{sanitize_path}
use obsidian_mcp_server.Vault.Guards.{
  Service, os_call, missing_is, check_context, check_symlinks_for_write, sanitize,
  read_if_conditional,
}
use obsidian_mcp_server.Vault.Guards.Facts.{
  LeadsInside, check_symlinks_for_write-LeadsInside, os_call_ok, sanitize_ok, Matches,
  read_if_conditional-Matches,
}
use obsidian_mcp_server.Vault.Guards.Refusals.{
  IsRefusal, Keeps, Keeps-late, os_call-IsLate, missing_is-IsLate, asks-Keeps, call-IsLate,
}
use obsidian_mcp_server.Vault.Delete.{
  delete, check_confirm, trash_path, remove_note, move_to_trash, delete_checked, delete_note,
}

pub check_confirm_ok :
    (op path confirm : Bytes) → check_confirm op path confirm ≡ ok tt → confirm ≡ path
unfolding check_confirm
check_confirm_ok op path confirm h = ground (arith, eq_bytes_iff confirm path)

pub same_target :
    {t u : Bytes × Bytes} → ◌≡◌ {A = Result Fault (Bytes × Bytes)} (ok t) (ok u) → t ≡ u
same_target h = cc

module _ (os : Os) (v : Service) (path : Bytes) where
  delete_checked-Keeps :
      (permanent : Bool) (abs_path trashed : Bytes) (s : os.State)
      → Keeps s (delete_checked os v permanent path abs_path trashed s)
  unfolding delete_checked remove_note move_to_trash
  delete_checked-Keeps true abs_path trashed s = Keeps-late s _ (
      os_call-IsLate delete path (missing_is not_found) (os.remove_file abs_path) s
        missing_is-IsLate)
  delete_checked-Keeps false abs_path trashed s = Keeps-late s _ (
      call-IsLate (os_call delete path os_fault (os.mkdir_all (dir trashed))) _ s
        (os_call-IsLate delete path os_fault (os.mkdir_all (dir trashed)) s (λ x r. r))
        (λ a s1 h.
          os_call-IsLate delete path (missing_is not_found) (os.rename abs_path trashed) s1
            missing_is-IsLate))

  pub delete_note-Keeps :
      (stamp : Bytes) (is_cancelled : Bool) (confirm : Bytes) (permanent : Bool) (condition : Bytes)
      (s : os.State)
      → Keeps s (delete_note os v stamp is_cancelled path confirm permanent condition s)
  unfolding delete_note
  delete_note-Keeps stamp is_cancelled confirm permanent condition s =
      asks-Keeps (λ _. check_context delete path is_cancelled) _ s
        (λ _ _.
          asks-Keeps (λ _. check_confirm delete path confirm) _ s
            (λ _ _.
              asks-Keeps (λ _. sanitize os v delete path) _ s
                (λ t _. asks-Keeps (check_symlinks_for_write os v delete path t.1) _ s (λ _ _.
                  asks-Keeps (read_if_conditional os v delete path t.1 condition not_found) _ s
                    (λ m _. delete_checked-Keeps permanent t.1 (trash_path v.root stamp t.0) s)))))

  -- A deletion that is refused changes nothing.
  pub delete_note_refused :
      (stamp : Bytes) (is_cancelled : Bool) (confirm : Bytes) (permanent : Bool) (condition : Bytes)
      (s s' : os.State) (e : PathError)
      → delete_note os v stamp is_cancelled path confirm permanent condition s ≡ (err e, s')
      → IsRefusal e.fault
      → s' ≡ s
  delete_note_refused stamp is_cancelled confirm permanent condition s s' e =
      delete_note-Keeps stamp is_cancelled confirm permanent condition s e s'

  -- The calls of the system that put a file in the trash.
  pub record Filed (abs_path trashed : Bytes) (s s' : os.State) : Type 0 where
    pub made : os.State
    pub directory : os.mkdir_all (dir trashed) s ≡ (ok tt, made)
    pub renamed : os.rename abs_path trashed made ≡ (ok tt, s')

  move_to_trash-Filed :
      (abs_path trashed : Bytes) (s s' : os.State)
      → move_to_trash os v path abs_path trashed s ≡ (ok tt, s')
      → Filed abs_path trashed s s'
  unfolding move_to_trash
  move_to_trash-Filed abs_path trashed s s' h =
      call_rule Good (os_call delete path os_fault (os.mkdir_all (dir trashed))) _ s
        (λ e s1 k. λ s' w. cc)
        (λ a s1 k. λ s' w. record {
          made = s1;
          directory = os_call_ok delete path os_fault (os.mkdir_all (dir trashed)) s tt s1 k;
          renamed =
              os_call_ok delete path (missing_is not_found) (os.rename abs_path trashed) s1 tt s' w;
        })
        s' h
    where
      Good : Result PathError (Unit {0}) × os.State → Type 0
      Good out = (s' : os.State) → out ≡ (ok tt, s') → Filed abs_path trashed s s'

  pub record Trashed (stamp confirm condition : Bytes) (s s' : os.State) : Type 0 where
    pub target : Bytes × Bytes
    pub allowed : sanitize_path v.root v.filter path ≡ ok target
    pub inside : LeadsInside os v target.1 s
    pub confirmed : confirm ≡ path
    pub revision : Matches os v target.1 condition s
    pub filed : Filed target.1 (trash_path v.root stamp target.0) s s'

  -- A deletion that is not for good and succeeds was confirmed, its path is an allowed one, which led
  -- inside the vault as far as os.Stat found its directory, a condition was the digest of the note, and
  -- all that was done is two calls of the system: the directory in the trash was made, and the path was
  -- renamed to its place there.
  pub delete_note-Trashed :
      (stamp : Bytes) (is_cancelled : Bool) (confirm condition : Bytes) (s s' : os.State)
      → delete_note os v stamp is_cancelled path confirm false condition s ≡ (ok tt, s')
      → Trashed stamp confirm condition s s'
  unfolding delete_note delete_checked
  delete_note-Trashed stamp is_cancelled confirm condition s =
      asks_rule Good (λ _. check_context delete path is_cancelled) _ s (λ e h. λ s' k. cc)
        (λ _ _.
          asks_rule Good (λ _. check_confirm delete path confirm) _ s (λ e h. λ s' k. cc)
            (λ _ c.
              asks_rule Good (λ _. sanitize os v delete path) _ s (λ e h. λ s' k. cc)
                (λ t a.
                  asks_rule Good (check_symlinks_for_write os v delete path t.1) _ s
                    (λ e h. λ s' k. cc)
                    (λ _ i.
                      asks_rule Good (read_if_conditional os v delete path t.1 condition not_found)
                        _ s (λ e h. λ s' k. cc)
                        (λ m r. λ s' w. record {
                          target = t;
                          inside = check_symlinks_for_write-LeadsInside os v delete path t.1 s i;
                          allowed = sanitize_ok os v delete path t a;
                          revision =
                              read_if_conditional-Matches os v delete path t.1 condition not_found s
                                m r;
                          confirmed = check_confirm_ok delete path confirm c;
                          filed = move_to_trash-Filed t.1 (trash_path v.root stamp t.0) s s' w;
                        })))))
    where
      Good : Result PathError (Unit {0}) × os.State → Type 0
      Good out = (s' : os.State) → out ≡ (ok tt, s') → Trashed stamp confirm condition s s'

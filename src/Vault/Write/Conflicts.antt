-- ===== src/Vault/Write/Conflicts.antt =====
-- internal/vault/vault.go, WriteNote: refused writes, and writers that hold the same revision.
use obsidian_mcp_server.Prelude.{ℕ, ◌≡◌, ap, subst, Bool, false, ◌∷◌, ◌++◌, arith}
use obsidian_mcp_server.Prelude.Exec.{ok, err, asks}
use obsidian_mcp_server.Strings.{Bytes}
use obsidian_mcp_server.Vault.Errors.{
  revision_conflict, os_fault, file_too_large, unknown_write_mode, PathError,
}
use obsidian_mcp_server.Vault.FilePath.{dir}
use obsidian_mcp_server.Vault.Os.{Os, IsReliable}
use obsidian_mcp_server.Vault.Guards.{
  Service, path_error, etag, check_context, check_symlinks_for_write, sanitize, read_if_conditional,
}
use obsidian_mcp_server.Vault.Guards.Refusals.{
  IsRefusal, Keeps, Keeps-err, Keeps-late, IsLate, os_call-IsLate, asks-Keeps, call-IsLate,
}
use obsidian_mcp_server.Vault.Write.{
  WriteMode, overwrite, append, prepend, unknown_mode, write, check_size, existing_text,
  make_parent, store, store_combined, write_in_mode, write_note,
}
use obsidian_mcp_server.Vault.Write.Effect.{WasThere, TextIn, write_note-Wrote}

module _ (os : Os) (v : Service) (path : Bytes) where
  make_parent-IsLate : (abs_path : Bytes) (s : os.State) → IsLate (make_parent os v path abs_path s)
  unfolding make_parent
  make_parent-IsLate abs_path s =
      os_call-IsLate write path os_fault (os.mkdir_all (dir abs_path)) s (λ x r. r)

  store-IsLate : (abs_path text : Bytes) (s : os.State) → IsLate (store os v path abs_path text s)
  unfolding store
  store-IsLate abs_path text s =
      os_call-IsLate write path os_fault (os.write_file abs_path text) s (λ x r. r)

  check_size_err :
      (text : Bytes) (e : PathError) → check_size path text ≡ err e → e.fault ≡ file_too_large
  unfolding check_size
  check_size_err text e h = ground arith

  check_size-IsLate : (text : Bytes) (s : os.State) → IsLate (asks (λ _. check_size path text) s)
  check_size-IsLate text s e s' h r = subst IsRefusal (check_size_err text e (ap (λ o. o.0) h)) r

  store_combined-IsLate :
      (abs_path text : Bytes) (s : os.State) → IsLate (store_combined os v path abs_path text s)
  unfolding store_combined
  store_combined-IsLate abs_path text s =
      call-IsLate (make_parent os v path abs_path) _ s (make_parent-IsLate abs_path s) (λ a s1 h.
        call-IsLate (asks (λ _. check_size path text)) _ s1 (check_size-IsLate text s1)
          (λ b s2 k. store-IsLate abs_path text s2))

  write_in_mode-Keeps :
      (mode : WriteMode) (abs_path content condition matched : Bytes) (s : os.State)
      → Keeps s (write_in_mode os v mode path abs_path content condition matched s)
  unfolding write_in_mode
  write_in_mode-Keeps overwrite abs_path content condition matched s = Keeps-late s _ (
      call-IsLate (make_parent os v path abs_path) _ s (make_parent-IsLate abs_path s)
        (λ a s1 h. store-IsLate abs_path content s1))
  write_in_mode-Keeps append abs_path content condition matched s = Keeps-late s _ (
      store_combined-IsLate abs_path (existing_text os v abs_path condition matched s ++ content) s)
  write_in_mode-Keeps prepend abs_path content condition matched s = Keeps-late s _ (
      store_combined-IsLate abs_path (content ++ existing_text os v abs_path condition matched s) s)
  write_in_mode-Keeps (unknown_mode m) abs_path content condition matched s =
      Keeps-err (path_error write path unknown_write_mode) s

  pub write_note-Keeps :
      (is_cancelled : Bool) (content : Bytes) (mode : WriteMode) (condition : Bytes) (s : os.State)
      → Keeps s (write_note os v is_cancelled path content mode condition s)
  unfolding write_note
  write_note-Keeps is_cancelled content mode condition s =
      asks-Keeps (λ _. check_context write path is_cancelled) _ s
        (λ _ _.
          asks-Keeps (λ _. check_size path content) _ s
            (λ _ _.
              asks-Keeps (λ _. sanitize os v write path) _ s
                (λ t _. asks-Keeps (check_symlinks_for_write os v write path t.1) _ s (λ _ _.
                  asks-Keeps (read_if_conditional os v write path t.1 condition revision_conflict) _
                    s (λ m _. write_in_mode-Keeps mode t.1 content condition m s)))))

  -- A write that is refused changes nothing.
  pub write_note_refused :
      (is_cancelled : Bool) (content : Bytes) (mode : WriteMode) (condition : Bytes)
      (s s' : os.State) (e : PathError)
      → write_note os v is_cancelled path content mode condition s ≡ (err e, s')
      → IsRefusal e.fault
      → s' ≡ s
  write_note_refused is_cancelled content mode condition s s' e =
      write_note-Keeps is_cancelled content mode condition s e s'

  -- Of two conditional writes of a note with one revision, where the first overwrites, both succeed
  -- only if the text of the first has that same revision.
  pub write_note-after_write :
      IsReliable os
      → (a b : Bytes) (mode : WriteMode) (c : ℕ) (condition : Bytes) (s s1 s2 : os.State)
      → write_note os v false path a overwrite (c ∷ condition) s ≡ (ok tt, s1)
      → write_note os v false path b mode (c ∷ condition) s1 ≡ (ok tt, s2)
      → etag v a ≡ c ∷ condition
  unfolding WasThere TextIn
  write_note-after_write reliable a b mode c condition s s1 s2 h k =
      let first = write_note-Wrote os v reliable path false a overwrite (c ∷ condition) s s1 h in
      let second = write_note-Wrote os v reliable path false b mode (c ∷ condition) s1 s2 k in
      cc (
        first.text_in, first.then_read, first.allowed, second.allowed, second.was_there.0,
        second.was_there.1,
      )

-- ===== src/Vault/Write/Effect.antt =====
-- internal/vault/vault.go, WriteNote: what a successful write did.
use obsidian_mcp_server.Prelude.{◌≤◌, ◌≡◌, refl, Bool, [], ◌∷◌, ◌++◌, length, arith}
use obsidian_mcp_server.Prelude.Exec.{Result, ok, asks_rule, call_rule}
use obsidian_mcp_server.Strings.{Bytes}
use obsidian_mcp_server.Vault.Errors.{revision_conflict, os_fault, PathError}
use obsidian_mcp_server.Vault.Os.{Os, IsReliable}
use obsidian_mcp_server.Vault.Sanitize.{sanitize_path}
use obsidian_mcp_server.Vault.Guards.{
  Service, max_file_size_bytes, etag, check_context, check_symlinks_for_write, sanitize,
  read_note_bytes, read_if_conditional,
}
use obsidian_mcp_server.Vault.Guards.Facts.{
  LeadsInside, check_symlinks_for_write-LeadsInside, os_call_ok, sanitize_ok,
  read_if_conditional_ok, read_note_bytes-stored,
}
use obsidian_mcp_server.Vault.Write.{
  WriteMode, overwrite, append, prepend, unknown_mode, write, check_size, existing_text,
  read_existing_or_empty, make_parent, store, store_combined, write_in_mode, write_note,
}

-- What the note holds after a write.
unfoldable pub TextIn : WriteMode → Bytes → Bytes → Bytes → Type 0
TextIn overwrite existing content text = text ≡ content
TextIn append existing content text = text ≡ existing ++ content
TextIn prepend existing content text = text ≡ content ++ existing
TextIn (unknown_mode m) existing content text = ⊥

module _ (os : Os) (v : Service) where
  -- The text that was there: of a conditional write, the note that was read, whose digest is the
  -- condition.
  unfoldable pub WasThere : Bytes → Bytes → os.State → Bytes → Type 0
  WasThere abs_path [] s existing = existing ≡ read_existing_or_empty os v abs_path s
  WasThere abs_path (c ∷ condition) s existing =
      (read_note_bytes os v abs_path s ≡ ok existing) × (etag v existing ≡ c ∷ condition)

  -- A write, and what is read after it.
  pub record Wrote (path content : Bytes) (mode : WriteMode) (condition : Bytes) (s s' : os.State)
      : Type 0 where
    pub target : Bytes × Bytes
    pub existing : Bytes
    pub text : Bytes
    pub allowed : sanitize_path v.root v.filter path ≡ ok target
    pub inside : LeadsInside os v target.1 s
    pub was_there : WasThere target.1 condition s existing
    pub text_in : TextIn mode existing content text
    pub bounded : length text ≤ max_file_size_bytes
    pub then_read : read_note_bytes os v target.1 s' ≡ ok text

check_size_ok :
    (path text : Bytes) → check_size path text ≡ ok tt → length text ≤ max_file_size_bytes
unfolding check_size
check_size_ok path text h = ground arith

module _ (os : Os) (v : Service) (reliable : IsReliable os) (path : Bytes) where
  store_ok :
      (abs_path text : Bytes) (s s' : os.State)
      → length text ≤ max_file_size_bytes
      → store os v path abs_path text s ≡ (ok tt, s')
      → read_note_bytes os v abs_path s' ≡ ok text
  unfolding store
  store_ok abs_path text s s' b h = read_note_bytes-stored os v abs_path text s' b (
      reliable.write_then_open abs_path text s s'
        (os_call_ok write path os_fault (os.write_file abs_path text) s tt s' h))

  -- The outcomes of which a success leaves the text in the note.
  Leaves : Bytes → Bytes → os.State → Result PathError (Unit {0}) × os.State → Type 0
  Leaves abs_path text s out =
      (s' : os.State)
      → out ≡ (ok tt, s')
      → (length text ≤ max_file_size_bytes) × (read_note_bytes os v abs_path s' ≡ ok text)

  store_combined_ok :
      (abs_path text : Bytes) (s : os.State)
      → Leaves abs_path text s (store_combined os v path abs_path text s)
  unfolding store_combined Leaves
  store_combined_ok abs_path text s =
      call_rule (Leaves abs_path text s) (make_parent os v path abs_path) _ s (λ e s1 h. λ s' k. cc)
        (λ a s1 h.
          asks_rule (Leaves abs_path text s) (λ _. check_size path text) _ s1 (λ e h. λ s' k. cc)
            (λ u k. λ s' w. (
              check_size_ok path text k,
              store_ok abs_path text s1 s' (check_size_ok path text k) w,
            )))

  overwrite_ok :
      (abs_path content : Bytes) (s : os.State)
      → length content ≤ max_file_size_bytes
      → Leaves abs_path content s (write_in_mode os v overwrite path abs_path content [] [] s)
  unfolding write_in_mode Leaves
  overwrite_ok abs_path content s b =
      call_rule (Leaves abs_path content s) (make_parent os v path abs_path) _ s
        (λ e s1 h. λ s' k. cc) (λ a s1 h. λ s' w. (b, store_ok abs_path content s1 s' b w))

  -- The mode's part of a write, with the text that was there.
  write_in_mode_ok :
      (mode : WriteMode) (abs_path content condition matched : Bytes) (s s' : os.State)
      → length content ≤ max_file_size_bytes
      → write_in_mode os v mode path abs_path content condition matched s ≡ (ok tt, s')
      → (text : Bytes) × TextIn mode (existing_text os v abs_path condition matched s) content text
        × ((length text ≤ max_file_size_bytes) × (read_note_bytes os v abs_path s' ≡ ok text))
  unfolding write_in_mode Leaves TextIn
  write_in_mode_ok overwrite abs_path content condition matched s s' b h =
      (content, refl, overwrite_ok abs_path content s b s' h)
  write_in_mode_ok append abs_path content condition matched s s' b h = (
    existing_text os v abs_path condition matched s ++ content,
    refl,
    store_combined_ok abs_path (existing_text os v abs_path condition matched s ++ content) s s' h,
  )
  write_in_mode_ok prepend abs_path content condition matched s s' b h = (
    content ++ existing_text os v abs_path condition matched s,
    refl,
    store_combined_ok abs_path (content ++ existing_text os v abs_path condition matched s) s s' h,
  )
  write_in_mode_ok (unknown_mode m) abs_path content condition matched s s' b h = cc

  existing_text-WasThere :
      (abs_path condition matched : Bytes) (s : os.State)
      → read_if_conditional os v write path abs_path condition revision_conflict s ≡ ok matched
      → WasThere os v abs_path condition s (existing_text os v abs_path condition matched s)
  unfolding WasThere existing_text
  existing_text-WasThere abs_path [] matched s h = refl
  existing_text-WasThere abs_path (c ∷ condition) matched s h =
      read_if_conditional_ok os v write path abs_path c condition revision_conflict s matched h

  -- A write that succeeds went to an allowed path; before it the directory of the path, where os.Stat
  -- found one, was below the root with symbolic links followed, and so was the path where it was a
  -- link itself; a conditional write found the text of that revision; and where the system stores what
  -- a successful write is given, a read of the note gives the new text then.
  pub write_note-Wrote :
      (is_cancelled : Bool) (content : Bytes) (mode : WriteMode) (condition : Bytes)
      (s s' : os.State)
      → write_note os v is_cancelled path content mode condition s ≡ (ok tt, s')
      → Wrote os v path content mode condition s s'
  unfolding write_note
  write_note-Wrote is_cancelled content mode condition s =
      asks_rule Good (λ _. check_context write path is_cancelled) _ s (λ e h. λ s' k. cc)
        (λ _ _.
          asks_rule Good (λ _. check_size path content) _ s (λ e h. λ s' k. cc)
            (λ _ b.
              asks_rule Good (λ _. sanitize os v write path) _ s (λ e h. λ s' k. cc)
                (λ t a.
                  asks_rule Good (check_symlinks_for_write os v write path t.1) _ s
                    (λ e h. λ s' k. cc)
                    (λ _ i.
                      asks_rule Good
                        (read_if_conditional os v write path t.1 condition revision_conflict) _ s
                        (λ e h. λ s' k. cc) (λ m r. λ s' w. done t m s' b a i r w)))))
    where
      Good : Result PathError (Unit {0}) × os.State → Type 0
      Good out = (s' : os.State) → out ≡ (ok tt, s') → Wrote os v path content mode condition s s'

      done :
          (t : Bytes × Bytes) (m : Bytes) (s' : os.State)
          → check_size path content ≡ ok tt
          → sanitize os v write path ≡ ok t
          → check_symlinks_for_write os v write path t.1 s ≡ ok tt
          → read_if_conditional os v write path t.1 condition revision_conflict s ≡ ok m
          → write_in_mode os v mode path t.1 content condition m s ≡ (ok tt, s')
          → Wrote os v path content mode condition s s'
      done t m s' b a i r w =
          let (text, fits, kept) =
            write_in_mode_ok mode t.1 content condition m s s' (check_size_ok path content b) w in
          record {
            target = t;
            existing = existing_text os v t.1 condition m s;
            text = text;
            allowed = sanitize_ok os v write path t a;
            inside = check_symlinks_for_write-LeadsInside os v write path t.1 s i;
            was_there = existing_text-WasThere t.1 condition m s r;
            text_in = fits;
            bounded = kept.0;
            then_read = kept.1;
          }

-- ===== src/Vault/Read/Resolved.antt =====
-- internal/vault/vault.go, ResolvePath and ReadNote: where a note that is read stands.
use obsidian_mcp_server.Prelude.{◌≡◌, sym, ap, ◌∙◌, subst, Bool, true}
use obsidian_mcp_server.Prelude.Exec.{Result, ok, err, asks_rule, call_rule}
use obsidian_mcp_server.Strings.{Bytes, codes}
use obsidian_mcp_server.Vault.Errors.{Fault, PathError}
use obsidian_mcp_server.Vault.Os.{Os}
use obsidian_mcp_server.Vault.Sanitize.{is_under_root, sanitize_path}
use obsidian_mcp_server.Vault.Guards.{
  Service, check_context, sanitize, resolve_symlink, etag, check_if_match, read_note_bytes,
}
use obsidian_mcp_server.Vault.Guards.Facts.{sanitize_ok, resolve_symlink_ok, check_if_match-etag}
use obsidian_mcp_server.Vault.Read.{
  Note, resolve, existence_check, check_extension, resolve_path, raw_or_fault, read_note,
}

module _ (to_lower : Bytes → Bytes) (os : Os) (v : Service) (path : Bytes) where
  -- Where a path resolves to: the target of an allowed path, or of the one entry beside it whose name
  -- differs in case, with symbolic links followed, and below the root.
  pub record Resolved (s : os.State) (p : Bytes) : Type 0 where
    pub target : Bytes × Bytes
    pub found : Bytes
    pub allowed : sanitize_path v.root v.filter path ≡ ok target
    pub extension_allowed : check_extension to_lower os v path target.0 ≡ ok tt
    pub exists' : existence_check to_lower os v path target.1 s ≡ ok found
    pub links_followed : os.eval_symlinks found s ≡ ok p
    pub under_root : is_under_root v.root p ≡ true

  Good : os.State → Result PathError Bytes × os.State → Type 0
  Good s out = (p : Bytes) (s' : os.State) → out ≡ (ok p, s') → Resolved s p × (s' ≡ s)

  resolve_path-Resolved : (s : os.State) → Good s (resolve_path to_lower os v path s)
  unfolding resolve_path Good
  resolve_path-Resolved s =
      asks_rule (Good s) (λ _. sanitize os v resolve path) _ s (λ e h p s' k. cc)
        (λ t a.
          asks_rule (Good s) (λ _. check_extension to_lower os v path t.0) _ s (λ e h p s' k. cc)
            (λ _ x.
              asks_rule (Good s) (existence_check to_lower os v path t.1) _ s (λ e h p s' k. cc)
                (λ f y p s' k. (done t f p a x y (ap (λ o. o.0) k), sym (ap (λ o. o.1) k)))))
    where
      done :
          (t : Bytes × Bytes) (f p : Bytes)
          → sanitize os v resolve path ≡ ok t
          → check_extension to_lower os v path t.0 ≡ ok tt
          → existence_check to_lower os v path t.1 s ≡ ok f
          → resolve_symlink os v resolve path f s ≡ ok p
          → Resolved s p
      done t f p a x y k =
          let followed = resolve_symlink_ok os v resolve path f s p k in
          record {
            target = t;
            found = f;
            allowed = sanitize_ok os v resolve path t a;
            extension_allowed = x;
            exists' = y;
            links_followed = followed.0;
            under_root = followed.1;
          }

  -- A note that was read: it stands where its path resolves to, below the root; what was read is its
  -- content, and its etag is a condition that the content meets.
  pub record WasRead (s : os.State) (n : Note) : Type 0 where
    pub resolved : Resolved s n.abs_path
    pub content_read : read_note_bytes os v n.abs_path s ≡ ok n.content
    pub etag_meets : (op : Bytes) → check_if_match v op path n.content n.note_etag ≡ ok tt

  raw_ok :
      (r : Result Fault Bytes) (d : Bytes) → raw_or_fault to_lower os v path r ≡ ok d → r ≡ ok d
  raw_ok (ok b) d h = cc
  raw_ok (err f) d h = cc

  -- A note that is read stands below the root, at the place its path resolves to; what is read is what is
  -- stored, its etag is a condition that it meets, and nothing changes.
  pub read_note-WasRead :
      (is_cancelled : Bool) (n : Note) (s s' : os.State)
      → read_note to_lower os v is_cancelled path s ≡ (ok n, s')
      → WasRead s n × (s' ≡ s)
  unfolding read_note Good
  read_note-WasRead is_cancelled n s s' =
      asks_rule P (λ _. check_context (codes "read") path is_cancelled) _ s (λ e h k. cc)
        (λ _ _.
          call_rule P (resolve_path to_lower os v path) _ s (λ e s1 h k. cc)
            (λ p s1 h.
              asks_rule P (λ s. raw_or_fault to_lower os v path (read_note_bytes os v p s)) _ s1
                (λ e h' k. cc)
                (λ d h' k.
                  result p d s1 (resolve_path-Resolved s p s1 h)
                    (raw_ok (read_note_bytes os v p s1) d h') k)))
    where
      P : Result PathError Note × os.State → Type 0
      P out = out ≡ (ok n, s') → WasRead s n × (s' ≡ s)

      note_of :
          {m : Note} {s1 : os.State}
          → ◌≡◌ {A = Result PathError Note × os.State} (ok m, s1) (ok n, s')
          → m ≡ n
      note_of h = cc

      result :
          (p d : Bytes) (s1 : os.State)
          → Resolved s p × (s1 ≡ s)
          → read_note_bytes os v p s1 ≡ ok d
          → ◌≡◌ {A = Result PathError Note × os.State}
              (ok (record { path = path; abs_path = p; content = d; note_etag = etag v d }), s1)
              (ok n, s')
          → WasRead s n × (s' ≡ s)
      result p d s1 r h k = (
        subst (WasRead s) (note_of k) (record {
          resolved = r.0;
          content_read = subst (λ s. read_note_bytes os v p s ≡ ok d) r.1 h;
          etag_meets = λ op. check_if_match-etag v op path d;
        }),
        sym (ap (λ o. o.1) k) ∙ r.1,
      )

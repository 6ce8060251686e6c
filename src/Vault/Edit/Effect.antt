-- ===== src/Vault/Edit/Effect.antt =====
-- internal/vault: what an edit of a note did where it succeeded, and that a refused one does nothing.
use obsidian_mcp_server.Prelude.{
  ◌≡◌, ◌⊎◌, inl, inr, refl, sym, ap, Bool, true, false, ◌&&◌, [], ◌∷◌, arith,
}
use obsidian_mcp_server.Prelude.Exec.{Result, ok, asks_rule}
use obsidian_mcp_server.Strings.{Bytes, eq_bytes, eq_bytes_iff}
use obsidian_mcp_server.Vault.Errors.{Fault, os_fault, PathError}
use obsidian_mcp_server.Vault.Os.{Os, IsReliable, stored}
use obsidian_mcp_server.Vault.Sanitize.{sanitize_path}
use obsidian_mcp_server.Vault.Guards.{
  Service, with_path, check_symlinks_for_write, exists_strict, sanitize, read_note_bytes,
  check_if_match,
}
use obsidian_mcp_server.Vault.Guards.Facts.{
  os_call_ok, with_path_ok, sanitize_ok, Matches, check_if_match_ok,
}
use obsidian_mcp_server.Vault.Guards.Refusals.{Keeps, Keeps-late, os_call-IsLate, asks-Keeps}
use obsidian_mcp_server.Vault.Edit.{edit_note, store_unless}

module _ (os : Os) (v : Service) (op path condition : Bytes) (skip_same : Bool)
    (f : Bytes → Result Fault Bytes) where
  -- A note that was edited: the text that was read, with the digest that the caller named, was changed
  -- by `f`, and the new text is stored, or it is the old one and nothing was done.
  pub record Edited (s s' : os.State) : Type 0 where
    pub target : Bytes × Bytes
    pub before : Bytes
    pub text : Bytes
    pub allowed : sanitize_path v.root v.filter path ≡ ok target
    pub was_there : exists_strict os v op path target.1 s ≡ ok tt
    pub links_inside : check_symlinks_for_write os v op path target.1 s ≡ ok tt
    pub was_read : read_note_bytes os v target.1 s ≡ ok before
    pub revision : Matches os v target.1 condition s
    pub changed : f before ≡ ok text
    pub then_stored :
        ((skip_same ≡ true) × (text ≡ before) × (s' ≡ s))
        ⊎ (os.open_file target.1 s' ≡ ok (stored text))

  matched :
      (target : Bytes × Bytes) (d c : Bytes) (s : os.State)
      → read_note_bytes os v target.1 s ≡ ok d
      → check_if_match v op path d c ≡ ok tt
      → Matches os v target.1 c s
  unfolding Matches
  matched target d [] s r m = tt
  matched target d (x ∷ c) s r m = (d, (r, check_if_match_ok v op path d x c m))

  kept :
      (target : Bytes × Bytes) (before text : Bytes) (b : Bool) (s s' : os.State)
      → IsReliable os
      → skip_same && eq_bytes text before ≡ b
      → store_unless os v b op path target.1 text s ≡ (ok tt, s')
      → ((skip_same ≡ true) × (text ≡ before) × (s' ≡ s))
        ⊎ (os.open_file target.1 s' ≡ ok (stored text))
  kept target before text true s s' reliable e h =
      inl (ground arith, (eq_bytes_iff text before).0 (ground arith), sym (ap (λ o. o.1) h))
  kept target before text false s s' reliable e h = inr (
      reliable.write_then_open target.1 text s s'
        (os_call_ok op path os_fault (os.write_file target.1 text) s tt s' h))

  pub edit_note-Edited :
      IsReliable os
      → (s s' : os.State) → edit_note os v op path condition skip_same f s ≡ (ok tt, s')
      → Edited s s'
  unfolding edit_note
  edit_note-Edited reliable s s' =
      asks_rule Good (λ _. sanitize os v op path) _ s (λ e h k. cc)
        (λ t a.
          asks_rule Good (exists_strict os v op path t.1) _ s (λ e h k. cc)
            (λ _ x.
              asks_rule Good (check_symlinks_for_write os v op path t.1) _ s (λ e h k. cc)
                (λ _ l.
                  asks_rule Good (λ s. with_path op path (read_note_bytes os v t.1 s)) _ s
                    (λ e h k. cc)
                    (λ d r.
                      asks_rule Good (λ _. check_if_match v op path d condition) _ s (λ e h k. cc)
                        (λ _ m.
                          asks_rule Good (λ _. with_path op path (f d)) _ s (λ e h k. cc)
                            (λ text c w.
                              let was = with_path_ok op path (read_note_bytes os v t.1 s) d r in
                              record {
                                target = t;
                                before = d;
                                text = text;
                                allowed = sanitize_ok os v op path t a;
                                was_there = x;
                                links_inside = l;
                                was_read = was;
                                revision = matched t d condition s was m;
                                changed = with_path_ok op path (f d) text c;
                                then_stored =
                                    kept t d text (skip_same && eq_bytes text d) s s' reliable
                                      (refl) w;
                              }))))))
    where
      Good : Result PathError (Unit {0}) × os.State → Type 0
      Good out = out ≡ (ok tt, s') → Edited s s'

  stored-Keeps :
      (b : Bool) (abs_path text : Bytes) (s : os.State)
      → Keeps s (store_unless os v b op path abs_path text s)
  stored-Keeps true abs_path text s e s' h r = cc
  stored-Keeps false abs_path text s e s' h r =
      Keeps-late s _ (os_call-IsLate op path os_fault (os.write_file abs_path text) s (λ x r. r)) e
        s' h r

  pub edit_note-Keeps : (s : os.State) → Keeps s (edit_note os v op path condition skip_same f s)
  unfolding edit_note
  edit_note-Keeps s =
      asks-Keeps (λ _. sanitize os v op path) _ s
        (λ t _. asks-Keeps (exists_strict os v op path t.1) _ s (λ _ _.
          asks-Keeps (check_symlinks_for_write os v op path t.1) _ s (λ _ _.
            asks-Keeps (λ s. with_path op path (read_note_bytes os v t.1 s)) _ s
              (λ d _.
                asks-Keeps (λ _. check_if_match v op path d condition) _ s
                  (λ _ _.
                    asks-Keeps (λ _. with_path op path (f d)) _ s
                      (λ text _. stored-Keeps (skip_same && eq_bytes text d) t.1 text s))))))

-- ===== src/Vault/List/Visible.antt =====
-- internal/vault/vault.go, ListDirectory: what is listed and what is not.
use obsidian_mcp_server.Prelude.{
  ℕ, ◌+◌, ◌≡◌, refl, sym, ap, ◌∙◌, Bool, true, false, not, ◌||◌, Option, List, [], ◌∷◌, inl, inr,
  ◌⊎◌, if◌then◌else◌,
}
use obsidian_mcp_server.Prelude.Exec.{Result, ok, err, asks_rule, call_rule}
use obsidian_mcp_server.Strings.{Bytes}
use obsidian_mcp_server.Vault.Errors.{OsError, cancelled, os_fault, PathError}
use obsidian_mcp_server.Vault.Os.{Os, Entry}
use obsidian_mcp_server.Vault.PathFilter.{PathFilter}
use obsidian_mcp_server.Vault.Guards.{
  Service, path_error, with_path, wrapped, check_context, sanitize, exists_strict,
}
use obsidian_mcp_server.Vault.List.{
  list, DirEntry, relative_path, is_hidden, dir_entry, found_too, list_entries, directory,
  list_directory,
}

-- A list of what is listed of some entries: each that is not hidden and has its metadata, in their order.
unfoldable pub Lists : Option PathFilter → Bytes → List Entry → List DirEntry → Type 0
Lists filter path [] ds = ds ≡ []
Lists filter path (e ∷ es) ds =
    ((is_hidden filter (relative_path path e.name) ≡ false)
      × ((e.has_info ≡ true)
          × ((rest : List DirEntry) × ((ds ≡ dir_entry path e ∷ rest)
                × Lists filter path es rest))))
    ⊎ (((is_hidden filter (relative_path path e.name) ≡ true) ⊎ (e.has_info ≡ false))
        × Lists filter path es ds)

list_entries-Lists :
    (filter : Option PathFilter) (is_cancelled : ℕ → Bool) (i : ℕ) (path : Bytes) (es : List Entry)
    (ds : List DirEntry)
    → list_entries filter is_cancelled i path es ≡ ok ds
    → Lists filter path es ds
unfolding list_entries Lists
list_entries-Lists filter is_cancelled i path [] ds h = cc
list_entries-Lists filter is_cancelled i path (e ∷ es) ds h =
    step (is_cancelled i) (is_hidden filter (relative_path path e.name)) e.has_info
      (list_entries filter is_cancelled (i + 1) path es) refl refl
      (list_entries-Lists filter is_cancelled (i + 1) path es) h
  where
    step :
        (c hidden info : Bool) (rest : Result PathError (List DirEntry))
        → is_hidden filter (relative_path path e.name) ≡ hidden
        → e.has_info ≡ info
        → ((ds : List DirEntry) → rest ≡ ok ds → Lists filter path es ds)
        → (if c
            then err (path_error list path cancelled)
            else if hidden || not info
            then rest
            else found_too (dir_entry path e) rest)
          ≡ ok ds
        → Lists filter path (e ∷ es) ds
    step true hidden info rest hi hn ih h' = cc
    step false true info rest hi hn ih h' = inr (inl hi, ih ds h')
    step false false false rest hi hn ih h' = inr (inr hn, ih ds h')
    step false false true (err x) hi hn ih h' = cc
    step false false true (ok rest) hi hn ih h' = inl (hi, (hn, (rest, (cc, ih rest refl))))

directory_still :
    (os : Os) (v : Service) (path : Bytes) (s : os.State) → (directory os v path s).1 ≡ s
unfolding directory
directory_still os v [] s = refl
directory_still os v (x ∷ path) s =
    asks_rule (λ o. o.1 ≡ s) (λ _. sanitize os v list (x ∷ path)) _ s (λ e _. refl)
      (λ t _.
        asks_rule (λ o. o.1 ≡ s) (exists_strict os v list (x ∷ path) t.1) _ s (λ e _. refl)
          (λ _ _. refl))

module _ (os : Os) (v : Service) (path : Bytes) where
  directory_same : (p : Bytes) (s s' : os.State) → directory os v path s ≡ (ok p, s') → s' ≡ s
  directory_same p s s' h = sym (ap (λ o. o.1) h) ∙ directory_still os v path s

  -- Where the directory is found on disk and what it holds, and the list of what is to be seen of it.
  pub record Listed (s : os.State) (ds : List DirEntry) : Type 0 where
    pub abs_path : Bytes
    pub entries : List Entry
    pub resolved : directory os v path s ≡ (ok abs_path, s)
    pub was_read : os.read_dir abs_path s ≡ ok entries
    pub lists : Lists v.filter path entries ds

  read_ok :
      (r : Result OsError (List Entry)) (es : List Entry)
      → with_path list path (wrapped os_fault r) ≡ ok es
      → r ≡ ok es
  read_ok (ok e) es h = cc
  read_ok (err e) es h = cc

  -- A directory is listed as it is found on disk, with every entry that is neither hidden nor without
  -- metadata, in order, and no other.
  pub list_directory-Listed :
      (is_cancelled : ℕ → Bool) (ds : List DirEntry) (s s' : os.State)
      → list_directory os v is_cancelled path s ≡ (ok ds, s')
      → Listed s ds
  unfolding list_directory
  list_directory-Listed is_cancelled ds s s' =
      asks_rule Good (λ _. check_context list path (is_cancelled 0)) _ s (λ e h k. cc)
        (λ _ _.
          call_rule Good (directory os v path) _ s (λ e s1 h k. cc)
            (λ p s1 h.
              asks_rule Good (λ s. with_path list path (wrapped os_fault (os.read_dir p s))) _ s1
                (λ e h' k. cc)
                (λ es h' k. record {
                  abs_path = p;
                  entries = es;
                  resolved = h ∙ ap (λ t. (ok p, t)) (directory_same p s s1 h);
                  was_read =
                      ap (os.read_dir p) (sym (directory_same p s s1 h))
                      ∙ read_ok (os.read_dir p s1) es h';
                  lists = list_entries-Lists v.filter is_cancelled 1 path es ds (ap (λ o. o.0) k);
                })))
    where
      Good : Result PathError (List DirEntry) × os.State → Type 0
      Good out = out ≡ (ok ds, s') → Listed s ds
